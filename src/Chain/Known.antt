-- ===== src/Chain/Known.antt =====
-- What a replica holds, against the blocks that exist. The blocks of a run, by hash, are a function,
-- a `Universe`: that it is a function says that sha256 has no collision among them.
use optilog_artifacts.Prelude.{
  ℕ, ◌<◌, ◌≡◌, refl, ap, ◌∙◌, Option, none, some, List, [], ◌∷◌, arith, All, Option-cases, inl, inr,
}
use optilog_artifacts.Prelude.Dict.{Dict, lookup, insert, lookup-insert}
use optilog_artifacts.Types.{Block}
use optilog_artifacts.Chain.{
  Chain, Network, store, store_all, get, fetch_block, after_fetch, begin_fetch, end_fetch,
}

abbrev pub Universe : Type 0
Universe = ℕ → Option Block

-- A block is filed under its own hash.
abbrev pub IsHashed : Universe → Type 0
IsHashed u = (h : ℕ) (b : Block) → u h ≡ some b → b.hash ≡ h

-- A block's parent has a lower view.
abbrev pub Descends : Universe → Type 0
Descends u = (b p : Block) → u b.hash ≡ some b → u b.parent ≡ some p → p.view < b.view

-- What FetchQF of overhead/backend/config.go checks: an answer is the block of the hash that was
-- asked for. Blocks that arrive in the meantime exist.
pub record IsFaithful (u : Universe) (fetch : Network) : Type 0 where
  pub arrives : (n h : ℕ) → All (λ (b : Block). u b.hash ≡ some b) (fetch n h).arrived
  pub answers : (n h : ℕ) (b : Block) → (fetch n h).result ≡ some b → u h ≡ some b

pub record IsKnown (u : Universe) (c : Chain) : Type 0 where
  pub by_hash : (h : ℕ) (b : Block) → lookup h c.blocks ≡ some b → u h ≡ some b
  pub at_view :
      (v : ℕ) (b : Block) → lookup v c.block_at_height ≡ some b → (u b.hash ≡ some b) × (b.view ≡ v)

module _ (u : Universe) where
  insert-by_hash :
      (h : ℕ) (b : Block) (m : Dict Block)
      → u h ≡ some b
      → ((k : ℕ) (a : Block) → lookup k m ≡ some a → u k ≡ some a)
      → (k : ℕ) (a : Block) → lookup k (insert h b m) ≡ some a
      → u k ≡ some a
  insert-by_hash h b m new old k a e = ground (arith, lookup-insert h k b m, old k a)

  insert-at_view :
      (b : Block) (m : Dict Block)
      → u b.hash ≡ some b
      → ((k : ℕ) (a : Block) → lookup k m ≡ some a → (u a.hash ≡ some a) × (a.view ≡ k))
      → (k : ℕ) (a : Block) → lookup k (insert b.view b m) ≡ some a
      → (u a.hash ≡ some a) × (a.view ≡ k)
  insert-at_view b m new old k a e = ground (arith, lookup-insert b.view k b m, old k a)

  pub store-IsKnown :
      (b : Block) (c : Chain) → u b.hash ≡ some b → IsKnown u c → IsKnown u (store b c)
  unfolding store
  store-IsKnown b c new known = record {
    by_hash = insert-by_hash b.hash b c.blocks new known.by_hash;
    at_view = insert-at_view b c.block_at_height new known.at_view;
  }

  pub store_all-IsKnown :
      (bs : List Block) (c : Chain)
      → All (λ (b : Block). u b.hash ≡ some b) bs
      → IsKnown u c
      → IsKnown u (store_all bs c)
  unfolding store_all
  store_all-IsKnown [] c new known = known
  store_all-IsKnown (b ∷ bs) c new known =
      store_all-IsKnown bs (store b c) new.1 (store-IsKnown b c new.0 known)

  -- What a lookup answers: the block of that hash, and a replica that still holds only such blocks.
  pub record Answers (h : ℕ) (r : Option Block × Chain) : Type 0 where
    pub found : (b : Block) → r.0 ≡ some b → u h ≡ some b
    pub known : IsKnown u r.1

  after_fetch-Answers :
      (h : ℕ) (o : Option Block) (c : Chain)
      → IsHashed u
      → ((b : Block) → o ≡ some b → u h ≡ some b)
      → IsKnown u c
      → Answers h (after_fetch h o c)
  unfolding after_fetch
  after_fetch-Answers h none c hashed ok known = record { found = known.by_hash h; known = known }
  after_fetch-Answers h (some b) c hashed ok known =
      let new = ok b refl in
      let own : u b.hash ≡ some b = ap u (hashed h b new) ∙ new in
      record {
        found = ok;
        known = record {
          by_hash = insert-by_hash h b c.blocks new known.by_hash;
          at_view = insert-at_view b c.block_at_height own known.at_view;
        };
      }

  -- As long as the network answers with the block of the hash asked for, Get returns that block or
  -- none, and a replica that holds only existing blocks, each under its own hash and view, still
  -- does.
  pub get-Answers :
      (fetch : Network) (h : ℕ) (c : Chain)
      → IsHashed u
      → IsFaithful u fetch
      → IsKnown u c
      → Answers h (get fetch h c)
  unfolding get fetch_block
  get-Answers fetch h c hashed faithful known = elim (Option-cases (lookup h c.blocks)) [
    | inl e ↦
        rw (e, get)
          (after_fetch-Answers h (fetch c.fetches h).result _ hashed (faithful.answers c.fetches h)
            fetched)
    | inr (b, e) ↦
        rw (e, get) (record { found = λ a q. ground (arith, known.by_hash h b); known = known })
  ]
    where
      started : IsKnown u (begin_fetch h c)
      started = record { by_hash = known.by_hash; at_view = known.at_view }

      arrived : IsKnown u (store_all (fetch c.fetches h).arrived (begin_fetch h c))
      arrived =
          store_all-IsKnown (fetch c.fetches h).arrived _ (faithful.arrives c.fetches h) started

      fetched : IsKnown u (end_fetch h (store_all (fetch c.fetches h).arrived (begin_fetch h c)))
      fetched = record { by_hash = arrived.by_hash; at_view = arrived.at_view }
