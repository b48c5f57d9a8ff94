-- ===== src/Chain/Lookup.antt =====
-- What `Store`, `LocalGet` and `Get` of overhead/blockchain/blockchain.go leave in the maps.
use optilog_artifacts.Prelude.{
  ℕ, ◌≡◌, refl, ap, ◌∙◌, Option, none, some, List, [], ◌∷◌, arith, ◌==◌, if◌then◌else◌, All,
  Option-cases, inl, inr, ==_refl,
}
use optilog_artifacts.Prelude.Dict.{lookup, insert, lookup-insert}
use optilog_artifacts.Types.{Block}
use optilog_artifacts.Chain.{
  Chain, Network, store, store_all, local_get, get, fetch_block, after_fetch,
}
use optilog_artifacts.Chain.Known.{Universe, IsFaithful}

-- `LocalGet` after `Store` finds the stored block under its own hash, and elsewhere what was there.
pub local_get-store :
    (h : ℕ) (b : Block) (c : Chain)
    → local_get h (store b c) ≡ (if b.hash == h then some b else local_get h c)
unfolding local_get store
local_get-store h b c = lookup-insert b.hash h b c.blocks

-- A block that is known locally is returned at once: no fetch, and nothing changes.
pub get-local :
    (fetch : Network) (h : ℕ) (b : Block) (c : Chain)
    → local_get h c ≡ some b
    → get fetch h c ≡ (some b, c)
unfolding get local_get
get-local fetch h b c e = rw (e, get)

after_fetch-found :
    (h : ℕ) (o : Option Block) (b : Block) (c : Chain)
    → (after_fetch h o c).0 ≡ some b
    → local_get h (after_fetch h o c).1 ≡ some b
unfolding local_get after_fetch
after_fetch-found h none b c e = e
after_fetch-found h (some a) b c e = rw (lookup-insert h h a c.blocks, ==_refl) e

-- What `Get` returns is held locally from then on.
pub get-found :
    (fetch : Network) (h : ℕ) (b : Block) (c : Chain)
    → (get fetch h c).0 ≡ some b
    → local_get h (get fetch h c).1 ≡ some b
unfolding get fetch_block
get-found fetch h b c e = elim (Option-cases (lookup h c.blocks)) [
  | inl q ↦ rw (q, get) (after_fetch-found h _ b _ (rw (q, get) at e))
  | inr (a, q) ↦ rw (q, get) (unfold local_get in (q ∙ (rw (q, get) at e)))
]

-- So a second `Get` asks nobody and changes nothing.
pub get_again :
    (fetch : Network) (h : ℕ) (b : Block) (c : Chain)
    → (get fetch h c).0 ≡ some b
    → get fetch h (get fetch h c).1 ≡ (some b, (get fetch h c).1)
get_again fetch h b c e = get-local fetch h b (get fetch h c).1 (get-found fetch h b c e)

-- Lookups of existing blocks survive every later call.
module _ (u : Universe) (k : ℕ) (b : Block) (exists : u k ≡ some b) where
  insert-keeps :
      (h : ℕ) (a : Block) (c : Chain)
      → u h ≡ some a
      → lookup k c.blocks ≡ some b
      → lookup k (insert h a c.blocks) ≡ some b
  insert-keeps h a c new e = ground (arith, lookup-insert h k a c.blocks, ap u {x = h} {y = k})

  store_all-keeps :
      (bs : List Block) (c : Chain)
      → All (λ (a : Block). u a.hash ≡ some a) bs
      → lookup k c.blocks ≡ some b
      → lookup k (store_all bs c).blocks ≡ some b
  unfolding store_all store
  store_all-keeps [] c new e = e
  store_all-keeps (a ∷ bs) c new e =
      store_all-keeps bs (store a c) new.1 (insert-keeps a.hash a c new.0 e)

  after_fetch-keeps :
      (h : ℕ) (o : Option Block) (c : Chain)
      → ((a : Block) → o ≡ some a → u h ≡ some a)
      → lookup k c.blocks ≡ some b
      → lookup k (after_fetch h o c).1.blocks ≡ some b
  unfolding after_fetch
  after_fetch-keeps h none c ok e = e
  after_fetch-keeps h (some a) c ok e = insert-keeps h a c (ok a refl) e

  -- A block once held locally stays so through every later `Get`, whatever else that brings in.
  pub get-keeps :
      (fetch : Network) (h : ℕ) (c : Chain)
      → IsFaithful u fetch
      → local_get k c ≡ some b
      → local_get k (get fetch h c).1 ≡ some b
  unfolding get fetch_block local_get
  get-keeps fetch h c faithful e = elim (Option-cases (lookup h c.blocks)) [
    | inl q ↦
        rw (q, get)
          (after_fetch-keeps h (fetch c.fetches h).result _ (faithful.answers c.fetches h)
            (store_all-keeps (fetch c.fetches h).arrived _ (faithful.arrives c.fetches h) e))
    | inr (a, q) ↦ rw (q, get) e
  ]
