-- ===== src/Rules/Simple/Commit.antt =====
-- What the simplified rules commit, lock and vote for.
use optilog_artifacts.Prelude.{
  ℕ, ◌≤◌, ◌≡◌, ap, ◌∙◌, Bool, true, false, some, ◌==◌, ltb, arith, Bool-cases, Option-cases, inl,
  inr, ◌↔◌, sym, ==_iff,
}
use optilog_artifacts.Prelude.Words.{add_u64}
use native.Mathlib.Nat.{le_refl, le_trans}
use optilog_artifacts.Types.{Block, ProposeMsg}
use optilog_artifacts.Chain.{Network, get}
use optilog_artifacts.Chain.Known.{Universe, IsHashed, IsFaithful, IsKnown, get-Answers}
use optilog_artifacts.Rules.Step.{
  Step, ◌>>=◌, guard, pure, modify, Holds, >>=-Holds, guard-Holds, pure-Holds, Moves, >>=-Moves,
}
use optilog_artifacts.Rules.Simple.{SimpleHotStuff, raise_lock, get_block, commit_rule, vote_rule}

-- `block` certifies p, p certifies gp and gp certifies ggp, two views below p.
pub record ViewChain (u : Universe) (block ggp : Block) : Type 0 where
  pub p : Block
  pub gp : Block
  pub certified_p : u block.cert.hash ≡ some p
  pub certified_gp : u p.cert.hash ≡ some gp
  pub certified_ggp : u gp.cert.hash ≡ some ggp
  pub views : p.view ≡ add_u64 ggp.view 2

pub record IsSound (u : Universe) (hs : SimpleHotStuff) : Type 0 where
  pub exists : u hs.locked.hash ≡ some hs.locked
  pub known : IsKnown u hs.chain

module _ (u : Universe) (fetch : Network) (hashed : IsHashed u)
    (faithful : IsFaithful u fetch) where
  get_block-Holds : (h : ℕ) → Holds (IsSound u) (λ b. u h ≡ some b) (get_block fetch h)
  unfolding get_block
  get_block-Holds h hs sound =
      let answers = get-Answers u fetch h hs.chain hashed faithful sound.known in
      record {
        keeps = record { exists = sound.exists; known = answers.known };
        gives = answers.found;
      }

  raise_lock-Holds :
      (b : Block) (h : ℕ) → u h ≡ some b → Holds (IsSound u) (λ _. Unit {0}) (modify (raise_lock b))
  unfolding raise_lock
  raise_lock-Holds b h found hs sound =
      let own : u b.hash ≡ some b = ap u (hashed h b found) ∙ found in
      record {
        keeps = elim (Bool-cases (ltb hs.locked.view b.view)) [
          | inl e ↦ rw (e, raise_lock) (record { exists = own; known = sound.known })
          | inr e ↦ rw (e, raise_lock) sound
        ];
        gives = λ _ _. tt;
      }

  view_chain :
      (block p gp ggp : Block)
      → u block.cert.hash ≡ some p
      → u p.cert.hash ≡ some gp
      → u gp.cert.hash ≡ some ggp
      → (add_u64 ggp.view 2 == p.view) ≡ true
      → ViewChain u block ggp
  view_chain block p gp ggp e1 e2 e3 t = record {
    p = p;
    gp = gp;
    certified_p = e1;
    certified_gp = e2;
    certified_ggp = e3;
    views = sym ((==_iff _ _).0 t);
  }

  -- From a replica that holds only existing blocks, CommitRule returns a block only at the end of
  -- three certifications from the given block, two views below the first of the three blocks; and
  -- the replica still holds only existing blocks.
  pub commit_rule-ViewChain :
      (block : Block) → Holds (IsSound u) (ViewChain u block) (commit_rule fetch block)
  unfolding commit_rule
  commit_rule-ViewChain block = >>=-Holds I _ C _ _ (get_block-Holds block.cert.hash) λ p e1.
      >>=-Holds I _ C _ _ (get_block-Holds p.cert.hash) λ gp e2.
        >>=-Holds I _ C _ _ (raise_lock-Holds gp p.cert.hash e2) λ _ _.
          >>=-Holds I _ C _ _ (get_block-Holds gp.cert.hash) λ ggp e3.
            >>=-Holds I _ C _ _ (guard-Holds I _)
              λ _ t. pure-Holds I C ggp (view_chain block p gp ggp e1 e2 e3 t)
    where
      I : SimpleHotStuff → Type 0
      I = IsSound u

      C : Block → Type 0
      C = ViewChain u block

  -- VoteRule accepts a proposal exactly when its view is not below the replica's, and the block
  -- that it certifies can be had and is not below the lock.
  pub vote_rule_iff :
      (view : ℕ) (proposal : ProposeMsg) (hs : SimpleHotStuff)
      → IsSound u hs
      → ((vote_rule fetch view proposal hs).0 ≡ true) ↔ (
          (view ≤ proposal.block.view)
          × ((p : Block) × ((get fetch proposal.block.cert.hash hs.chain).0 ≡ some p)
              × (hs.locked.view ≤ p.view)))
  unfolding vote_rule get_block
  vote_rule_iff view proposal hs sound =
      elim (Option-cases (get fetch proposal.block.cert.hash hs.chain).0) [
        | inl e ↦ (λ t. absurd (ground arith), λ r. absurd (ground arith))
        | inr (p, e) ↦ (λ t. (ground arith, (p, e, ground arith)), λ r. ground arith)
      ]

-- From a replica that holds only existing blocks, CommitRule of the simple rules returns a block
-- only if the given block certifies it over two others, and the nearest of the three is two views
-- above it.
pub simple_commit_rule-certified :
    (u : Universe) (fetch : Network) (block ggp : Block) (hs : SimpleHotStuff)
    → IsHashed u
    → IsFaithful u fetch
    → IsSound u hs
    → (commit_rule fetch block hs).0 ≡ some ggp
    → ViewChain u block ggp
simple_commit_rule-certified u fetch block ggp hs hashed faithful sound =
    (commit_rule-ViewChain u fetch hashed faithful block hs sound).gives ggp

abbrev pub LockRises : SimpleHotStuff → SimpleHotStuff → Type 0
LockRises hs hs' = hs.locked.view ≤ hs'.locked.view

get_block-LockRises : (fetch : Network) (h : ℕ) → Moves LockRises (get_block fetch h)
unfolding get_block
get_block-LockRises fetch h hs = ground arith

raise_lock-LockRises : (b : Block) → Moves LockRises (modify (raise_lock b))
unfolding raise_lock
raise_lock-LockRises b hs = ground arith

guard-LockRises : (b : Bool) → Moves LockRises (guard b)
guard-LockRises true hs = record { moved = omega arith }
guard-LockRises false hs = record { moved = omega arith }

bind-LockRises :
    {A B : Type 0} (m : Step SimpleHotStuff A) (f : A → Step SimpleHotStuff B)
    → Moves LockRises m
    → ((a : A) → Moves LockRises (f a))
    → Moves LockRises (m >>= f)
bind-LockRises = >>=-Moves LockRises (λ s t v p q. le_trans p q)

-- The end of CommitRule, once the lock is set.
pub tail-LockRises :
    (fetch : Network) (p gp : Block)
    → Moves LockRises (
        get_block fetch gp.cert.hash >>= λ ggp.
        guard (add_u64 ggp.view 2 == p.view) >>= λ _. pure ggp)
tail-LockRises fetch p gp = bind-LockRises _ _ (get_block-LockRises fetch gp.cert.hash) λ ggp.
    bind-LockRises (guard (add_u64 ggp.view 2 == p.view)) (λ _. pure ggp) (guard-LockRises _)
      λ _ hs. record { moved = le_refl _ }

-- The view of the lock never falls, whether CommitRule returns a block or gives up on the way.
pub simple_commit_rule-LockRises :
    (fetch : Network) (block : Block) → Moves LockRises (commit_rule fetch block)
unfolding commit_rule
simple_commit_rule-LockRises fetch block =
    bind-LockRises _ _ (get_block-LockRises fetch block.cert.hash) λ p.
      bind-LockRises _ _ (get_block-LockRises fetch p.cert.hash)
        λ gp. bind-LockRises _ _ (raise_lock-LockRises gp) λ _. tail-LockRises fetch p gp
