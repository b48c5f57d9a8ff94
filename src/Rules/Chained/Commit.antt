-- ===== src/Rules/Chained/Commit.antt =====
-- What the chained rules commit, lock and vote for.
use optilog_artifacts.Prelude.{
  ℕ, ◌≤◌, ◌<◌, ◌≡◌, ap, ◌∙◌, Bool, true, false, ◌&&◌, some, ◌==◌, ltb, arith, ◌⊎◌, inl, inr,
  Bool-cases, Option-cases,
}
use native.Mathlib.Nat.{le_refl, le_trans}
use optilog_artifacts.Types.{Block, QuorumCert, ProposeMsg}
use optilog_artifacts.Chain.{Network, get, extends}
use optilog_artifacts.Chain.Known.{Universe, IsHashed, IsFaithful, IsKnown, Answers, get-Answers}
use optilog_artifacts.Chain.Ancestry.{IsAncestor, extends_sound}
use optilog_artifacts.Rules.Step.{
  Step, ◌>>=◌, guard, pure, modify, Holds, >>=-Holds, guard-Holds, pure-Holds, Moves, >>=-Moves,
}
use optilog_artifacts.Rules.Chained.{
  ChainedHotStuff, raise_lock, get_block, qc_ref, commit_rule, extends_lock, vote_rule,
}

-- `block` certifies a chain of three blocks, each the parent and the certified block of the next.
pub record ThreeChain (u : Universe) (block block3 : Block) : Type 0 where
  pub block1 : Block
  pub block2 : Block
  pub certified1 : u block.cert.hash ≡ some block1
  pub certified2 : u block1.cert.hash ≡ some block2
  pub certified3 : u block2.cert.hash ≡ some block3
  pub parent1 : block1.parent ≡ block2.hash
  pub parent2 : block2.parent ≡ block3.hash

-- The locked block exists, and so does every block of the chain.
pub record IsSound (u : Universe) (hs : ChainedHotStuff) : Type 0 where
  pub locked : u hs.b_lock.hash ≡ some hs.b_lock
  pub known : IsKnown u hs.chain

module _ (u : Universe) (fetch : Network) (hashed : IsHashed u)
    (faithful : IsFaithful u fetch) where
  get_block-Holds : (h : ℕ) → Holds (IsSound u) (λ b. u h ≡ some b) (get_block fetch h)
  unfolding get_block
  get_block-Holds h hs sound =
      let answers = get-Answers u fetch h hs.chain hashed faithful sound.known in
      record {
        keeps = record { locked = sound.locked; known = answers.known };
        gives = answers.found;
      }

  qc_ref-Holds : (qc : QuorumCert) → Holds (IsSound u) (λ b. u qc.hash ≡ some b) (qc_ref fetch qc)
  unfolding qc_ref
  qc_ref-Holds qc =
      >>=-Holds (IsSound u) _ _ _ _ (guard-Holds (IsSound u) _) (λ _ _. get_block-Holds qc.hash)

  raise_lock-Holds :
      (b : Block) (h : ℕ) → u h ≡ some b → Holds (IsSound u) (λ _. Unit {0}) (modify (raise_lock b))
  unfolding raise_lock
  raise_lock-Holds b h exists hs sound =
      let own : u b.hash ≡ some b = ap u (hashed h b exists) ∙ exists in
      record {
        keeps = elim (Bool-cases (ltb hs.b_lock.view b.view)) [
          | inl e ↦ rw (e, raise_lock) (record { locked = own; known = sound.known })
          | inr e ↦ rw (e, raise_lock) sound
        ];
        gives = λ _ _. tt;
      }

  three_chain :
      (block b1 b2 b3 : Block)
      → u block.cert.hash ≡ some b1
      → u b1.cert.hash ≡ some b2
      → u b2.cert.hash ≡ some b3
      → ((b1.parent == b2.hash) && (b2.parent == b3.hash)) ≡ true
      → ThreeChain u block b3
  three_chain block b1 b2 b3 e1 e2 e3 t = record {
    block1 = b1;
    block2 = b2;
    certified1 = e1;
    certified2 = e2;
    certified3 = e3;
    parent1 = ground arith;
    parent2 = ground arith;
  }

  -- From a replica that holds only existing blocks, CommitRule returns a block only at the end of
  -- three certified blocks, each the parent of the next, that the given block certifies; and the
  -- replica still holds only existing blocks.
  pub commit_rule-ThreeChain :
      (block : Block) → Holds (IsSound u) (ThreeChain u block) (commit_rule fetch block)
  unfolding commit_rule
  commit_rule-ThreeChain block = >>=-Holds I _ C _ _ (qc_ref-Holds block.cert) λ b1 e1.
      >>=-Holds I _ C _ _ (qc_ref-Holds b1.cert) λ b2 e2.
        >>=-Holds I _ C _ _ (raise_lock-Holds b2 b1.cert.hash e2) λ _ _.
          >>=-Holds I _ C _ _ (qc_ref-Holds b2.cert) λ b3 e3.
            >>=-Holds I _ C _ _ (guard-Holds I _)
              λ _ t. pure-Holds I C b3 (three_chain block b1 b2 b3 e1 e2 e3 t)
    where
      I : ChainedHotStuff → Type 0
      I = IsSound u

      C : Block → Type 0
      C = ThreeChain u block

-- From a replica that holds only existing blocks, CommitRule of the chained rules returns a block
-- only at the end of three certified blocks, each the parent of the next, that the given block
-- certifies.
pub commit_rule-certified :
    (u : Universe) (fetch : Network) (block block3 : Block) (hs : ChainedHotStuff)
    → IsHashed u
    → IsFaithful u fetch
    → IsSound u hs
    → (commit_rule fetch block hs).0 ≡ some block3
    → ThreeChain u block block3
commit_rule-certified u fetch block block3 hs hashed faithful sound =
    (commit_rule-ThreeChain u fetch hashed faithful block hs sound).gives block3

abbrev pub LockRises : ChainedHotStuff → ChainedHotStuff → Type 0
LockRises hs hs' = hs.b_lock.view ≤ hs'.b_lock.view

qc_ref-LockRises : (fetch : Network) (qc : QuorumCert) → Moves LockRises (qc_ref fetch qc)
unfolding qc_ref get_block
qc_ref-LockRises fetch qc hs = ground arith

raise_lock-LockRises : (b : Block) → Moves LockRises (modify (raise_lock b))
unfolding raise_lock
raise_lock-LockRises b hs = ground arith

guard-LockRises : (b : Bool) → Moves LockRises (guard b)
guard-LockRises true hs = record { moved = omega arith }
guard-LockRises false hs = record { moved = omega arith }

-- The view of the lock never falls, whether CommitRule returns a block or gives up on the way.
pub commit_rule-LockRises :
    (fetch : Network) (block : Block) → Moves LockRises (commit_rule fetch block)
unfolding commit_rule
commit_rule-LockRises fetch block = M _ _ (qc_ref-LockRises fetch block.cert) λ b1.
    M _ _ (qc_ref-LockRises fetch b1.cert) λ b2. M _ _ (raise_lock-LockRises b2) λ _.
      M _ _ (qc_ref-LockRises fetch b2.cert) λ b3.
        M (guard ((b1.parent == b2.hash) && (b2.parent == b3.hash))) (λ _. pure b3)
          (guard-LockRises _) λ _ hs. record { moved = le_refl _ }
  where
    M :
        {A B : Type 0} (m : Step ChainedHotStuff A) (f : A → Step ChainedHotStuff B)
        → Moves LockRises m
        → ((a : A) → Moves LockRises (f a))
        → Moves LockRises (m >>= f)
    M = >>=-Moves LockRises (λ s t v p q. le_trans p q)

-- VoteRule of the chained rules accepts a proposal only if the block that it certifies is above
-- the lock, or it extends the lock, from a replica that holds only existing blocks.
pub vote_rule_sound :
    (u : Universe) (fetch : Network) (proposal : ProposeMsg) (hs : ChainedHotStuff)
    → IsHashed u
    → IsFaithful u fetch
    → IsSound u hs
    → (vote_rule fetch proposal hs).0 ≡ some true
    → ((q : Block) × (u proposal.block.cert.hash ≡ some q) × (hs.b_lock.view < q.view))
      ⊎ IsAncestor u hs.b_lock proposal.block
unfolding vote_rule get_block extends_lock
vote_rule_sound u fetch proposal hs hashed faithful sound e =
    elim (Option-cases (get fetch proposal.block.cert.hash hs.chain).0) [
      | inl q ↦ inr (extended (ground arith))
      | inr (b, q) ↦ elim (Bool-cases (ltb hs.b_lock.view b.view)) [
        | inl above ↦ inl (b, answers.found b q, ground arith)
        | inr below ↦ inr (extended (ground arith))
      ]
    ]
  where
    answers : Answers u proposal.block.cert.hash (get fetch proposal.block.cert.hash hs.chain)
    answers = get-Answers u fetch proposal.block.cert.hash hs.chain hashed faithful sound.known

    extended :
        (extends fetch proposal.block hs.b_lock (get fetch proposal.block.cert.hash hs.chain).1).0
          ≡ some true
        → IsAncestor u hs.b_lock proposal.block
    extended = extends_sound u fetch hashed faithful proposal.block hs.b_lock _ answers.known

pub vote_rule-lock :
    (fetch : Network) (proposal : ProposeMsg) (hs : ChainedHotStuff)
    → (vote_rule fetch proposal hs).1.b_lock ≡ hs.b_lock
unfolding vote_rule get_block extends_lock
vote_rule-lock fetch proposal hs = ground arith
