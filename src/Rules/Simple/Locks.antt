-- ===== src/Rules/Simple/Locks.antt =====
-- The lock of overhead/consensus/simplehotstuff/simplehotstuff.go against the blocks that exist.
use optilog_artifacts.Prelude.{ℕ, ◌≤◌, ◌≡◌, refl, ap, true, some, ltb, Bool-cases, inl, inr, arith}
use optilog_artifacts.Types.{Block, ProposeMsg}
use optilog_artifacts.Chain.{Network, get}
use optilog_artifacts.Chain.Known.{Universe, IsHashed, IsFaithful, get-Answers}
use optilog_artifacts.Chain.Kept.{Supplies, get-supplied}
use optilog_artifacts.Rules.Simple.{SimpleHotStuff, raise_lock, get_block, commit_rule, vote_rule}
use optilog_artifacts.Rules.Simple.Commit.{IsSound, vote_rule_iff, tail-LockRises}

-- A reply of VoteRule: an accepted proposal is for an existing block not below the lock.
pub record Vetted (u : Universe) (proposal : ProposeMsg) (hs hs' : SimpleHotStuff) : Type 0 where
  pub sound : IsSound u hs'
  pub same_lock : hs'.locked ≡ hs.locked

module _ (u : Universe) (fetch : Network) (hashed : IsHashed u)
    (faithful : IsFaithful u fetch) where
  pub vote_rule-Vetted :
      (view : ℕ) (proposal : ProposeMsg) (hs : SimpleHotStuff)
      → IsSound u hs
      → Vetted u proposal hs (vote_rule fetch view proposal hs).1
  unfolding vote_rule get_block
  vote_rule-Vetted view proposal hs sound = elim (Bool-cases (ltb proposal.block.view view)) [
    | inl e ↦ rw e (record { sound = sound; same_lock = refl })
    | inr e ↦ rw e (record {
      sound = record {
        exists = sound.exists;
        known =
            (get-Answers u fetch proposal.block.cert.hash hs.chain hashed faithful
              sound.known).known;
      };
      same_lock = refl;
    })
  ]

  pub vote_rule-accepted :
      (view : ℕ) (proposal : ProposeMsg) (hs : SimpleHotStuff)
      → IsSound u hs
      → (vote_rule fetch view proposal hs).0 ≡ true
      → (p : Block) × (u proposal.block.cert.hash ≡ some p) × (hs.locked.view ≤ p.view)
  vote_rule-accepted view proposal hs sound e =
      let (_, (p, q, lock)) = (vote_rule_iff u fetch hashed faithful view proposal hs sound).0 e in
      let answers =
        get-Answers u fetch proposal.block.cert.hash hs.chain hashed faithful sound.known in
      (p, answers.found p q, lock)

  raised : (gp : Block) (hs : SimpleHotStuff) → gp.view ≤ (raise_lock gp hs).locked.view
  unfolding raise_lock
  raised gp hs = ground arith

  get_block-found :
      (h : ℕ) (b : Block) (hs : SimpleHotStuff)
      → Supplies u fetch
      → IsSound u hs
      → u h ≡ some b
      → (get_block fetch h hs ≡ (some b, (get_block fetch h hs).1))
        × IsSound u (get_block fetch h hs).1
  unfolding get_block
  get_block-found h b hs supplies sound e =
      let answers = get-Answers u fetch h hs.chain hashed faithful sound.known in
      (
        ap (λ o. (o, record hs { chain = (get fetch h hs.chain).1 }))
            (get-supplied u fetch h b hs.chain supplies sound.known e),
        record { exists = sound.exists; known = answers.known },
      )

  -- After CommitRule the lock is at least at the block two certifications below, where the network
  -- supplies the blocks.
  pub commit_rule-locks :
      (block p gp : Block) (hs : SimpleHotStuff)
      → Supplies u fetch
      → IsSound u hs
      → u block.cert.hash ≡ some p
      → u p.cert.hash ≡ some gp
      → gp.view ≤ (commit_rule fetch block hs).1.locked.view
  unfolding commit_rule
  commit_rule-locks block p gp hs supplies sound e1 e2 =
      let (f1, s1) = get_block-found block.cert.hash p hs supplies sound e1 in
      let hs1 = (get_block fetch block.cert.hash hs).1 in
      let (f2, s2) = get_block-found p.cert.hash gp hs1 supplies s1 e2 in
      let hs2 = (get_block fetch p.cert.hash hs1).1 in
      rw (f1, f2)
        (omega (arith, raised gp hs2, (tail-LockRises fetch p gp (raise_lock gp hs2)).moved))
