-- ===== src/Agreement/History.antt =====
-- What the votes of a replica of overhead/consensus/consensus.go under the simple rules have in
-- common, in the order in which they were cast.
use optilog_artifacts.Prelude.{
  ℕ, suc, ◌≤◌, ◌<◌, ◌≡◌, Bool, true, some, List, [], ◌∷◌, length, arith, ◌⊎◌, In, All,
}
use optilog_artifacts.Types.{Block, QuorumCert, QuorumSignature, block_bytes}
use optilog_artifacts.Types.IdSet.{contains}
use optilog_artifacts.Chain.Known.{Universe}
use optilog_artifacts.Rules.Simple.Commit.{IsSound}
use optilog_artifacts.Consensus.{Acceptor, Config}
use optilog_artifacts.Agreement.{Replica, votes_of}

-- What the replicas have in common: the hash of the genesis block, the size of a quorum, and the
-- test of signatures.
pub record Scheme : Type 0 where
  pub genesis : ℕ
  pub quorum : ℕ → ℕ
  pub verify : QuorumSignature → List ℕ → Bool

abbrev pub scheme_of : Config → Scheme
scheme_of config = record {
  genesis = config.genesis;
  quorum = config.quorum;
  verify = config.base.verify;
}

-- What VerifyQuorumCert accepts as a certificate for the existing block p.
pub record IsAccepted (u : Universe) (scheme : Scheme) (qc : QuorumCert) (p : Block) : Type 0 where
  pub found : u qc.hash ≡ some p
  pub signed_by :
      (qc.hash ≡ scheme.genesis)
      ⊎ ((sig : QuorumSignature) × (qc.signature ≡ some sig)
          × (scheme.quorum qc.view ≤ length sig.participants)
          × (scheme.verify sig (block_bytes p) ≡ true))

module _ (u : Universe) (config : Config) where
  -- A valid signature of this replica in the certificate is for a block that it has voted for.
  abbrev pub IsOwn : List Block → QuorumCert → Type 0
  IsOwn voted qc =
      (sig : QuorumSignature) (p : Block)
      → qc.signature ≡ some sig
      → u qc.hash ≡ some p
      → config.base.verify sig (block_bytes p) ≡ true
      → contains config.id sig.participants ≡ true
      → In p voted

  -- A vote for b after the votes `earlier`.
  pub record Support (b : Block) (earlier : List Block) : Type 0 where
    pub p : Block
    pub positive : 0 < b.view
    pub accepted : IsAccepted u (scheme_of config) b.cert p
    pub own : IsOwn earlier b.cert

  -- What was locked for these votes, two certifications below each, is not above view l.
  abbrev pub LocksBelow : ℕ → List Block → Type 0
  LocksBelow l = All (λ (b : Block).
      (p gp : Block) → u b.cert.hash ≡ some p → u p.cert.hash ≡ some gp → gp.view ≤ l)

  -- The views of the votes fall from below n on, and each vote is for a block whose certified block
  -- is not below what the earlier votes locked.
  abbrev pub IsLine : ℕ → List Block → Type 0
  IsLine n [] = Unit {0}
  IsLine n (b ∷ bs) =
      (b.view < n) × ((s : Support b bs) × LocksBelow s.p.view bs × IsLine b.view bs)

  abbrev pub IsHistory : ℕ → ℕ → List Block → Type 0
  IsHistory n l bs = IsLine n bs × LocksBelow l bs

  LocksBelow-mono : (k l : ℕ) (bs : List Block) → k ≤ l → LocksBelow k bs → LocksBelow l bs
  LocksBelow-mono k l [] i t = tt
  LocksBelow-mono k l (b ∷ bs) i (h, rest) =
      (λ p gp e f. omega (arith, h p gp e f), LocksBelow-mono k l bs i rest)

  IsLine-mono : (m n : ℕ) (bs : List Block) → m ≤ n → IsLine m bs → IsLine n bs
  IsLine-mono m n [] h t = tt
  IsLine-mono m n (b ∷ bs) h (below, rest) = (omega arith, rest)

  pub IsHistory-mono :
      (m n k l : ℕ) (bs : List Block) → m ≤ n → k ≤ l → IsHistory m k bs → IsHistory n l bs
  IsHistory-mono m n k l bs h i (line, locks) =
      (IsLine-mono m n bs h line, LocksBelow-mono k l bs i locks)

  module _ {A : Acceptor} {Sync : Type 0} where
    -- The replica has voted for V, the last time in view n, and its lock is at least at view l.
    pub record Stays (V : List Block) (n l : ℕ) (cs : Replica config.fetch A Sync) : Type 0 where
      pub last : cs.last_vote ≡ n
      pub votes : votes_of cs.out ≡ V
      pub lock : l ≤ (cs.rules).locked.view
      pub sound : IsSound u cs.rules

    -- The invariant of a replica.
    pub record IsVoter (cs : Replica config.fetch A Sync) : Type 0 where
      pub sound : IsSound u cs.rules
      pub history : IsHistory (suc cs.last_vote) (cs.rules).locked.view (votes_of cs.out)

    pub Stays-IsVoter :
        (V : List Block) (n l : ℕ) (cs : Replica config.fetch A Sync)
        → IsHistory (suc n) l V
        → Stays V n l cs
        → IsVoter cs
    Stays-IsVoter V n l cs h s = record {
      sound = s.sound;
      history =
          rw (s.last, s.votes)
            (IsHistory-mono (suc n) (suc n) l (cs.rules).locked.view V (omega arith) s.lock h);
    }
