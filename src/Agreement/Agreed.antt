-- ===== src/Agreement/Agreed.antt =====
-- Replicas that run overhead/consensus/consensus.go with the simple rules agree on what they commit.
use optilog_artifacts.Prelude.{ℕ, ◌≡◌, subst, true, false, some, List, ◌⊎◌}
use optilog_artifacts.Types.{Block, QuorumCert, SyncInfo, new_sync_info, with_qc}
use optilog_artifacts.Types.IdSet.{IdSet, contains}
use optilog_artifacts.Chain.{Chain}
use optilog_artifacts.Chain.Known.{Universe, IsHashed, IsFaithful, IsKnown}
use optilog_artifacts.Chain.Kept.{Supplies}
use optilog_artifacts.Crypto.{verify_quorum_cert}
use optilog_artifacts.Crypto.Certificates.{verify_quorum_cert_sound}
use optilog_artifacts.Rules.Simple.{SimpleHotStuff, commit_rule}
use optilog_artifacts.Rules.Simple.Commit.{IsSound, ViewChain, simple_commit_rule-certified}
use optilog_artifacts.Consensus.{Acceptor, Config}
use optilog_artifacts.Consensus.Lead.{Call, run}
use optilog_artifacts.Agreement.{simple_rules, Replica, votes_of}
use optilog_artifacts.Agreement.History.{Scheme, scheme_of, IsAccepted, IsVoter}
use optilog_artifacts.Agreement.Checks.{Verified-IsAccepted}
use optilog_artifacts.Agreement.Ballot.{Advanced}
use optilog_artifacts.Agreement.Runs.{AreFit, run-IsVoter}
use optilog_artifacts.Agreement.Contract.{IsVoting, line-IsVoting}
use optilog_artifacts.Agreement.System.{IsOrigin, IsGenuine, RestsOn}
use optilog_artifacts.Agreement.Safety.{commits-RestsOn}

-- A replica with the given ID that has cast these votes by running the code: its modules, its
-- history of calls, and what is asked of them.
pub record Honest (u : Universe) (scheme : Scheme) (id : ℕ) (votes : List Block) : Type 1 where
  pub config : Config
  pub acceptor : Acceptor
  pub Sync : Type 0
  pub view_of : Sync → ℕ
  pub advance : SyncInfo → Replica config.fetch acceptor Sync → Replica config.fetch acceptor Sync
  pub calls : List (Call (simple_rules config.fetch) acceptor Sync config view_of advance)
  pub initial : Replica config.fetch acceptor Sync
  pub same_scheme : scheme_of config ≡ scheme
  pub same_id : config.id ≡ id
  pub cast :
      votes_of
        (run (simple_rules config.fetch) acceptor Sync config view_of advance calls initial).out
      ≡ votes
  pub faithful : IsFaithful u config.fetch
  pub supplies : Supplies u config.fetch
  pub steady :
      (qc : QuorumCert) (p : Block) (cs : Replica config.fetch acceptor Sync)
      → u qc.hash ≡ some p
      → IsVoter u config cs
      → Advanced u config p cs (advance (with_qc new_sync_info qc) cs)
  pub fit : AreFit u config acceptor Sync view_of advance calls initial
  pub voter : IsVoter u config initial

-- A replica that runs OnPropose, Propose and StopVoting with the simple rules keeps the contract
-- of a voter: its votes are above view 0, for blocks whose certificates are accepted, at most one
-- in a view, above the certified block where the replica has signed that, and never for a block
-- whose certified block is below what an earlier vote locked, two certifications down; under what
-- is asked of its network, its proposals and AdvanceView.
pub Honest-IsVoting :
    (u : Universe) (scheme : Scheme) (id : ℕ) (votes : List Block)
    → IsHashed u
    → Honest u scheme id votes
    → IsVoting u scheme id votes
Honest-IsVoting u scheme id votes hashed h =
    let w =
      run-IsVoter u h.config h.acceptor h.Sync h.view_of h.advance hashed h.faithful h.supplies
        h.steady h.calls h.initial h.fit h.voter in
    let v = line-IsVoting u h.config _ _ w.history.0 in
    subst (λ s. IsVoting u s id votes) h.same_scheme
      (subst (λ i. IsVoting u (scheme_of h.config) i votes) h.same_id
        (subst (λ vs. IsVoting u (scheme_of h.config) h.config.id vs) h.cast v))

-- A replica, in any state in which it holds only existing blocks, whose VerifyQuorumCert accepts the
-- certificate of `block` and whose CommitRule returns `c` for it.
pub record Commits (u : Universe) (scheme : Scheme) (block c : Block) : Type 0 where
  pub config : Config
  pub same_scheme : scheme_of config ≡ scheme
  pub faithful : IsFaithful u config.fetch
  pub chain : Chain
  pub known : IsKnown u chain
  pub accepted :
      (verify_quorum_cert config.base config.genesis config.quorum config.fetch block.cert chain).0
      ≡ some true
  pub rules : SimpleHotStuff
  pub sound : IsSound u rules
  pub returns : (commit_rule config.fetch block rules).0 ≡ some c

Commits-IsAccepted :
    (u : Universe) (scheme : Scheme) (block c : Block)
    → IsHashed u
    → Commits u scheme block c
    → (p : Block) × IsAccepted u scheme block.cert p × ViewChain u block c
Commits-IsAccepted u scheme block c hashed m =
    let chain =
      simple_commit_rule-certified u m.config.fetch block c m.rules hashed m.faithful m.sound
        m.returns in
    let verified =
      verify_quorum_cert_sound m.config.base m.config.genesis m.config.quorum u m.config.fetch
        block.cert m.chain hashed m.faithful m.known m.accepted in
    (
      chain.p,
      subst (λ s. IsAccepted u s block.cert chain.p) m.same_scheme
          (Verified-IsAccepted u m.config block.cert chain.p chain.certified_p verified),
      chain,
    )

-- Two blocks that CommitRule of the simple rules returns at replicas that hold only existing
-- blocks, for proposals whose certificates VerifyQuorumCert accepts, are on one branch of
-- certified blocks: one rests on the other by certificates. Each replica that is not faulty has
-- come to its votes by running the code, from a state that satisfies the invariant of votes, on
-- proposals of existing blocks whose certificates name it only for blocks that it has voted for,
-- with a network that supplies every existing block; its AdvanceView keeps that invariant, forgets
-- no vote, lowers no lock and votes over nothing that is locked above the block of the certificate
-- it is called with; no more replicas are faulty than NumFaulty allows; a valid signature names
-- each participant once, only replicas, and of those that are not faulty only ones that have voted
-- for the block; the genesis block is at view 0 and certifies no block.
pub simple_agreement :
    (u : Universe) (scheme : Scheme) (origin : Block) (ids faulty : IdSet) (votes : ℕ → List Block)
    (block block' c c' : Block)
    → IsHashed u
    → IsOrigin u scheme origin
    → IsGenuine u scheme ids faulty votes
    → ((i : ℕ) → contains i ids ≡ true → contains i faulty ≡ false → Honest u scheme i (votes i))
    → Commits u scheme block c
    → Commits u scheme block' c'
    → RestsOn u c c' ⊎ RestsOn u c' c
simple_agreement u scheme origin ids faulty votes block block' c c' hashed start genuine honest m
      m' =
    let (p, a, chain) = Commits-IsAccepted u scheme block c hashed m in
    let (p', a', chain') = Commits-IsAccepted u scheme block' c' hashed m' in
    commits-RestsOn
      (record {
        start = start;
        genuine = genuine;
        honest =
            λ i within good. Honest-IsVoting u scheme i (votes i) hashed (honest i within good);
      })
      block block' c c' p p' a a' chain chain'
