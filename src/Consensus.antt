-- ===== src/Consensus.antt =====
-- overhead/consensus/consensus.go: the part of the protocol that all rule sets share. This file has
-- the state, the modules that it calls, and the calls that leave the replica.
pub mod Commit
pub mod Propose
pub mod Rounds
pub mod Quiet
pub mod Handlers
pub mod Voting
pub mod Lead
pub mod History
pub mod Execution
use optilog_artifacts.Prelude.{
  ℕ, Bool, true, false, Option, none, some, List, [], ◌∷◌, ltb, if◌then◌else◌,
}
use optilog_artifacts.Types.{Block, PartialCert, ProposeMsg, SyncInfo, Complaint}
use optilog_artifacts.Chain.{Chain, Network, get, store}
use optilog_artifacts.Crypto.{CryptoBase}
use optilog_artifacts.Rules.Step.{Step}

-- The interfaces Rules and ProposeRuler. The rules hold the chain, which the other modules share.
-- VoteRule has the synchronizer's view as an argument, and no answer where a loop has no end.
pub record Rules : Type 1 where
  pub State : Type 0
  pub chain : State → Chain
  pub set_chain : Chain → State → State
  pub vote_rule : ℕ → ProposeMsg → State → Option Bool × State
  pub commit_rule : Block → State → Option Block × State
  pub propose_rule : Option (SyncInfo → List ℕ → State → Option ProposeMsg)

-- The interface modules.Acceptor, which the command cache implements.
pub record Acceptor : Type 1 where
  pub State : Type 0
  pub accept : List ℕ → State → Bool
  pub proposed : List ℕ → State → State

-- What a replica is configured with, and what the modules that are not followed here answer.
pub record Config : Type 0 where
  pub fetch : Network
  pub base : CryptoBase
  pub genesis : ℕ
  pub quorum : ℕ → ℕ
  pub sha256 : List ℕ → ℕ
  pub id : ℕ
  pub use_agg_qc : Bool
  pub has_ranking : Bool
  pub has_handel : Bool
  pub leader : ℕ → ℕ
  pub has_replica : ℕ → Bool
  pub now : ℕ

-- The calls of other modules whose effect is not followed, `signed` for the signature that
-- CreatePartialCert makes of a block. `stuck` is a loop without end and `panic` a nil call.
pub data Effect : Type 0 where
  exec fork signed : Block → Effect
  commit_complaints : List Complaint → Effect
  check_latency_vector : List ℕ → ℕ → Effect
  update_latency : ℕ → List ℕ → Effect
  broadcast : ProposeMsg → Effect
  vote_event begin_handel : PartialCert → Effect
  send_vote : ℕ → PartialCert → Effect
  stuck panic : Effect

-- The effects stand newest first. `sync` is the state of the synchronizer, of any type.
pub record ConsensusBase (R : Rules) (A : Acceptor) (Sync : Type 0) : Type 0 where
  pub rules : R.State
  pub acceptor : A.State
  pub sync : Sync
  pub last_vote : ℕ
  pub b_exec : Block
  pub out : List Effect

module _ {R : Rules} {A : Acceptor} {Sync : Type 0} where
  abbrev pub emit : Effect → ConsensusBase R A Sync → ConsensusBase R A Sync
  emit e cs = record cs { out = e ∷ cs.out }

  unfoldable pub committed_block : ConsensusBase R A Sync → Block
  committed_block cs = cs.b_exec

  -- StopVoting: no vote in a view up to `view`.
  unfoldable pub stop_voting : ℕ → ConsensusBase R A Sync → ConsensusBase R A Sync
  stop_voting view cs = if ltb cs.last_vote view then record cs { last_vote = view } else cs

  unfoldable pub chain_of : ConsensusBase R A Sync → Chain
  chain_of cs = R.chain cs.rules

  unfoldable pub put_chain : Chain → ConsensusBase R A Sync → ConsensusBase R A Sync
  put_chain c cs = record cs { rules = R.set_chain c cs.rules }

  unfoldable pub get_block :
      Network → ℕ → ConsensusBase R A Sync → Option Block × ConsensusBase R A Sync
  unfolding chain_of put_chain
  get_block fetch h cs = let (b, c) = get fetch h (chain_of cs) in (b, put_chain c cs)

  unfoldable pub store_block : Block → ConsensusBase R A Sync → ConsensusBase R A Sync
  unfolding chain_of put_chain
  store_block b cs = put_chain (store b (chain_of cs)) cs
