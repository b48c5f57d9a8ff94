-- ===== src/Agreement.antt =====
-- A replica of overhead/consensus/consensus.go with the rules of
-- overhead/consensus/simplehotstuff/simplehotstuff.go, and what it has voted for.
pub mod History
pub mod Quiet
pub mod Checks
pub mod Ballot
pub mod Proposal
pub mod Runs
pub mod Contract
pub mod Quorums
pub mod System
pub mod Safety
pub mod Agreed
use optilog_artifacts.Prelude.{ℕ, Bool, Option, none, some, List, [], ◌∷◌}
use optilog_artifacts.Types.{Block, ProposeMsg}
use optilog_artifacts.Chain.{Network}
use optilog_artifacts.Rules.Simple.{SimpleHotStuff, vote_rule, commit_rule}
use optilog_artifacts.Consensus.{Rules, Acceptor, ConsensusBase, Effect, signed}

abbrev pub answered : Bool × SimpleHotStuff → Option Bool × SimpleHotStuff
answered (b, hs) = (some b, hs)

-- The rule set as the interface that consensus calls. It has no ProposeRule.
abbrev pub simple_rules : Network → Rules
simple_rules fetch = record {
  State = SimpleHotStuff;
  chain = λ hs. hs.chain;
  set_chain = λ c hs. record hs { chain = c };
  vote_rule = λ view proposal hs. answered (vote_rule fetch view proposal hs);
  commit_rule = λ block hs. commit_rule fetch block hs;
  propose_rule = none;
}

-- The signed blocks, the newest first.
abbrev pub votes_of : List Effect → List Block
votes_of [] = []
votes_of (signed b ∷ es) = b ∷ votes_of es
votes_of (_ ∷ es) = votes_of es

abbrev pub Replica : Network → Acceptor → Type 0 → Type 0
Replica fetch A Sync = ConsensusBase (simple_rules fetch) A Sync
