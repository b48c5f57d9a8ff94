-- ===== src/Tests/Protocol.antt =====
-- A replica with the rules of Fast-HotStuff on concrete data.
use optilog_artifacts.Prelude.{ℕ, ◌≤◌, ◌≡◌, ◌⊎◌, refl, true, none, List, [], ◌∷◌}
use optilog_artifacts.Rules.Fast as FastRules
use optilog_artifacts.Consensus.{Rules, Acceptor, ConsensusBase, chain_of}
use optilog_artifacts.Consensus.Commit.{done, failed, commit_inner}
use optilog_artifacts.Consensus.Execution.{IsExecuted, commit_inner-rises}
use optilog_artifacts.Consensus.Quiet.{IsOrdered}
use optilog_artifacts.Consensus.Lead.{Call, receives, stops, run}
use optilog_artifacts.Consensus.History.{run-IsOrdered}
use optilog_artifacts.Chain.{Chain}
use optilog_artifacts.Tests.World.{
  world, world-IsHashed, world-Descends, network, network-IsFaithful, chain, chain-IsKnown,
  block_of, genesis, config,
}

abbrev rules : Rules
rules = record {
  State = Chain;
  chain = λ c. c;
  set_chain = λ c s. c;
  vote_rule = λ view m s. FastRules.vote_rule network view m s;
  commit_rule = λ b s. FastRules.commit_rule network b s;
  propose_rule = none;
}

abbrev acceptor : Acceptor
acceptor = record { State = Unit {0}; accept = λ bytes s. true; proposed = λ bytes s. s }

abbrev replica : ConsensusBase rules acceptor ℕ
replica = record {
  rules = chain;
  acceptor = tt;
  sync = 3;
  last_vote = 0;
  b_exec = genesis;
  out = [];
}

replica-IsExecuted :
    IsExecuted world network world-IsHashed network-IsFaithful world-Descends (λ c s. refl) replica
unfolding chain_of
replica-IsExecuted = record { order = tt; known = chain-IsKnown }

commit_inner-rises_example :
    let r = commit_inner network 4 (block_of 3) replica in
    IsExecuted world network world-IsHashed network-IsFaithful world-Descends (λ c s. refl) r.1
    × ((r.0 ≡ failed) ⊎ ((r.0 ≡ done) × (3 ≤ r.1.b_exec.view)))
commit_inner-rises_example =
    commit_inner-rises world network world-IsHashed network-IsFaithful world-Descends (λ c s. refl)
      (block_of 3) replica refl replica-IsExecuted

abbrev calls : List (Call rules acceptor ℕ config (λ v. v) (λ si cs. cs))
calls =
    receives (record { id = 1; block = block_of 3; aggregate_qc = none; complaints = [] })
    ∷ stops 5
    ∷ receives (record { id = 1; block = block_of 4; aggregate_qc = none; complaints = [] })
    ∷ []

run-IsOrdered_example : IsOrdered (run rules acceptor ℕ config (λ v. v) (λ si cs. cs) calls replica)
run-IsOrdered_example =
    run-IsOrdered rules acceptor ℕ config (λ v. v) (λ si cs. cs) (λ si cs o. o) calls replica
      (record { ordered = tt })
