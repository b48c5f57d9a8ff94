-- ===== src/Tests/Chains.antt =====
-- The block chain and the rules on concrete data.
use optilog_artifacts.Prelude.{
  ℕ, ◌<◌, ◌≤◌, ◌≡◌, ◌⊎◌, ◌↔◌, refl, true, none, some, List, [], ◌∷◌, In,
}
use optilog_artifacts.Prelude.Dict.{lookup, insert, delete}
use optilog_artifacts.Types.{Block, ProposeMsg}
use optilog_artifacts.Chain.{
  Chain, get, extends, extends_from, local_get, store_all, store, prune_to_height, committed_views,
  prune_loop, next_view,
}
use optilog_artifacts.Chain.Pruning.{IsOnBranch, prune_to_height-total, prune_to_height-forked}
use optilog_artifacts.Chain.Known.{Answers, get-Answers}
use optilog_artifacts.Chain.Ancestry.{
  IsAncestor, extends_sound, extends_complete, IsHeld, last, via,
}
use optilog_artifacts.Rules.Chained as ChainedRules
use optilog_artifacts.Rules.Chained.{ChainedHotStuff}
use optilog_artifacts.Rules.Chained.Commit as ChainedCommit
use optilog_artifacts.Rules.Chained.Commit.{ThreeChain, commit_rule-certified, vote_rule_sound}
use optilog_artifacts.Rules.Simple as SimpleRules
use optilog_artifacts.Rules.Simple.{SimpleHotStuff}
use optilog_artifacts.Rules.Simple.Commit as SimpleCommit
use optilog_artifacts.Rules.Simple.Commit.{ViewChain, simple_commit_rule-certified}
use optilog_artifacts.Rules.Fast as FastRules
use optilog_artifacts.Rules.Fast.Commit.{TwoChain, fast_commit_rule-certified}
use optilog_artifacts.Tests.World.{
  world, world-IsHashed, world-Descends, network, network-IsFaithful, chain, chain-IsKnown,
  block_of, genesis, cert_of,
}

get-Answers_example : Answers world 12 (get network 12 chain)
get-Answers_example =
    get-Answers world network 12 chain world-IsHashed network-IsFaithful chain-IsKnown

extends_run : (extends network (block_of 4) (block_of 1) chain).0 ≡ some true
unfolding extends extends_from get lookup store_all store insert
extends_run = refl

extends_sound_example : IsAncestor world (block_of 1) (block_of 4)
extends_sound_example =
    extends_sound world network world-IsHashed network-IsFaithful (block_of 4) (block_of 1) chain
      chain-IsKnown extends_run

held : IsHeld chain (block_of 2) (block_of 4)
unfolding local_get lookup store_all store insert
held = via _ (block_of 3) refl (via _ (block_of 2) refl (last _ refl))

extends_complete_example : extends network (block_of 4) (block_of 2) chain ≡ (some true, chain)
extends_complete_example =
    extends_complete world world-Descends world-IsHashed (block_of 2) refl chain chain-IsKnown
      network (block_of 4) refl held

abbrev chained : ChainedHotStuff
chained = record { b_lock = genesis; chain = chain }

chained-IsSound : ChainedCommit.IsSound world chained
chained-IsSound = record { locked = refl; known = chain-IsKnown }

chained_run : (ChainedRules.commit_rule network (block_of 4) chained).0 ≡ some (block_of 1)
unfolding ChainedRules.commit_rule get lookup store_all store insert
chained_run = refl

commit_rule-certified_example : ThreeChain world (block_of 4) (block_of 1)
commit_rule-certified_example =
    commit_rule-certified world network (block_of 4) (block_of 1) chained world-IsHashed
      network-IsFaithful chained-IsSound chained_run

abbrev proposal : ProposeMsg
proposal = record { id = 1; block = block_of 4; aggregate_qc = none; complaints = [] }

chained_vote : (ChainedRules.vote_rule network proposal chained).0 ≡ some true
unfolding ChainedRules.vote_rule get lookup store_all store insert
chained_vote = refl

vote_rule_sound_example :
    ((q : Block) × (world 13 ≡ some q) × (0 < q.view)) ⊎ IsAncestor world genesis (block_of 4)
vote_rule_sound_example =
    vote_rule_sound world network proposal chained world-IsHashed network-IsFaithful chained-IsSound
      chained_vote

abbrev simple : SimpleHotStuff
simple = record { locked = genesis; chain = chain }

simple-IsSound : SimpleCommit.IsSound world simple
simple-IsSound = record { exists = refl; known = chain-IsKnown }

simple_run : (SimpleRules.commit_rule network (block_of 4) simple).0 ≡ some (block_of 1)
unfolding SimpleRules.commit_rule get lookup store_all store insert
simple_run = refl

fast_run : (FastRules.commit_rule network (block_of 4) chain).0 ≡ some (block_of 2)
unfolding FastRules.commit_rule get lookup store_all store insert
fast_run = refl

fast_commit_rule-certified_example : TwoChain world (block_of 4) (block_of 2)
fast_commit_rule-certified_example =
    fast_commit_rule-certified world network (block_of 4) (block_of 2) chain world-IsHashed
      network-IsFaithful chain-IsKnown fast_run

-- A block of view 1 that lost against `block_of 1`, and what a replica knows that holds it instead.
abbrev loser : Block
loser = record {
  hash = 21;
  parent = 10;
  proposer = 2;
  cmd = 6 ∷ [];
  cert = cert_of 0 10;
  view = 1;
  time = 0;
}

abbrev late : Block
late = record {
  hash = 30;
  parent = 10;
  proposer = 1;
  cmd = [];
  cert = cert_of 0 10;
  view = 2;
  time = 0;
}

abbrev forked_chain : Chain
forked_chain = record {
  prune_height = 0;
  blocks = (10, genesis) ∷ (21, loser) ∷ (30, late) ∷ [];
  block_at_height = (0, genesis) ∷ (1, loser) ∷ (2, late) ∷ [];
  pending_fetch = [];
  cancelled = [];
  fetches = 0;
}

abbrev pruned_chain : Chain
pruned_chain = record forked_chain { prune_height = 2; block_at_height = (0, genesis) ∷ [] }

pruned : prune_to_height late 2 forked_chain ≡ some (loser ∷ [], pruned_chain)
unfolding prune_to_height lookup delete committed_views prune_loop next_view
pruned = refl

prune_to_height-forked_example : In loser (loser ∷ []) ↔ (
    (v : ℕ) × (0 < v)
    × (v ≤ 2)
    × (lookup v forked_chain.block_at_height ≡ some loser)
    × (¬ IsOnBranch forked_chain 2 v))
prune_to_height-forked_example =
    prune_to_height-forked late 2 forked_chain pruned_chain (loser ∷ []) pruned loser

prune_to_height-total_example :
    (r : List Block × Chain) × (prune_to_height (block_of 2) 2 chain ≡ some r)
prune_to_height-total_example =
    prune_to_height-total world (block_of 2) 2 chain world-Descends chain-IsKnown
