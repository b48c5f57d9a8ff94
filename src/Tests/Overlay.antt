-- ===== src/Tests/Overlay.antt =====
-- The aggregation along the tree and the check of simulated runs on concrete data.
use optilog_artifacts.Prelude.{
  ℕ, ◌^◌, ◌-◌, ◌≡◌, refl, true, false, some, none, List, [], ◌∷◌, arith,
}
use optilog_artifacts.Prelude.Dict.{Dict, lookup, insert}
use optilog_artifacts.Types.{PartialCert, ProposeMsg}
use optilog_artifacts.Kauri.Tree.{FaultFreeTree}
use optilog_artifacts.Kauri.Aggregation.{Config, Kauri}
use optilog_artifacts.Kauri.Aggregation.Joined.{IsSound}
use optilog_artifacts.Kauri.Aggregation.Rounds.{
  Call, begins, receives, waits, answer_all, answer_all-IsSound,
}
use optilog_artifacts.Kauri.Positions.{root_of, correct_leader_pos}
use optilog_artifacts.Twins.{Node, nodes_of, check_commits}
use optilog_artifacts.Twins.Generator.{Generator, View}
use optilog_artifacts.Twins.Generator.Count.{IsReady, count_scenarios, count_scenarios_short}
use optilog_artifacts.Twins.Safety.{IsRight, check_commits-IsRight}
use optilog_artifacts.Tests.World.{
  world, world-IsHashed, network, network-IsFaithful, chain, chain-IsKnown, block_of, sig_of, base,
}

abbrev config : Config
config = record {
  base = base;
  fetch = network;
  quorum = λ v. 2;
  id = 7;
  has_ranking = true;
  has_node = λ i. true;
  has_config = λ ids. true;
  walk_fuel = 3;
  faulty_nodes = [];
  fault_number = 0;
}

abbrev tree : FaultFreeTree
tree = record {
  id = 7;
  configuration_length = 3;
  height = 2;
  id_to_pos_mapping = (7, 0) ∷ (8, 1) ∷ (9, 2) ∷ [];
  pos_to_id_mapping = (0, 7) ∷ (1, 8) ∷ (2, 9) ∷ [];
}

abbrev kauri : Kauri
kauri = record {
  tree = tree;
  aggregated_contribution = none;
  block_hash = 0;
  current_view = 0;
  senders = [];
  is_aggregation_sent = false;
  chain = chain;
  out = [];
}

abbrev own_vote : PartialCert
own_vote = record { signer = 7; signature = sig_of (7 ∷ []); block_hash = 12; time = 0 }

abbrev proposal : ProposeMsg
proposal = record { id = 7; block = block_of 2; aggregate_qc = none; complaints = [] }

-- The root votes, and gets the votes of its two children.
abbrev round : List Call
round =
    begins tree own_vote proposal
    ∷ receives 2 8 (sig_of (8 ∷ []))
    ∷ receives 2 9 (sig_of (9 ∷ []))
    ∷ waits 2
    ∷ []

kauri-IsSound : IsSound config world kauri
kauri-IsSound = record { known = chain-IsKnown; aggregate = tt; honest = tt }

answer_all-IsSound_example : IsSound config world (answer_all config round kauri)
answer_all-IsSound_example =
    answer_all-IsSound config world world-IsHashed network-IsFaithful round kauri
      ((block_of 2, refl, refl), (tt, (tt, (tt, tt)))) kauri-IsSound

abbrev nine : ℕ
nine = 9

abbrev places : Dict ℕ
places = (7, 0) ∷ (8, 1) ∷ (9, 2) ∷ []

places_apart : (i j p : ℕ) → lookup i places ≡ some p → lookup j places ≡ some p → i ≡ j
unfolding lookup
places_apart i j p e f = ground arith

leader_at : lookup 9 places ≡ some 2
unfolding lookup
leader_at = refl

root_at : lookup (root_of places) places ≡ some 0
unfolding lookup root_of
root_at = refl

moved : lookup 9 (correct_leader_pos 9 places) ≡ some 0
unfolding lookup insert root_of correct_leader_pos
moved = refl

-- The second replica has a twin, and the third departs at the second place.
abbrev replicas : List (List Node)
replicas = ((5 ∷ 6 ∷ 7 ∷ []) ∷ []) ∷ ((5 ∷ 9 ∷ []) ∷ (5 ∷ []) ∷ []) ∷ ((5 ∷ 8 ∷ []) ∷ []) ∷ []

check_commits-IsRight_example : IsRight (nodes_of replicas) (check_commits replicas)
check_commits-IsRight_example = check_commits-IsRight replicas

abbrev led_by : ℕ → View
led_by i = record { leader = i; partitions = (1 ∷ 2 ∷ []) ∷ [] }

abbrev generator : Generator
generator = record {
  leaders_partitions = led_by 1 ∷ led_by 2 ∷ [];
  indices = 0 ∷ 0 ∷ [];
  offsets = 0 ∷ 1 ∷ [];
  views = 2;
  remaining = 4;
}

generator-IsReady : IsReady generator
generator-IsReady = record {
  some_views = omega arith;
  some_partitions = omega arith;
  sized = refl;
  offsets_sized = refl;
  indices_below = (omega arith, (omega arith, tt));
  offsets_below = (omega arith, (omega arith, tt));
}

-- Three of the four scenarios.
count_scenarios_short_example : count_scenarios (2 ^ 2) generator ≡ some (2 ^ 2 - 1)
count_scenarios_short_example = count_scenarios_short generator generator-IsReady refl
