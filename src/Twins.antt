-- ===== src/Twins.antt =====
-- overhead/twins/scenario.go: whether the replicas of a simulated network have executed the same
-- blocks.
--
-- A replica is the list of its nodes, and a node the hashes of the blocks that it has executed. The
-- loop gets as fuel one more than the longest of these lists.
pub mod Generator
pub mod Agreement
pub mod Safety
use optilog_artifacts.Prelude.{
  ℕ, zero, suc, ◌+◌, Bool, true, false, Option, none, some, List, [], ◌∷◌, ◌==◌, if◌then◌else◌,
  length, max,
}
use optilog_artifacts.Prelude.Dict.{Dict, lookup, insert}

abbrev pub Node : Type 0
Node = List ℕ

abbrev pub get_elem? : Node → ℕ → Option ℕ
get_elem? [] i = none
get_elem? (h ∷ hs) zero = some h
get_elem? (h ∷ hs) (suc i) = get_elem? hs i

-- Replicas with twins are skipped.
unfoldable pub nodes_of : List (List Node) → List Node
nodes_of [] = []
nodes_of ([] ∷ rs) = nodes_of rs
nodes_of ((node ∷ []) ∷ rs) = node ∷ nodes_of rs
nodes_of ((node ∷ twin ∷ more) ∷ rs) = nodes_of rs

-- The hashes at a place, and how often each stands there.
unfoldable pub executed_at : ℕ → List Node → List ℕ
executed_at i [] = []
executed_at i (node ∷ nodes) =
    let rest = executed_at i nodes in elim (get_elem? node i) [ none ↦ rest | some h ↦ h ∷ rest ]

abbrev pub plus_one : Option ℕ → ℕ
plus_one none = 1
plus_one (some n) = n + 1

unfoldable pub commit_count : List ℕ → Dict ℕ → Dict ℕ
commit_count [] counts = counts
commit_count (h ∷ hs) counts = commit_count hs (insert h (plus_one (lookup h counts)) counts)

-- `none` where the fuel runs out.
unfoldable pub check_from : ℕ → ℕ → List Node → Option (Bool × ℕ)
unfolding commit_count executed_at
check_from zero i nodes = none
check_from (suc fuel) i nodes =
    let further = check_from fuel (i + 1) nodes in
    let hashes = executed_at i nodes in
    if length hashes == 0
    then some (true, i)
    else if length (commit_count hashes []) == 1
    then further
    else some (false, i)

unfoldable pub longest : List Node → ℕ
longest [] = 0
longest (node ∷ nodes) = max (length node) (longest nodes)

unfoldable pub check_commits : List (List Node) → Option (Bool × ℕ)
unfolding check_from nodes_of longest
check_commits replicas = check_from (suc (longest (nodes_of replicas))) 0 (nodes_of replicas)
