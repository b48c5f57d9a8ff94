-- ===== src/Kauri/Tree.antt =====
-- overhead/kauri/tree.go: the complete binary tree of the replicas' positions. A Go map answers 0
-- for a missing key. The float64 powers of two are exact, so they are powers of ℕ.
pub mod Shape
use optilog_artifacts.Prelude.{
  ℕ, zero, suc, ◌+◌, ◌-◌, ◌*◌, ◌/◌, ◌^◌, Bool, true, false, ◌&&◌, Option, none, some, List, [], ◌∷◌,
  ◌++◌, ◌==◌, leb, ltb, if◌then◌else◌,
}
use optilog_artifacts.Prelude.Dict.{Dict, lookup, insert}

abbrev pub max_child : ℕ
max_child = 2

pub record FaultFreeTree : Type 0 where
  pub id : ℕ
  pub configuration_length : ℕ
  pub height : ℕ
  pub id_to_pos_mapping : Dict ℕ
  pub pos_to_id_mapping : Dict ℕ

-- What Go reads from a map of numbers.
abbrev pub read : Dict ℕ → ℕ → ℕ
read m k = elim (lookup k m) [ none ↦ 0 | some v ↦ v ]

-- The loop of CreateTree from level `i` on, with `temp` positions left; `temp` loops are enough,
-- since every loop takes at least one off.
unfoldable pub levels : ℕ → ℕ → ℕ → ℕ → ℕ
levels zero i temp height = height
levels (suc fuel) i temp height =
    let rest = levels fuel (suc i) (temp - max_child ^ i) (suc height) in
    if temp == 0 then height else rest

-- `none` for the nil tree of an empty configuration.
unfoldable pub create_tree : ℕ → ℕ → Option FaultFreeTree
create_tree configuration_length my_id =
    if configuration_length == 0
    then none
    else some (record {
      id = my_id;
      configuration_length = configuration_length;
      height = levels configuration_length 1 (configuration_length - 1) 1;
      id_to_pos_mapping = [];
      pos_to_id_mapping = [];
    })

-- The map from positions to IDs; the last ID of a position stays.
unfoldable pub positions : Dict ℕ → Dict ℕ → Dict ℕ
positions [] m = m
positions ((i, index) ∷ ids) m = positions ids (insert index i m)

unfoldable pub initialize_with_pids : Dict ℕ → FaultFreeTree → FaultFreeTree
initialize_with_pids ids t = record t {
  id_to_pos_mapping = ids;
  pos_to_id_mapping = positions ids [];
}

abbrev pub parent_pos : ℕ → ℕ
parent_pos pos = (pos - 1) / max_child

unfoldable pub get_parent : FaultFreeTree → ℕ × Bool
get_parent t =
    let my_pos = read t.id_to_pos_mapping t.id in
    if my_pos == 0 then (t.id, false) else (read t.pos_to_id_mapping (parent_pos my_pos), true)

abbrev pub is_within_index : FaultFreeTree → ℕ → Bool
is_within_index t position = ltb position t.configuration_length

-- The loop of GetChildrenOfNode from `i` on, `fuel` values of `i` being left.
unfoldable pub children_from : FaultFreeTree → ℕ → ℕ → ℕ → List ℕ
children_from t node_pos zero i = []
children_from t node_pos (suc fuel) i =
    let rest = children_from t node_pos fuel (suc i) in
    if is_within_index t (max_child * node_pos + i)
    then read t.pos_to_id_mapping (max_child * node_pos + i) ∷ rest
    else []

unfoldable pub get_children_of_node : FaultFreeTree → ℕ → List ℕ
get_children_of_node t node_id = children_from t (read t.id_to_pos_mapping node_id) max_child 1

unfoldable pub get_children : FaultFreeTree → List ℕ
get_children t = get_children_of_node t t.id

unfoldable pub is_root : FaultFreeTree → ℕ → Bool
is_root t node_id = read t.id_to_pos_mapping node_id == 0

unfoldable pub get_grand_parent : FaultFreeTree → ℕ × Bool
get_grand_parent t =
    let (parent, ok) = get_parent t in
    let parent_at = read t.id_to_pos_mapping parent in
    if ok
    then (if parent_at == 0
        then (parent, false)
        else (read t.pos_to_id_mapping (parent_pos parent_at), true))
    else (parent, false)

-- The loop of getHeight: level `i` holds the positions from `start` to `end`.
unfoldable pub level_height : ℕ → ℕ → ℕ → ℕ → ℕ → ℕ → ℕ
level_height zero height pos i start last = 0
level_height (suc fuel) height pos i start last =
    let rest =
      level_height fuel height pos (suc i) (start + max_child ^ (i - 1)) (last + max_child ^ i) in
    if leb height i
    then 0
    else if leb (start + max_child ^ (i - 1)) pos && leb pos (last + max_child ^ i)
    then height - i
    else rest

unfoldable pub height_of : FaultFreeTree → ℕ → ℕ
height_of t node_id =
    if is_root t node_id
    then t.height
    else level_height t.height t.height (read t.id_to_pos_mapping node_id) 1 0 0

unfoldable pub get_height : FaultFreeTree → ℕ
get_height t = height_of t t.id

-- The IDs at `n` positions from `i` on.
unfoldable pub ids_from : FaultFreeTree → ℕ → ℕ → List ℕ
ids_from t i zero = []
ids_from t i (suc n) = read t.pos_to_id_mapping i ∷ ids_from t (suc i) n

-- A position outside the tree has height 0, and then the loop runs over -1, which no replica has,
-- and 0.
unfoldable pub get_peers : FaultFreeTree → ℕ → List ℕ
get_peers t node_id =
    let height = height_of t node_id in
    let start_peer = max_child * (height - 1) + 1 in
    let last = max_child * height + 1 in
    let final_peer = if ltb t.configuration_length last then t.configuration_length else last in
    if is_root t node_id
    then []
    else if height == 0
    then 0 ∷ ids_from t 0 final_peer
    else ids_from t start_peer (final_peer - start_peer)

-- The loop of GetSubTreeNodes over its queue: `none` when `fuel` loops are not enough.
unfoldable pub walk_queue : FaultFreeTree → ℕ → List ℕ → List ℕ → Option (List ℕ)
walk_queue t fuel [] nodes = some nodes
walk_queue t zero (child ∷ queue) nodes = none
walk_queue t (suc fuel) (child ∷ queue) nodes =
    walk_queue t fuel (queue ++ get_children_of_node t child)
      (nodes ++ get_children_of_node t child)

unfoldable pub get_sub_tree_nodes : FaultFreeTree → ℕ → Option (List ℕ)
get_sub_tree_nodes t fuel = walk_queue t fuel (get_children t) (get_children t)
