-- ===== src/Kauri/Positions.antt =====
-- overhead/kauri/kauri.go: which position of the tree each replica gets.
--
-- `replicas` are the IDs of the configuration, `nearest` is its FindNearestReplica.
use optilog_artifacts.Prelude.{
  ℕ, zero, suc, ◌+◌, ◌≡◌, refl, not, some, List, [], ◌∷◌, ◌==◌, if◌then◌else◌, keep, length, arith,
}
use optilog_artifacts.Prelude.Sort.{sort}
use optilog_artifacts.Prelude.Dict.{Dict, lookup, insert, lookup-insert}
use optilog_artifacts.Types.IdSet.{contains}
use optilog_artifacts.Kauri.Tree.{read, max_child}

-- The first ID at position 0, or 0.
unfoldable pub root_of : Dict ℕ → ℕ
root_of [] = 0
root_of ((id, index) ∷ ids) = let rest = root_of ids in if index == 0 then id else rest

unfoldable pub correct_leader_pos : ℕ → Dict ℕ → Dict ℕ
unfolding root_of
correct_leader_pos leader ids = insert (root_of ids) (read ids leader) (insert leader 0 ids)

unfoldable pub leaf_nodes : List ℕ → List ℕ → List ℕ
unfolding contains
leaf_nodes replicas ids = sort (keep (λ id. not (contains id ids)) replicas)

unfoldable pub place_all : List ℕ → ℕ → Dict ℕ → Dict ℕ
place_all [] pos m = m
place_all (id ∷ ids) pos m = place_all ids (pos + 1) (insert id pos m)

unfoldable pub make_array_with_partitions : List ℕ → List ℕ → ℕ → Dict ℕ
unfolding correct_leader_pos leaf_nodes place_all
make_array_with_partitions replicas ids leader =
    correct_leader_pos leader
      (place_all (leaf_nodes replicas ids) (length ids) (place_all ids 0 []))

unfoldable pub remove_leaf : ℕ → List ℕ → List ℕ
remove_leaf leaf [] = []
remove_leaf leaf (x ∷ xs) = let rest = remove_leaf leaf xs in if x == leaf then xs else x ∷ rest

module _ (nearest : ℕ → List ℕ → ℕ) where
  -- The leaves under an inner node.
  unfoldable pub assign_children : ℕ → ℕ → List ℕ → ℕ → Dict ℕ → List ℕ × ℕ × Dict ℕ
  unfolding remove_leaf
  assign_children zero id leaves pos m = (leaves, pos, m)
  assign_children (suc i) id leaves pos m =
      let leaf = nearest id leaves in
      assign_children i id (remove_leaf leaf leaves) (pos + 1) (insert leaf pos m)

  unfoldable pub assign_all : List ℕ → List ℕ → ℕ → Dict ℕ → Dict ℕ
  unfolding assign_children
  assign_all [] leaves pos m = m
  assign_all (id ∷ ids) leaves pos m =
      let (leaves', pos', m') = assign_children max_child id leaves pos m in
      assign_all ids leaves' pos' m'

  abbrev pub without_first : List ℕ → List ℕ
  without_first [] = []
  without_first (id ∷ ids) = ids

  unfoldable pub assign_leaf_nodes : List ℕ → List ℕ → ℕ → Dict ℕ
  unfolding assign_all leaf_nodes place_all correct_leader_pos
  assign_leaf_nodes replicas ids leader =
      correct_leader_pos leader
        (assign_all (without_first ids) (leaf_nodes replicas ids) (length ids) (place_all ids 0 []))

-- Where different replicas have different positions and one is at 0, correctLeaderPos puts the
-- leader at 0 and leaves different replicas at different positions.
pub correct_leader_pos_swaps :
    (leader at : ℕ) (ids : Dict ℕ) (i j p : ℕ)
    → lookup leader ids ≡ some at
    → lookup (root_of ids) ids ≡ some 0
    → ((i j p : ℕ) → lookup i ids ≡ some p → lookup j ids ≡ some p → i ≡ j)
    → lookup i (correct_leader_pos leader ids) ≡ some p
    → lookup j (correct_leader_pos leader ids) ≡ some p
    → (i ≡ j) × (lookup leader (correct_leader_pos leader ids) ≡ some 0)
unfolding correct_leader_pos
correct_leader_pos_swaps leader at ids i j p l r apart hi hj =
    let root = root_of ids in
    (
      ground (
        arith,
        entry i,
        entry j,
        apart i j p,
        apart i root 0,
        apart j root 0,
        apart leader i p,
        apart leader j p,
        apart leader root 0,
        l,
        r,
      ),
      ground (arith, entry leader, l, r, apart leader root 0),
    )
  where
    at_leader : read ids leader ≡ at
    at_leader = rw (l, read) refl

    entry :
        (k : ℕ)
        → lookup k (insert (root_of ids) (read ids leader) (insert leader 0 ids))
          ≡ (if root_of ids == k then some at else if leader == k then some 0 else lookup k ids)
    entry k = ground (
      arith,
      lookup-insert (root_of ids) k (read ids leader) (insert leader 0 ids),
      lookup-insert leader k 0 ids,
      at_leader,
    )
