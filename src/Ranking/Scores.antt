-- ===== src/Ranking/Scores.antt =====
-- overhead/ranking/complaint.go: what is read off the scores and the suspicions.
use optilog_artifacts.Prelude.{
  ℕ, zero, suc, ◌+◌, ◌%◌, ◌^◌, Bool, true, false, ◌||◌, List, [], ◌∷◌, ◌==◌, ltb, if◌then◌else◌,
  length,
}
use optilog_artifacts.Prelude.Words.{add_u64}
use optilog_artifacts.Prelude.Dict.{Dict, lookup, insert}
use optilog_artifacts.Ranking.{ComplaintCache, number}

-- The order of the ints that 64 bits stand for.
unfoldable pub signed_ltb : ℕ → ℕ → Bool
signed_ltb a b = ltb ((a + 2 ^ 63) % 2 ^ 64) ((b + 2 ^ 63) % 2 ^ 64)

-- A stable sort: the entry stands before those that are greater than it.
unfoldable pub insert_by : (ℕ → ℕ) → ℕ → List ℕ → List ℕ
unfolding signed_ltb
insert_by score x [] = x ∷ []
insert_by score x (y ∷ ys) =
    let rest = insert_by score x ys in
    if signed_ltb (score y) (score x) then y ∷ rest else x ∷ y ∷ ys

unfoldable pub sort_by : (ℕ → ℕ) → List ℕ → List ℕ
unfolding insert_by
sort_by score [] = []
sort_by score (x ∷ xs) = insert_by score x (sort_by score xs)

abbrev pub keys : Dict ℕ → List ℕ
keys [] = []
keys ((id, score) ∷ m) = id ∷ keys m

abbrev pub take : ℕ → List ℕ → List ℕ
take zero xs = []
take (suc n) [] = []
take (suc n) (x ∷ xs) = x ∷ take n xs

-- With `n` an int that is not negative.
unfoldable pub get_top_n : ℕ → ComplaintCache → List ℕ × Bool
unfolding sort_by
get_top_n n cc =
    if ltb (length cc.score) n || (n == 0)
    then ([], false)
    else (take n (sort_by (λ id. number (lookup id cc.score)) (keys cc.score)), true)

unfoldable pub sum_row : Dict ℕ → Dict ℕ → Dict ℕ
sum_row [] sums = sums
sum_row ((id, count) ∷ m) sums =
    sum_row m (insert id (add_u64 (number (lookup id sums)) count) sums)

unfoldable pub sum_rows : Dict (Dict ℕ) → Dict ℕ → Dict ℕ
unfolding sum_row
sum_rows [] sums = sums
sum_rows ((by, m) ∷ rows) sums = sum_rows rows (sum_row m sums)

unfoldable pub get_suspected_nodes : ComplaintCache → Dict ℕ
unfolding sum_rows
get_suspected_nodes cc = sum_rows cc.suspicion_matrix []

unfoldable pub get_faulty_nodes : ComplaintCache → List ℕ
get_faulty_nodes cc = cc.faulty_nodes
