-- ===== src/Handel/Partitioner.antt =====
-- overhead/handel/partitioner.go: which replicas a replica asks at each level.
--
-- The binary logarithm, rounded up, is exact for the lengths that occur; it is the least power of
-- two that is enough, found on fuel. With no ID at all the source's is not a number and `none` here.
pub mod Cover
pub mod Levels
use optilog_artifacts.Prelude.{
  ℕ, zero, suc, ◌+◌, ◌-◌, ◌*◌, ◌/◌, ◌^◌, ◌||◌, Bool, Option, none, some, List, [], ◌∷◌, ◌==◌, ltb,
  leb, if◌then◌else◌, length, get_or,
}

pub record Partitioner : Type 0 where
  pub ids : List ℕ
  pub self_index : ℕ

-- The first place of the ID, or 0.
unfoldable pub index_from : ℕ → ℕ → List ℕ → ℕ
index_from i id [] = 0
index_from i id (x ∷ xs) = let rest = index_from (i + 1) id xs in if id == x then i else rest

unfoldable pub new_partitioner : ℕ → List ℕ → Partitioner
unfolding index_from
new_partitioner id ids = record { ids = ids; self_index = index_from 0 id ids }

-- The least exponent from `e` on, within the fuel, whose power of two is not below `n`.
unfoldable pub log_from : ℕ → ℕ → ℕ → ℕ
log_from zero e n = e
log_from (suc fuel) e n = let rest = log_from fuel (e + 1) n in if leb n (2 ^ e) then e else rest

unfoldable pub max_level : ℕ → ℕ
unfolding log_from
max_level n = log_from n 0 n

-- The half that holds the index, and the one that does not.
unfoldable pub own_half : ℕ → ℕ → ℕ → ℕ × ℕ
own_half self lo hi = let mid = (lo + hi) / 2 in if ltb mid self then (mid + 1, hi) else (lo, mid)

unfoldable pub other_half : ℕ → ℕ → ℕ → ℕ × ℕ
other_half self lo hi = let mid = (lo + hi) / 2 in if ltb mid self then (lo, mid) else (mid + 1, hi)

-- The rounds of the loop from the level `current` down to the target.
unfoldable pub narrow : ℕ → ℕ → ℕ → ℕ → ℕ → ℕ × ℕ
unfolding own_half other_half
narrow self level zero lo hi = other_half self lo hi
narrow self level (suc current) lo hi =
    let (lo', hi') = own_half self lo hi in
    let further = narrow self level current lo' hi' in
    if suc current == level then other_half self lo hi else further

-- A level above the highest one is a panic.
unfoldable pub range_level : Partitioner → ℕ → Option (ℕ × ℕ)
unfolding max_level narrow
range_level p level =
    let n = length p.ids in
    if (n == 0) || ltb (max_level n) level
    then none
    else some (narrow p.self_index level (max_level n) 0 (n - 1))

unfoldable pub slice : ℕ → ℕ → List ℕ → List ℕ
slice from zero xs = []
slice from (suc count) [] = []
slice zero (suc count) (x ∷ xs) = x ∷ slice zero count xs
slice (suc from) (suc count) (x ∷ xs) = slice from (suc count) xs

abbrev pub slice_range : List ℕ → Option (ℕ × ℕ) → Option (List ℕ)
slice_range ids none = none
slice_range ids (some (lo, hi)) = some (slice lo (hi + 1 - lo) ids)

unfoldable pub partition : Partitioner → ℕ → Option (List ℕ)
unfolding range_level slice
partition p level = slice_range p.ids (range_level p level)

abbrev pub range_size : Option (ℕ × ℕ) → Option ℕ
range_size none = none
range_size (some (lo, hi)) = some (hi + 1 - lo)

unfoldable pub size : Partitioner → ℕ → Option ℕ
unfolding range_level
size p level = range_size (range_level p level)
