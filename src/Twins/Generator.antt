-- ===== src/Twins/Generator.antt =====
-- overhead/twins/generator.go: the scenarios of a test, one after the other.
--
-- `none` is a panic: an index out of range. The answer io.EOF is the inner `none`.
pub mod Count
use optilog_artifacts.Prelude.{
  ℕ, zero, suc, ◌+◌, ◌-◌, Bool, true, false, Option, none, some, List, [], ◌∷◌, ◌==◌, ltb, leb,
  if◌then◌else◌, length,
}
use optilog_artifacts.Prelude.Words.{sub_u64}

pub record View : Type 0 where
  pub leader : ℕ
  pub partitions : List (List ℕ)

pub record Generator : Type 0 where
  pub leaders_partitions : List View
  pub indices : List ℕ
  pub offsets : List ℕ
  pub views : ℕ
  pub remaining : ℕ

abbrev pub get_elem? : List View → ℕ → Option View
get_elem? [] i = none
get_elem? (v ∷ vs) zero = some v
get_elem? (v ∷ vs) (suc i) = get_elem? vs i

abbrev pub before : Option View → Option (List View) → Option (List View)
before none vs = none
before (some v) none = none
before (some v) (some vs) = some (v ∷ vs)

-- The views that the indices and the offsets stand for.
unfoldable pub select : List View → List ℕ → List ℕ → Option (List View)
select lp [] offsets = some []
select lp (ii ∷ indices) [] = none
select lp (ii ∷ indices) (offset ∷ offsets) =
    let index = if leb (length lp) (ii + offset) then ii + offset - length lp else ii + offset in
    before (get_elem? lp index) (select lp indices offsets)

-- The loop that moves the indices on, from the last one; the answer tells that it came past the
-- first.
unfoldable pub advance : ℕ → List ℕ → Bool × List ℕ
advance n [] = (true, [])
advance n (i ∷ indices) =
    let (over, rest) = advance n indices in
    if over
    then (if ltb (i + 1) n then (false, (i + 1) ∷ rest) else (true, 0 ∷ rest))
    else (false, i ∷ rest)

abbrev pub finish : List View → Generator → Bool × List ℕ → Option (List View) × Generator
finish p g (true, indices) = (none, record g { indices = [] })
finish p g (false, indices) =
    (some p, record g { indices = indices; remaining = sub_u64 g.remaining 1 })

abbrev pub with_views : Option (List View) → Generator → Option (Option (List View) × Generator)
unfolding advance
with_views none g = none
with_views (some p) g = some (finish p g (advance (length g.leaders_partitions) g.indices))

-- Without views nothing is moved on; with emptied indices the loop reads out of range.
unfoldable pub next_scenario : Generator → Option (Option (List View) × Generator)
unfolding select with_views
next_scenario g =
    let moved = with_views (select g.leaders_partitions g.indices g.offsets) g in
    if g.views == 0
    then some (some [], record g { remaining = sub_u64 g.remaining 1 })
    else if length g.indices == 0
    then none
    else moved
