-- ===== src/Twins/Safety.antt =====
-- What checkCommits of overhead/twins/scenario.go finds.
use optilog_artifacts.Prelude.{
  ℕ, zero, suc, ◌+◌, ◌≤◌, ◌<◌, ◌≡◌, ◌≢◌, refl, sym, ap, subst, Bool, true, false, Option, none,
  some, List, [], ◌∷◌, ◌==◌, length, All, In, arith, Bool-cases, ==_iff, inl, inr, if◌then◌else◌,
  ltb,
}
use optilog_artifacts.Prelude.Dict.{lookup, insert}
use optilog_artifacts.Twins.{
  Node, nodes_of, executed_at, commit_count, check_from, longest, check_commits,
}
use optilog_artifacts.Twins.Agreement.{
  Agree, Counted, alike, unlike, counted, Alike, all_short, none_at, all-Agree, alike_all,
}

-- The verdict: all agree and have no more than the blocks counted, or two differ at the place.
abbrev pub IsRight : List Node → Option (Bool × ℕ) → Type 0
IsRight nodes none = ⊥
IsRight nodes (some (true, n)) =
    All (λ node. length node ≤ n) nodes × All (λ node. All (Agree node) nodes) nodes
IsRight nodes (some (false, n)) =
    (h : ℕ) × (k : ℕ) × In h (executed_at n nodes) × In k (executed_at n nodes) × (h ≢ k)

module _ (nodes : List Node) where
  -- The places below were alike.
  abbrev AlikeBelow : ℕ → Type 0
  AlikeBelow i = (j : ℕ) → j < i → Alike j nodes

  next_below : (i : ℕ) → AlikeBelow i → Alike i nodes → AlikeBelow (i + 1)
  next_below i below here j l = elim (Bool-cases (ltb j i)) [
    | inl e ↦ below j (ground arith)
    | inr e ↦ subst (λ k. Alike k nodes) (ground arith) here
  ]

  round-IsRight :
      (i : ℕ) (hs : List ℕ) (further : Option (Bool × ℕ))
      → executed_at i nodes ≡ hs
      → AlikeBelow i
      → (0 < length hs → Alike i nodes → IsRight nodes further)
      → IsRight nodes (
          if length hs == 0
          then some (true, i)
          else if length (commit_count hs []) == 1
          then further
          else some (false, i))
  unfolding Alike commit_count insert lookup
  round-IsRight i [] further e below f =
      let short = all_short i nodes e in (short, all-Agree i nodes short below)
  round-IsRight i (h ∷ hs) further e below f = go (counted h 1 hs)
    where
      some_left : (length (h ∷ hs) == 0) ≡ false
      some_left = ground arith

      go :
          Counted h hs (length (commit_count (h ∷ hs) []))
          → IsRight nodes (
              if length (h ∷ hs) == 0
              then some (true, i)
              else if length (commit_count (h ∷ hs) []) == 1
              then further
              else some (false, i))
      go (alike a n) =
          let one : (length (commit_count (h ∷ hs) []) == 1) ≡ true =
            (==_iff (length (commit_count (h ∷ hs) [])) 1).1 n in
          rw (some_left, one)
            (f (omega arith)
              (λ x y p q. alike_all h hs a x y (subst (In x) e p) (subst (In y) e q)))
      go (unlike k m d t) =
          let two : (length (commit_count (h ∷ hs) []) == 1) ≡ false = ground (arith, t) in
          rw (some_left, two)
            ((h, k, subst (In h) (sym e) (inl refl), subst (In k) (sym e) (inr m), d))

  abbrev AreShort : ℕ → Type 0
  AreShort n = All (λ node. length node ≤ n) nodes

  check_from-IsRight :
      (fuel i : ℕ)
      → AreShort (i + fuel)
      → AlikeBelow i
      → IsRight nodes (check_from (suc fuel) i nodes)
  unfolding check_from
  check_from-IsRight zero i short below =
      round-IsRight i (executed_at i nodes) none refl below (λ l a.
        absurd (omega (arith, ap length (none_at i nodes (subst AreShort (omega arith) short)))))
  check_from-IsRight (suc fuel) i short below =
      round-IsRight i (executed_at i nodes) (check_from (suc fuel) (i + 1) nodes) refl below (λ l a.
        check_from-IsRight fuel (i + 1) (subst AreShort (omega arith) short) (next_below i below a))

longest_bound :
    (ns all : List Node) → longest ns ≤ longest all → All (λ node. length node ≤ longest all) ns
unfolding longest
longest_bound [] all h = tt
longest_bound (n ∷ ns) all h = (omega arith, longest_bound ns all (omega arith))

-- CheckCommits ends for any replicas; where it says safe, the lists of blocks that the replicas
-- without twins have executed agree as far as they go, and none is longer than the count, and
-- otherwise two of them have different blocks at the place that is counted.
pub check_commits-IsRight :
    (replicas : List (List Node)) → IsRight (nodes_of replicas) (check_commits replicas)
unfolding check_commits
check_commits-IsRight replicas =
    let nodes = nodes_of replicas in
    check_from-IsRight nodes (longest nodes) 0
      (subst (AreShort nodes) (omega arith) (longest_bound nodes nodes (omega arith)))
      (λ j l. absurd (omega arith))
