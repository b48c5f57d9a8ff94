-- ===== src/Twins/Generator/Count.antt =====
-- How many scenarios overhead/twins/generator.go gives.
use native.Mathlib.Nat.{pow-suc, pow-zero, zero-mul, mul-le-mul_right}
use optilog_artifacts.Prelude.Words.{sub_u64}
use optilog_artifacts.Prelude.{
  ℕ, zero, suc, ◌+◌, ◌-◌, ◌*◌, ◌^◌, ◌≤◌, ◌<◌, ◌≡◌, refl, ◌⊎◌, sym, ap, ◌∙◌, subst, Bool, true,
  false, Option, none, some, List, [], ◌∷◌, ◌==◌, ltb, leb, length, replicate, All, arith,
  Bool-cases, inl, inr, if◌then◌else◌,
}
use optilog_artifacts.Twins.Generator.{
  View, Generator, get_elem?, before, select, advance, finish, with_views, next_scenario,
}

-- The scenarios until io.EOF, within the fuel.
abbrev one_more : Option ℕ → Option ℕ
one_more none = none
one_more (some k) = some (suc k)

abbrev count_one : Option (Option (List View) × Generator) → (Generator → Option ℕ) → Option ℕ
count_one none f = none
count_one (some (none, g)) f = some 0
count_one (some (some p, g)) f = one_more (f g)

unfoldable pub count_scenarios : ℕ → Generator → Option ℕ
unfolding next_scenario
count_scenarios zero g = none
count_scenarios (suc fuel) g = count_one (next_scenario g) (count_scenarios fuel)

-- The number whose digits to the base `n` are the indices.
value : ℕ → List ℕ → ℕ
value n [] = 0
value n (i ∷ indices) = i * n ^ length indices + value n indices

abbrev AreBelow : ℕ → List ℕ → Type 0
AreBelow n xs = All (λ x. x < n) xs

-- What one step of the indices does.
data Step (n : ℕ) (indices : List ℕ) (r : Bool × List ℕ) : Type 0 where
  over :
      r.0 ≡ true
      → value n indices + 1 ≡ n ^ length indices
      → value n r.1 ≡ 0
      → AreBelow n r.1
      → length r.1 ≡ length indices
      → Step n indices r
  within :
      r.0 ≡ false
      → value n r.1 ≡ value n indices + 1
      → AreBelow n r.1
      → length r.1 ≡ length indices
      → Step n indices r

module _ (n i : ℕ) (indices : List ℕ) (h : 0 < n) (l : i < n) where
  carry : ℕ → Bool × List ℕ → Bool × List ℕ
  carry j (b, rest) =
      if b
      then (if ltb (j + 1) n then (false, (j + 1) ∷ rest) else (true, 0 ∷ rest))
      else (false, j ∷ rest)

  digit : (r : Bool × List ℕ) → Step n indices r → Step n (i ∷ indices) (carry i r)
  unfolding carry value
  digit (true, rest) (over o v z a s) = elim (Bool-cases (ltb (i + 1) n)) [
    | inl e ↦ rw e (
        within refl (omega (arith, v, z, ap (λ k. (i + 1) * n ^ k) s)) (ground arith, a) (ap suc s))
    | inr e ↦
        let top : i + 1 ≡ n = ground arith in
        rw e (
          over refl
            (omega (arith, v, pow-suc n (length indices), ap (λ k. k * n ^ length indices) top))
            (omega (arith, z)) (h, a) (ap suc s))
  ]
  digit (false, rest) (over o v z a s) = absurd (ground arith)
  digit (true, rest) (within o v a s) = absurd (ground arith)
  digit (false, rest) (within o v a s) =
      within refl (omega (arith, v, ap (λ k. i * n ^ k) s)) (l, a) (ap suc s)

step : (n : ℕ) (indices : List ℕ) → 0 < n → AreBelow n indices → Step n indices (advance n indices)
unfolding value advance carry
step n [] h b = over refl (omega (arith, pow-zero n)) refl tt refl
step n (i ∷ indices) h (l, b) = digit n i indices h l (advance n indices) (step n indices h b)

value_bound : (n : ℕ) (xs : List ℕ) → AreBelow n xs → value n xs + 1 ≤ n ^ length xs
unfolding value
value_bound n [] b = omega (arith, pow-zero n)
value_bound n (x ∷ xs) (l, b) = omega (
  arith,
  value_bound n xs b,
  pow-suc n (length xs),
  mul-le-mul_right {m = x + 1} {n = n} (n ^ length xs) (omega arith),
)

elem_found : (lp : List View) (i : ℕ) → i < length lp → (v : View) × (get_elem? lp i ≡ some v)
elem_found [] i h = absurd (omega arith)
elem_found (v ∷ lp) zero h = (v, refl)
elem_found (v ∷ lp) (suc i) h = elem_found lp i (omega arith)

before-some :
    (o : Option View) (p : Option (List View)) (v : View) (vs : List View)
    → o ≡ some v
    → p ≡ some vs
    → before o p ≡ some (v ∷ vs)
before-some o p v vs e f = rw (e, f) refl

selected :
    (lp : List View) (indices offsets : List ℕ)
    → AreBelow (length lp) indices
    → AreBelow (length lp) offsets
    → length indices ≡ length offsets
    → (p : List View) × (select lp indices offsets ≡ some p)
unfolding select
selected lp [] offsets b c e = ([], refl)
selected lp (i ∷ indices) [] b c e = absurd (omega arith)
selected lp (i ∷ indices) (o ∷ offsets) (l, b) (m, c) e =
    let index = if leb (length lp) (i + o) then i + o - length lp else i + o in
    let (v, f) = elem_found lp index (small (Bool-cases (leb (length lp) (i + o)))) in
    let (p, g) = selected lp indices offsets b c (omega arith) in
    (v ∷ p, before-some (get_elem? lp index) (select lp indices offsets) v p f g)
  where
    small :
        (leb (length lp) (i + o) ≡ true) ⊎ (leb (length lp) (i + o) ≡ false)
        → (if leb (length lp) (i + o) then i + o - length lp else i + o) < length lp
    small (inl t) = rw t (ground arith)
    small (inr t) = rw t (ground arith)

-- Between two calls, before io.EOF.
pub record IsReady (g : Generator) : Type 0 where
  pub some_views : 0 < g.views
  pub some_partitions : 0 < length g.leaders_partitions
  pub sized : length g.indices ≡ g.views
  pub offsets_sized : length g.offsets ≡ g.views
  pub indices_below : All (λ i. i < length g.leaders_partitions) g.indices
  pub offsets_below : All (λ i. i < length g.leaders_partitions) g.offsets

module _ (g : Generator) (r : IsReady g) where
  moves :
      (p : List View)
      → select g.leaders_partitions g.indices g.offsets ≡ some p
      → next_scenario g ≡ some (finish p g (advance (length g.leaders_partitions) g.indices))
  unfolding next_scenario with_views
  moves p e =
      let a : (g.views == 0) ≡ false = ground (arith, r.some_views) in
      let b : (length g.indices == 0) ≡ false = ground (arith, r.some_views, r.sized) in
      rw (a, b, e) refl

  finished :
      (k : ℕ) (p : List View) (q : Bool × List ℕ)
      → value (length g.leaders_partitions) g.indices + suc k
        ≡ length g.leaders_partitions ^ length g.indices
      → Step (length g.leaders_partitions) g.indices q
      → ((g' : Generator)
          → (j : ℕ) → k ≡ suc j
          → IsReady g'
          → value (length g'.leaders_partitions) g'.indices + suc j
            ≡ length g'.leaders_partitions ^ length g'.indices
          → count_scenarios k g' ≡ some j)
      → count_one (some (finish p g q)) (count_scenarios k) ≡ some k
  finished k p (true, is) e (over o v z a s) f = ap (λ (m : ℕ). some m) (omega (arith, e, v))
  finished k p (false, is) e (over o v z a s) f = absurd (ground arith)
  finished k p (true, is) e (within o v a s) f = absurd (ground arith)
  finished zero p (false, is) e (within o v a s) f = absurd (
      omega (
        arith,
        e,
        v,
        value_bound (length g.leaders_partitions) is a,
        ap (λ m. length g.leaders_partitions ^ m) s,
      ))
  finished (suc j) p (false, is) e (within o v a s) f =
      let g' : Generator = record g { indices = is; remaining = sub_u64 g.remaining 1 } in
      let ready : IsReady g' = record {
        some_views = r.some_views;
        some_partitions = r.some_partitions;
        sized = s ∙ r.sized;
        offsets_sized = r.offsets_sized;
        indices_below = a;
        offsets_below = r.offsets_below;
      } in
      ap one_more
        (f g' j refl ready (omega (arith, e, v, ap (λ m. length g.leaders_partitions ^ m) s)))

count_left :
    (k : ℕ) (g : Generator)
    → IsReady g
    → value (length g.leaders_partitions) g.indices + suc k
      ≡ length g.leaders_partitions ^ length g.indices
    → count_scenarios (suc k) g ≡ some k
unfolding count_scenarios
count_left zero g r e =
    let (p, f) =
      selected g.leaders_partitions g.indices g.offsets r.indices_below r.offsets_below
        (r.sized ∙ sym r.offsets_sized) in
    ap (λ q. count_one q (count_scenarios zero)) (moves g r p f)
    ∙ finished g r zero p (advance (length g.leaders_partitions) g.indices) e
        (step (length g.leaders_partitions) g.indices r.some_partitions r.indices_below)
        (λ g' j q r' v. absurd (omega arith))
count_left (suc k) g r e =
    let (p, f) =
      selected g.leaders_partitions g.indices g.offsets r.indices_below r.offsets_below
        (r.sized ∙ sym r.offsets_sized) in
    ap (λ q. count_one q (count_scenarios (suc k))) (moves g r p f)
    ∙ finished g r (suc k) p (advance (length g.leaders_partitions) g.indices) e
        (step (length g.leaders_partitions) g.indices r.some_partitions r.indices_below)
        (λ g' j q r' v.
          subst (λ m. count_scenarios (suc k) g' ≡ some m) (omega arith)
            (count_left k g' r' (omega (arith, v, q))))

value-replicate : (n k : ℕ) → value n (replicate k 0) ≡ 0
unfolding value
value-replicate n zero = refl
value-replicate n (suc k) =
    omega (arith, value-replicate n k, zero-mul (n ^ length (replicate {A = ℕ} k 0)))

-- A generator that has views, leaders with their partitions and offsets below the number of these,
-- and starts with its indices at 0, gives io.EOF after one scenario less than there are ways to
-- choose a leader with partitions for each view.
pub count_scenarios_short :
    (g : Generator)
    → IsReady g
    → g.indices ≡ replicate g.views 0
    → count_scenarios (length g.leaders_partitions ^ g.views) g
      ≡ some (length g.leaders_partitions ^ g.views - 1)
count_scenarios_short g r e =
    let n = length g.leaders_partitions in
    let total = n ^ g.views in
    let same : n ^ length g.indices ≡ total = ap (λ k. n ^ k) r.sized in
    let start : value n g.indices ≡ 0 = ap (value n) e ∙ value-replicate n g.views in
    let more : suc (total - 1) ≡ total =
      omega (arith, value_bound n g.indices r.indices_below, same) in
    subst (λ k. count_scenarios k g ≡ some (total - 1)) more
      (count_left (total - 1) g r (omega (arith, start, more, same)))
