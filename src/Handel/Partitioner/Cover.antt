-- ===== src/Handel/Partitioner/Cover.antt =====
-- The levels of overhead/handel/partitioner.go part the other replicas.
use native.Mathlib.Nat.{pow-suc}
use optilog_artifacts.Prelude.{
  ℕ, suc, ◌+◌, ◌/◌, ◌^◌, ◌≤◌, ◌<◌, ◌≡◌, ◌≢◌, ◌⊎◌, refl, sym, subst, ◌==◌, ltb, arith, Bool-cases,
  inl, inr, ==_refl,
}
use optilog_artifacts.Handel.Partitioner.{own_half, other_half, narrow}

abbrev pub IsBetween : ℕ → ℕ × ℕ → Type 0
IsBetween i (lo, hi) = (lo ≤ i) × (i ≤ hi)

module _ (self : ℕ) where
  -- The two halves of a range.
  data Halves (lo hi : ℕ) : Type 0 where
    self_above :
        (lo + hi) / 2 < self
        → own_half self lo hi ≡ ((lo + hi) / 2 + 1, hi)
        → other_half self lo hi ≡ (lo, (lo + hi) / 2)
        → Halves lo hi
    self_below :
        self ≤ (lo + hi) / 2
        → own_half self lo hi ≡ (lo, (lo + hi) / 2)
        → other_half self lo hi ≡ ((lo + hi) / 2 + 1, hi)
        → Halves lo hi

  halves : (lo hi : ℕ) → Halves lo hi
  unfolding own_half other_half
  halves lo hi = elim (Bool-cases (ltb ((lo + hi) / 2) self)) [
    | inl e ↦ self_above (ground arith) (rw (e, own_half) refl) (rw (e, other_half) refl)
    | inr e ↦ self_below (ground arith) (rw (e, own_half) refl) (rw (e, other_half) refl)
  ]

  -- Both ends of a range around the index, and its length.
  abbrev pub IsAround : ℕ → ℕ × ℕ → Type 0
  IsAround current (lo, hi) = (lo ≤ self) × (self ≤ hi) × (hi < lo + 2 ^ current)

  pub own-IsAround :
      (current lo hi : ℕ) → IsAround (suc current) (lo, hi) → IsAround current (own_half self lo hi)
  own-IsAround current lo hi (a, b, c) = elim (halves lo hi) [
    | self_above m e f ↦
        subst (IsAround current) (sym e)
          ((omega arith, omega arith, omega (arith, pow-suc 2 current)))
    | self_below m e f ↦
        subst (IsAround current) (sym e)
          ((omega arith, omega arith, omega (arith, pow-suc 2 current)))
  ]

  -- What lies in one half, in the other, or in both.
  pub own-Between :
      (lo hi i : ℕ)
      → lo ≤ self
      → self ≤ hi
      → IsBetween i (own_half self lo hi)
      → IsBetween i (lo, hi)
  own-Between lo hi i a b h = elim (halves lo hi) [
    | self_above m e f ↦ (let (x, y) = subst (IsBetween i) e h in (omega arith, omega arith))
    | self_below m e f ↦ (let (x, y) = subst (IsBetween i) e h in (omega arith, omega arith))
  ]

  pub other-Between :
      (lo hi i : ℕ)
      → lo ≤ self
      → self ≤ hi
      → IsBetween i (other_half self lo hi)
      → IsBetween i (lo, hi) × (i ≢ self)
  other-Between lo hi i a b h = elim (halves lo hi) [
    | self_above m e f ↦
        (let (x, y) = subst (IsBetween i) f h in ((omega arith, omega arith), λ g. omega arith))
    | self_below m e f ↦
        (let (x, y) = subst (IsBetween i) f h in ((omega arith, omega arith), λ g. omega arith))
  ]

  pub apart :
      (lo hi i : ℕ) → IsBetween i (own_half self lo hi) → IsBetween i (other_half self lo hi) → ⊥
  apart lo hi i h k = elim (halves lo hi) [
    | self_above m e f ↦
        (let (x, y) = subst (IsBetween i) e h in
          let (z, w) = subst (IsBetween i) f k in omega arith)
    | self_below m e f ↦
        (let (x, y) = subst (IsBetween i) e h in
          let (z, w) = subst (IsBetween i) f k in omega arith)
  ]

  pub either :
      (lo hi i : ℕ)
      → IsBetween i (lo, hi)
      → IsBetween i (own_half self lo hi) ⊎ IsBetween i (other_half self lo hi)
  either lo hi i (a, b) = elim (halves lo hi) [
    | self_above m e f ↦ elim (Bool-cases (ltb ((lo + hi) / 2) i)) [
      | inl g ↦ inl (subst (IsBetween i) (sym e) ((ground arith, b)))
      | inr g ↦ inr (subst (IsBetween i) (sym f) ((a, ground arith)))
    ]
    | self_below m e f ↦ elim (Bool-cases (ltb ((lo + hi) / 2) i)) [
      | inl g ↦ inr (subst (IsBetween i) (sym f) ((ground arith, b)))
      | inr g ↦ inl (subst (IsBetween i) (sym e) ((a, ground arith)))
    ]
  ]

  -- The rounds of the loop.
  pub narrow_here :
      (current lo hi : ℕ) → narrow self (suc current) (suc current) lo hi ≡ other_half self lo hi
  unfolding narrow
  narrow_here current lo hi = rw (==_refl (suc current)) refl

  pub narrow_below :
      (level current lo hi : ℕ)
      → level ≤ current
      → narrow self level (suc current) lo hi
        ≡ narrow self level current (own_half self lo hi).0 (own_half self lo hi).1
  unfolding narrow
  narrow_below level current lo hi h = elim (Bool-cases (suc current == level)) [
    | inl e ↦ absurd (ground arith)
    | inr e ↦ rw e refl
  ]
