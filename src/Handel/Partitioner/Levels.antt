-- ===== src/Handel/Partitioner/Levels.antt =====
-- Each of the other replicas stands at one level of overhead/handel/partitioner.go.
use native.Mathlib.Nat.{pow-suc}
use optilog_artifacts.Prelude.{
  ℕ, zero, suc, ◌+◌, ◌-◌, ◌^◌, ◌≤◌, ◌<◌, ◌≡◌, ◌≢◌, ◌⊎◌, refl, sym, subst, ◌||◌, Option, none, some,
  List, [], ◌∷◌, ◌==◌, ltb, leb, arith, length, Bool-cases, inl, inr,
}
use optilog_artifacts.Handel.Partitioner.{
  Partitioner, index_from, new_partitioner, log_from, max_level, own_half, narrow, range_level,
}
use optilog_artifacts.Handel.Partitioner.Cover.{
  IsBetween, IsAround, own-IsAround, own-Between, other-Between, apart, either, narrow_here,
  narrow_below,
}

module _ (self : ℕ) where
  -- The level of an index that is not the replica's own.
  pub Covered : ℕ → ℕ → ℕ → ℕ → Type 0
  Covered current lo hi i =
      (level : ℕ) × (level ≤ current) × IsBetween i (narrow self level current lo hi)

  pub cover :
      (current lo hi i : ℕ)
      → IsAround self current (lo, hi)
      → IsBetween i (lo, hi)
      → i ≢ self
      → Covered current lo hi i
  unfolding Covered
  cover zero lo hi i (a, b, c) (x, y) ne = absurd (ne (omega arith))
  cover (suc current) lo hi i (a, b, c) h ne = elim (either self lo hi i h) [
    | inl own ↦
        let (level, l, k) =
          cover current (own_half self lo hi).0 (own_half self lo hi).1 i
            (own-IsAround self current lo hi (a, b, c)) own ne in
        (level, omega arith, subst (IsBetween i) (sym (narrow_below self level current lo hi l)) k)
    | inr other ↦
        (suc current, omega arith, subst (IsBetween i) (sym (narrow_here self current lo hi)) other)
  ]

  pub narrow-Between :
      (level current lo hi i : ℕ)
      → level ≤ current
      → IsAround self current (lo, hi)
      → IsBetween i (narrow self level current lo hi)
      → IsBetween i (lo, hi) × (i ≢ self)
  unfolding narrow
  narrow-Between level zero lo hi i l (a, b, c) h = other-Between self lo hi i a b h
  narrow-Between level (suc current) lo hi i l (a, b, c) h =
      elim (Bool-cases (suc current == level)) [
        | inl e ↦ other-Between self lo hi i a b (rw e at h)
        | inr e ↦
            let (x, ne) =
              narrow-Between level current (own_half self lo hi).0 (own_half self lo hi).1 i
                (ground arith) (own-IsAround self current lo hi (a, b, c)) (rw e at h) in
            (own-Between self lo hi i a b x, ne)
      ]

  pub one_level :
      (l m current lo hi i : ℕ)
      → l ≤ current
      → m ≤ current
      → IsAround self current (lo, hi)
      → IsBetween i (narrow self l current lo hi)
      → IsBetween i (narrow self m current lo hi)
      → l ≡ m
  unfolding narrow
  one_level l m zero lo hi i p q r h k = omega arith
  one_level l m (suc current) lo hi i p q r h k = elim (Bool-cases (suc current == l)) [
    | inl e ↦ elim (Bool-cases (suc current == m)) [
      | inl f ↦ ground arith
      | inr f ↦ absurd (apart self lo hi i (below m (ground arith) (rw f at k)) (rw e at h))
    ]
    | inr e ↦ elim (Bool-cases (suc current == m)) [
      | inl f ↦ absurd (apart self lo hi i (below l (ground arith) (rw e at h)) (rw f at k))
      | inr f ↦
          one_level l m current (own_half self lo hi).0 (own_half self lo hi).1 i (ground arith)
            (ground arith) around (rw e at h) (rw f at k)
    ]
  ]
    where
      around : IsAround self current (own_half self lo hi)
      around = own-IsAround self current lo hi r

      below :
          (level : ℕ)
          → level ≤ current
          → IsBetween i (narrow self level current (own_half self lo hi).0 (own_half self lo hi).1)
          → IsBetween i (own_half self lo hi)
      below level l h =
          (narrow-Between level current (own_half self lo hi).0 (own_half self lo hi).1 i l around
            h).0

-- The highest level is enough.
pow_above : (n : ℕ) → n < 2 ^ n
pow_above zero = omega arith
pow_above (suc n) = omega (arith, pow_above n, pow-suc 2 n)

log_enough : (fuel e n : ℕ) → n ≤ 2 ^ (e + fuel) → n ≤ 2 ^ log_from fuel e n
unfolding log_from
log_enough zero e n h = subst (λ k. n ≤ 2 ^ k) (omega arith) h
log_enough (suc fuel) e n h = elim (Bool-cases (leb n (2 ^ e))) [
  | inl t ↦ rw t (ground arith)
  | inr t ↦ rw t (log_enough fuel (e + 1) n (subst (λ k. n ≤ 2 ^ k) (omega arith) h))
]

max_level_enough : (n : ℕ) → n ≤ 2 ^ max_level n
unfolding max_level
max_level_enough n =
    let e : n ≡ 0 + n = omega arith in
    let h : n ≤ 2 ^ n = omega (arith, pow_above n) in log_enough n 0 n (subst (λ k. n ≤ 2 ^ k) e h)

-- An index lies in the range of a level.
abbrev pub IsIn : ℕ → Option (ℕ × ℕ) → Type 0
IsIn i none = ⊥
IsIn i (some (lo, hi)) = (lo ≤ i) × (i ≤ hi)

index_small :
    (i id : ℕ) (ids : List ℕ) → (index_from i id ids ≡ 0) ⊎ (index_from i id ids < i + length ids)
unfolding index_from
index_small i id [] = inl refl
index_small i id (x ∷ xs) = ground (arith, index_small (i + 1) id xs)

module _ (id : ℕ) (ids : List ℕ) where
  abbrev p : Partitioner
  p = new_partitioner id ids

  start-IsAround :
      0 < length ids → IsAround p.self_index (max_level (length ids)) (0, length ids - 1)
  unfolding new_partitioner
  start-IsAround h = (
    omega arith,
    ground (arith, index_small 0 id ids),
    omega (arith, max_level_enough (length ids)),
  )

  -- The ranges that a level of the loop gives.
  range_found :
      (level i : ℕ)
      → level ≤ max_level (length ids)
      → 0 < length ids
      → IsBetween i (narrow p.self_index level (max_level (length ids)) 0 (length ids - 1))
      → IsIn i (range_level p level)
  unfolding range_level new_partitioner
  range_found level i l h b =
      elim (Bool-cases ((length ids == 0) || ltb (max_level (length ids)) level)) [
        | inl e ↦ absurd (ground arith)
        | inr e ↦ rw e b
      ]

  range_narrow :
      (level i : ℕ)
      → IsIn i (range_level p level)
      → (level ≤ max_level (length ids))
        × (0 < length ids)
        × IsBetween i (narrow p.self_index level (max_level (length ids)) 0 (length ids - 1))
  unfolding range_level new_partitioner
  range_narrow level i h =
      elim (Bool-cases ((length ids == 0) || ltb (max_level (length ids)) level)) [
        | inl e ↦ absurd (rw e at h)
        | inr e ↦ (ground arith, ground arith, rw e at h)
      ]

  -- The place of each ID but the replica's own lies in the range of a level that is not above the
  -- highest one.
  pub range_level_covers :
      (i : ℕ)
      → i < length ids
      → i ≢ (new_partitioner id ids).self_index
      → (level : ℕ) × (level ≤ max_level (length ids))
        × IsIn i (range_level (new_partitioner id ids) level)
  unfolding Covered
  range_level_covers i h ne =
      let (level, l, b) =
        cover p.self_index (max_level (length ids)) 0 (length ids - 1) i
          (start-IsAround (omega arith)) (omega arith, omega arith) ne in
      (level, l, range_found level i l (omega arith) b)

  -- A place that lies in the ranges of two levels shows that they are the same level, and is the
  -- place of an ID that is not the replica's own.
  pub range_level_once :
      (i l m : ℕ)
      → IsIn i (range_level (new_partitioner id ids) l)
      → IsIn i (range_level (new_partitioner id ids) m)
      → (l ≡ m) × (i < length ids) × (i ≢ (new_partitioner id ids).self_index)
  range_level_once i l m h k =
      let (x, n, b) = range_narrow l i h in
      let (y, n', c) = range_narrow m i k in
      let around = start-IsAround n in
      let ((u, v), ne) =
        narrow-Between p.self_index l (max_level (length ids)) 0 (length ids - 1) i x around b in
      (
        one_level p.self_index l m (max_level (length ids)) 0 (length ids - 1) i x y around b c,
        omega arith,
        ne,
      )
