-- ===== src/LeaderRotation/RoundRobin.antt =====
-- The loop of overhead/leaderrotation/roundrobin.go ends.
use native.Mathlib.Nat.{mod-lt, mod-eq_of_lt, mul-add-mod_self_left, div-add-mod}
use optilog_artifacts.Prelude.{
  ℕ, zero, suc, ◌+◌, ◌-◌, ◌*◌, ◌/◌, ◌%◌, ◌^◌, ◌≤◌, ◌<◌, ◌≡◌, ap, ◌∙◌, Bool, true, false, Option,
  none, some, arith, Bool-cases, inl, inr, ltb,
}
use optilog_artifacts.Prelude.Words.{u32_mod, u64_mod, add_u64}
use optilog_artifacts.LeaderRotation.{choose_round_robin, stop_at, next_active, round_robin}

module _ (n : ℕ) (active : ℕ → Bool) where
  -- The loop has ended with the ID of an active replica.
  abbrev pub IsFound : Option ℕ → Type 0
  IsFound none = ⊥
  IsFound (some leader) = (1 ≤ leader) × (leader ≤ n) × (active leader ≡ true)

  module _ (positive : 0 < n) (small : n < 2 ^ 32) where
    chosen : (view : ℕ) → choose_round_robin view n ≡ some (view % n + 1)
    unfolding choose_round_robin
    chosen view = ground (
      arith,
      mod-lt view positive,
      mod-eq_of_lt {n = view % n + 1} {m = u32_mod} (omega (arith, mod-lt view positive)),
    )

    stop-IsFound :
        (view : ℕ) (rest : Option ℕ)
        → (active (view % n + 1) ≡ false → IsFound rest)
        → IsFound (stop_at n active (choose_round_robin view n) rest)
    unfolding stop_at
    stop-IsFound view rest f = elim (Bool-cases (active (view % n + 1))) [
      | inl e ↦ rw (chosen view, stop_at, e) ((omega arith, omega (arith, mod-lt view positive), e))
      | inr e ↦ rw (chosen view, stop_at, e) (f e)
    ]

    -- A view within the fuel's reach whose ID is active.
    active_within :
        (fuel view i : ℕ)
        → view < u64_mod
        → i < fuel
        → active (((view + i) % u64_mod) % n + 1) ≡ true
        → IsFound (next_active n active fuel view)
    unfolding next_active
    active_within zero view i b h a = absurd (omega arith)
    active_within (suc fuel) view zero b h a =
        stop-IsFound view (next_active n active fuel (add_u64 view 1))
          (λ e. absurd (ground (arith, ap (λ v. active (v % n + 1)) (mod-eq_of_lt b))))
    active_within (suc fuel) view (suc i) b h a =
        stop-IsFound view (next_active n active fuel (add_u64 view 1)) (λ e.
          active_within fuel (add_u64 view 1) i (omega arith) (omega arith)
            (ap (λ v. active (v % n + 1)) (omega arith) ∙ a))

    -- Every ID comes up within twice the number of replicas, also where the view overflows.
    Reaches : ℕ → ℕ → Type 0
    Reaches view r = (i : ℕ) × (i < 2 * n) × (((view + i) % u64_mod) % n ≡ r)

    at_residue : (q r : ℕ) → r < n → (n * q + r) % n ≡ r
    at_residue q r h = mul-add-mod_self_left n q r ∙ mod-eq_of_lt h

    comes_up :
        (view c r : ℕ)
        → view < u64_mod
        → r < n
        → view ≤ c
        → c < view + n
        → c % n ≡ r
        → Reaches view r
    unfolding Reaches
    comes_up view c r b h l k e = elim (Bool-cases (ltb c u64_mod)) [
      | inl f ↦
          let f' : c < u64_mod = ground arith in
          (c - view, omega arith, ap (λ v. v % n) (omega arith) ∙ e)
      | inr f ↦
          let f' : u64_mod ≤ c = ground arith in
          (u64_mod - view + r, omega arith, ap (λ v. v % n) wrapped ∙ mod-eq_of_lt h)
    ]
      where
        wrapped : (view + (u64_mod - view + r)) % u64_mod ≡ r
        wrapped = omega arith

    reaches : (view r : ℕ) → view < u64_mod → r < n → Reaches view r
    reaches view r b h = elim (Bool-cases (ltb r (view % n))) [
      | inl e ↦
          let e' : r < view % n = ground arith in
          comes_up view (n * (q + 1) + r) r b h
            (omega (arith, div-add-mod view n, mod-lt view positive))
            (omega (arith, div-add-mod view n, mod-lt view positive)) (at_residue (q + 1) r h)
      | inr e ↦
          let e' : view % n ≤ r = ground arith in
          comes_up view (n * q + r) r b h (omega (arith, div-add-mod view n, mod-lt view positive))
            (omega (arith, div-add-mod view n, mod-lt view positive)) (at_residue q r h)
    ]
      where
        q : ℕ
        q = view / n

    -- If one of the replicas is active, the loop of the round-robin rotation ends, from any view
    -- of 64 bits, with the ID of an active replica, after at most twice as many rounds as there
    -- are replicas, of which there are less than 2 ^ 32.
    pub round_robin-IsFound :
        (id view : ℕ)
        → view < u64_mod
        → 1 ≤ id
        → id ≤ n
        → active id ≡ true
        → IsFound (round_robin n active view)
    unfolding round_robin Reaches
    round_robin-IsFound id view b l k a =
        let (i, h, e) = reaches view (id - 1) b (omega arith) in
        active_within (2 * n) view i b h
          (ap (λ r. active (r + 1)) e ∙ (ap active (omega arith) ∙ a))
