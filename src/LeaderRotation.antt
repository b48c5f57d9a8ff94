-- ===== src/LeaderRotation.antt =====
-- overhead/leaderrotation: the leader of a view. `none` is a panic, or, of the round-robin loop,
-- that its fuel has run out.
--
-- The configuration is read as its number of replicas and, for an ID, whether it is the ID of a
-- replica that is active. The loop of the round-robin rotation gets as fuel twice the number of
-- replicas: as many views in a row try every ID, and a second time where the view overflows.
pub mod RoundRobin
pub mod Carousel
use optilog_artifacts.Prelude.{
  ℕ, zero, suc, ◌+◌, ◌*◌, ◌%◌, Bool, Option, none, some, ◌==◌, if◌then◌else◌,
}
use optilog_artifacts.Prelude.Words.{u32_mod, u64_mod, add_u64}

unfoldable pub choose_round_robin : ℕ → ℕ → Option ℕ
choose_round_robin view n = if n == 0 then none else some ((view % n + 1) % u32_mod)

-- NewFixed is given the leader.
unfoldable pub fixed : ℕ → ℕ → ℕ
fixed leader view = leader

module _ (n : ℕ) (active : ℕ → Bool) where
  unfoldable pub stop_at : Option ℕ → Option ℕ → Option ℕ
  stop_at none rest = none
  stop_at (some leader) rest = if active leader then some leader else rest

  unfoldable pub next_active : ℕ → ℕ → Option ℕ
  unfolding stop_at choose_round_robin
  next_active zero view = none
  next_active (suc fuel) view =
      stop_at (choose_round_robin view n) (next_active fuel (add_u64 view 1))

  unfoldable pub round_robin : ℕ → Option ℕ
  unfolding next_active
  round_robin view = next_active (2 * n) view
