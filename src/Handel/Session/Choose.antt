-- ===== src/Handel/Session/Choose.antt =====
-- chooseContribution of overhead/handel/session.go: which contribution is verified next.
use optilog_artifacts.Prelude.{
  ℕ, zero, suc, ◌+◌, Bool, not, ◌&&◌, Option, none, some, List, [], ◌∷◌, ◌++◌, ◌==◌, ltb,
  if◌then◌else◌, length, map,
}
use optilog_artifacts.Prelude.Integers.{pos, gtz, is_zero}
use optilog_artifacts.Prelude.Dict.{lookup}
use optilog_artifacts.Handel.Session.{Contribution, Level, Config, Session, level_at, put_level}
use optilog_artifacts.Handel.Session.Score.{score, has_entry}
use optilog_artifacts.Handel.Session.Pending.{search, insert_at, priority, sender_at}

-- The loop over the contributions from the index i on: the best so far, with its index.
unfoldable pub best_from : ℕ → ℕ → ℕ × Contribution → List Contribution → ℕ × Contribution
best_from window i best [] = best
best_from window i (at, c) (x ∷ xs) =
    best_from window (i + 1) (if ltb i window && gtz x.score c.score then (i, x) else (at, c)) xs

-- The contributions with a score above 0, less the one at the index.
unfoldable pub keep_others : ℕ → ℕ → List Contribution → List Contribution
keep_others at i [] = []
keep_others at i (x ∷ xs) =
    let rest = keep_others at (i + 1) xs in
    if gtz x.score (pos 0) && not (i == at) then x ∷ rest else rest

abbrev pub chosen : ℕ × Contribution → Option Contribution
chosen (at, c) = if is_zero c.score then none else some c

module _ (config : Config) where
  abbrev pub rate : Session → Contribution → Contribution
  rate s c = record c { score = score config c s }

  unfoldable pub choose_rated : Level → ℕ → List Contribution → Option Contribution × Level
  unfolding best_from keep_others
  choose_rated level window [] = (none, level)
  choose_rated level window (x ∷ xs) =
      let best = best_from window 1 (0, x) xs in
      (chosen best, record level { pending = keep_others best.0 0 (x ∷ xs) })

  unfoldable pub choose_from_level : ℕ → Session → Option Contribution × Session
  unfolding choose_rated
  choose_from_level i s =
      let level = level_at i s in
      let (c, level') = choose_rated level s.window.window (map (rate s) level.pending) in
      if level.done then (none, s) else (c, put_level i level' s)

  abbrev pub add_choice : Option Contribution → List Contribution → List Contribution
  add_choice none cs = cs
  add_choice (some c) cs = cs ++ (c ∷ [])

  -- The levels from i on, n of them.
  unfoldable pub choices_from : ℕ → ℕ → List Contribution × Session → List Contribution × Session
  unfolding choose_from_level
  choices_from zero i r = r
  choices_from (suc n) i (cs, s) =
      let (c, s') = choose_from_level i s in
      choices_from n (i + 1) (if (level_at i s).done then (cs, s) else (add_choice c cs, s'))

  unfoldable pub best_choice : ℕ → ℕ × Contribution → List Contribution → ℕ × Contribution
  best_choice i best [] = best
  best_choice i (at, c) (x ∷ xs) =
      best_choice (i + 1) (if gtz x.score c.score then (i, x) else (at, c)) xs

  -- The source takes the level at the index of the choice.
  unfoldable pub put_back : ℕ → Contribution → Session → Session
  unfolding insert_at search
  put_back i c s =
      let level = level_at i s in
      let place =
        search (length level.pending)
          (λ k. ltb (priority level.vp (sender_at level.pending k)) (priority level.vp c.sender)) in
      put_level i (record level { pending = insert_at place c level.pending }) s

  unfoldable pub put_back_others : ℕ → ℕ → List Contribution → Session → Session
  unfolding put_back
  put_back_others best i [] s = s
  put_back_others best i (c ∷ cs) s =
      put_back_others best (i + 1) cs (if i == best then s else put_back i c s)

  -- With whether the individual signature is to be verified.
  unfoldable pub pick : List Contribution → Session → Option (Contribution × Bool) × Session
  unfolding best_choice put_back_others
  pick [] s = (none, s)
  pick (c ∷ cs) s =
      let (at, best) = best_choice 1 (0, c) cs in
      let s' = put_back_others at 0 (c ∷ cs) s in
      (some (best, has_entry (lookup best.sender (level_at best.level s').individual)), s')

  unfoldable pub choose_contribution : Session → Option (Contribution × Bool) × Session
  unfolding choices_from pick
  choose_contribution s = let (cs, s') = choices_from s.active_level_index 1 ([], s) in pick cs s'
