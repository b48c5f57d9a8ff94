-- ===== src/Handel/Session/Pending.antt =====
-- The contributions that wait for their verification, in overhead/handel/session.go.
use optilog_artifacts.Prelude.{
  ℕ, zero, suc, ◌+◌, ◌/◌, Bool, true, false, List, [], ◌∷◌, ◌==◌, ltb, leb, if◌then◌else◌, length,
  set,
}
use optilog_artifacts.Prelude.Integers.{ℤ, negsuc, pos}
use optilog_artifacts.Prelude.Dict.{Dict, lookup}
use optilog_artifacts.Handel.Session.{
  Contribution, Level, Config, Session, level_at, put_level, valid_level, or_zero,
}
use optilog_artifacts.Handel.Session.Score.{score}

-- sort.Search between i and j, on fuel: the length is enough, since each round halves the range.
unfoldable pub search_from : ℕ → (ℕ → Bool) → ℕ → ℕ → ℕ
search_from zero f i j = i
search_from (suc fuel) f i j =
    let h = (i + j) / 2 in
    let upper = search_from fuel f (h + 1) j in
    let lower = search_from fuel f i h in if ltb i j then (if f h then lower else upper) else i

unfoldable pub search : ℕ → (ℕ → Bool) → ℕ
unfolding search_from
search n f = search_from (suc n) f 0 n

unfoldable pub insert_at : ℕ → Contribution → List Contribution → List Contribution
insert_at i c [] = c ∷ []
insert_at zero c (x ∷ xs) = c ∷ x ∷ xs
insert_at (suc i) c (x ∷ xs) = x ∷ insert_at i c xs

abbrev pub priority : Dict ℕ → ℕ → ℕ
priority vp sender = or_zero (lookup sender vp)

-- Whether a contribution of the sender stands at the place.
abbrev pub is_from : ℕ → ℕ → List Contribution → Bool
is_from sender i [] = false
is_from sender zero (x ∷ xs) = x.sender == sender
is_from sender (suc i) (x ∷ xs) = is_from sender i xs

abbrev pub sender_at : List Contribution → ℕ → ℕ
sender_at [] i = 0
sender_at (x ∷ xs) zero = x.sender
sender_at (x ∷ xs) (suc i) = sender_at xs i

unfoldable pub insert_sorted : Contribution → Level → Level
unfolding search insert_at
insert_sorted c level =
    let i =
      search (length level.pending)
        (λ i. leb (priority level.vp (sender_at level.pending i)) (priority level.vp c.sender)) in
    if is_from c.sender i level.pending
    then record level { pending = set level.pending i c }
    else record level { pending = insert_at i c level.pending }

abbrev pub is_negative : ℤ → Bool
is_negative (pos n) = false
is_negative (negsuc n) = true

unfoldable pub insert_pending : Config → Contribution → Session → Session
unfolding insert_sorted
insert_pending config c s =
    if valid_level config c.level
    then (if is_negative (score config c s)
        then s
        else put_level c.level (insert_sorted c (level_at c.level s)) s)
    else s
