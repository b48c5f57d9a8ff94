-- ===== src/Prelude/Keys.antt =====
-- Sets and recency lists of byte strings.
use optilog_artifacts.Prelude.{
  ℕ, suc, ◌+◌, ◌≡◌, refl, ap, Bool, true, false, ◌||◌, List, [], ◌∷◌, if◌then◌else◌, arith, length,
  list_eq, list_eq_refl, list_eq_sound, Bool-cases, inl, inr,
}

abbrev pub Key : Type 0
Key = List ℕ

unfoldable pub has_key : Key → List Key → Bool
has_key k [] = false
has_key k (x ∷ xs) = list_eq x k || has_key k xs

unfoldable pub remove_key : Key → List Key → List Key
remove_key k [] = []
remove_key k (x ∷ xs) = let rest = remove_key k xs in if list_eq x k then rest else x ∷ rest

-- The last of a list that is not empty, and the list without it.
unfoldable pub split_last : Key → List Key → List Key × Key
split_last x [] = ([], x)
split_last x (y ∷ ys) = let (front, last) = split_last y ys in (x ∷ front, last)

-- No key stands twice.
abbrev pub AreDistinct : List Key → Type 0
AreDistinct [] = Unit {0}
AreDistinct (x ∷ xs) = (has_key x xs ≡ false) × AreDistinct xs

pub has_key-remove_key :
    (k j : Key) (xs : List Key)
    → has_key j (remove_key k xs) ≡ (if list_eq k j then false else has_key j xs)
unfolding has_key remove_key
has_key-remove_key k j [] = elim (Bool-cases (list_eq k j)) [
  | inl e ↦ rw e refl
  | inr e ↦ rw e refl
]
has_key-remove_key k j (x ∷ xs) = ground (
  arith,
  has_key-remove_key k j xs,
  list_eq_sound x k,
  list_eq_sound x j,
  list_eq_sound k j,
  list_eq_refl k,
  list_eq_refl x,
  list_eq_refl j,
)

pub remove_key_absent :
    (k : Key) (xs : List Key) → has_key k xs ≡ false → length (remove_key k xs) ≡ length xs
unfolding has_key remove_key
remove_key_absent k [] h = refl
remove_key_absent k (x ∷ xs) h = ground (arith, remove_key_absent k xs)

pub length-remove_key :
    (k : Key) (xs : List Key)
    → AreDistinct xs
    → has_key k xs ≡ true
    → length (remove_key k xs) + 1 ≡ length xs
unfolding has_key remove_key
length-remove_key k [] d h = absurd (ground arith)
length-remove_key k (x ∷ xs) d h =
    ground (arith, length-remove_key k xs, remove_key_absent k xs, list_eq_sound x k)

pub remove_key-AreDistinct :
    (k : Key) (xs : List Key) → AreDistinct xs → AreDistinct (remove_key k xs)
unfolding remove_key
remove_key-AreDistinct k [] d = tt
remove_key-AreDistinct k (x ∷ xs) d = elim (Bool-cases (list_eq x k)) [
  | inl e ↦ rw (e, remove_key) (remove_key-AreDistinct k xs d.1)
  | inr e ↦
      rw (e, remove_key)
        ((ground (arith, has_key-remove_key k x xs)), remove_key-AreDistinct k xs d.1)
]

pub split_last-has_key :
    (k x : Key) (xs : List Key)
    → has_key k (x ∷ xs) ≡ (list_eq (split_last x xs).1 k || has_key k (split_last x xs).0)
unfolding split_last has_key
split_last-has_key k x [] = refl
split_last-has_key k x (y ∷ ys) = ground (arith, split_last-has_key k y ys)

pub split_last-length : (x : Key) (xs : List Key) → length (split_last x xs).0 ≡ length xs
unfolding split_last
split_last-length x [] = refl
split_last-length x (y ∷ ys) = ap suc (split_last-length y ys)

pub split_last-AreDistinct :
    (x : Key) (xs : List Key)
    → AreDistinct (x ∷ xs)
    → AreDistinct (split_last x xs).0 × (has_key (split_last x xs).1 (split_last x xs).0 ≡ false)
unfolding split_last has_key
split_last-AreDistinct x [] d = (tt, refl)
split_last-AreDistinct x (y ∷ ys) d =
    let (e, f) = split_last-AreDistinct y ys d.1 in
    (
      (ground (arith, split_last-has_key x y ys), e),
      ground
          (arith, split_last-has_key x y ys, list_eq_sound x (split_last y ys).1, list_eq_refl x),
    )
