-- ===== src/Types/IdSet.antt =====
-- overhead/types.go: sets of replica IDs.
--
-- The map's keys stand as a list; its order is the order in which ForEach and RangeWhile meet them,
-- which Go leaves open.
use optilog_artifacts.Prelude.{
  ℕ, suc, ◌+◌, ◌≤◌, ◌≡◌, refl, ap, sym, subst, ==_iff, Bool, true, false, not, ◌&&◌, ◌||◌, List, [],
  ◌∷◌, ◌==◌, if◌then◌else◌, length, keep, arith, Bool-cases, inl, inr,
}

abbrev pub IdSet : Type 0
IdSet = List ℕ

unfoldable pub new_id_set : IdSet
new_id_set = []

unfoldable pub contains : ℕ → IdSet → Bool
contains id [] = false
contains id (x ∷ s) = (x == id) || contains id s

unfoldable pub add : ℕ → IdSet → IdSet
unfolding contains
add id s = if contains id s then s else id ∷ s

unfoldable pub len : IdSet → ℕ
len s = length s

-- The IDs that RangeWhile passes to the function, which stops it with false.
unfoldable pub range_while : (ℕ → Bool) → IdSet → List ℕ
range_while f [] = []
range_while f (x ∷ s) = let rest = range_while f s in if f x then x ∷ rest else x ∷ []

-- No ID stands twice.
abbrev pub AreDistinct : IdSet → Type 0
AreDistinct [] = Unit {0}
AreDistinct (x ∷ s) = (contains x s ≡ false) × AreDistinct s

pub contains-add : (id k : ℕ) (s : IdSet) → contains k (add id s) ≡ ((id == k) || contains k s)
unfolding add contains
contains-add id k s = ground arith

pub len-add : (id : ℕ) (s : IdSet) → len (add id s) ≤ len s + 1
unfolding add len
len-add id s = ground arith

contains-keep :
    (p : ℕ → Bool) (k : ℕ) (s : IdSet) → contains k s ≡ false → contains k (keep p s) ≡ false
unfolding contains
contains-keep p k [] h = refl
contains-keep p k (x ∷ s) h = ground (arith, contains-keep p k s)

-- What passes a test and is not the ID `a`.
abbrev other : (ℕ → Bool) → ℕ → ℕ → Bool
other p a k = not (a == k) && p k

keep_absent :
    (p : ℕ → Bool) (a : ℕ) (s : IdSet)
    → contains a s ≡ false
    → length (keep (other p a) s) ≡ length (keep p s)
unfolding contains
keep_absent p a [] h = refl
keep_absent p a (x ∷ s) h = ground (arith, keep_absent p a s)

keep-other :
    (p : ℕ → Bool) (a : ℕ) (s : IdSet)
    → AreDistinct s
    → length (keep p s) ≤ length (keep (other p a) s) + 1
unfolding contains
keep-other p a [] d = ground arith
keep-other p a (x ∷ s) (f, d) = elim (Bool-cases (a == x)) [
  | inl e ↦
      ground
        (arith, keep_absent p a s (subst (λ k. contains k s ≡ false) (sym ((==_iff a x).0 e)) f))
  | inr e ↦ ground (arith, keep-other p a s d)
]

keep_cong : (p q : ℕ → Bool) (s : IdSet) → ((k : ℕ) → p k ≡ q k) → keep p s ≡ keep q s
keep_cong p q [] e = refl
keep_cong p q (x ∷ s) e = ground (arith, e x, keep_cong p q s e)

-- At most as many IDs are lost as are left out.
pub keep_outside :
    (out s : IdSet)
    → AreDistinct s
    → length s ≤ length (keep (λ k. not (contains k out)) s) + length out
unfolding contains
keep_outside [] s d = omega (arith, all s)
  where
    all : (s : IdSet) → length (keep (λ k. true) s) ≡ length s
    all [] = refl
    all (x ∷ s) = ap suc (all s)
keep_outside (o ∷ out) s d =
    let p = λ (k : ℕ). not (contains k out) in
    omega (
      arith,
      keep_outside out s d,
      keep-other p o s d,
      ap length
          (keep_cong (other p o) (λ k. not ((o == k) || contains k out)) s (λ k. ground arith)),
    )
