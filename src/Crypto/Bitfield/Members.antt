-- ===== src/Crypto/Bitfield/Members.antt =====
-- The field of overhead/crypto/bitfield.go as a set of IDs.
use Prim.Native.Nat.{bit_or}
use optilog_artifacts.Prelude.{
  ℕ, zero, suc, ◌+◌, ◌-◌, ◌/◌, ◌%◌, ◌^◌, ◌<◌, ◌≤◌, ◌≡◌, refl, ap, ◌∙◌, subst, true, false, ◌||◌,
  some, List, [], ◌∷◌, ◌++◌, ◌==◌, leb, if◌then◌else◌, length, get_or, set, replicate, All, arith,
  Bool-cases, inl, inr, length-append, length-replicate, get_or-set_self, get_or-set_ne, ==_iff,
}
use optilog_artifacts.Crypto.Bitfield.{Bitfield, extend, has_bit, is_set, set_bit, add, contains}
use optilog_artifacts.Crypto.Bitfield.Bytes.{has_bit-bit_or, has_bit_zero}

abbrev pub read : ℕ → Bitfield → ℕ
read i bf = get_or bf.octets i 0

get_or-extend : (xs : List ℕ) (n i : ℕ) → get_or (xs ++ replicate n 0) i 0 ≡ get_or xs i 0
get_or-extend [] zero i = refl
get_or-extend [] (suc n) zero = refl
get_or-extend [] (suc n) (suc i) = get_or-extend [] n i
get_or-extend (x ∷ xs) n zero = refl
get_or-extend (x ∷ xs) n (suc i) = get_or-extend xs n i

get_or_outside : (xs : List ℕ) (i : ℕ) → length xs ≤ i → get_or xs i 0 ≡ 0
get_or_outside [] i h = refl
get_or_outside (x ∷ xs) zero h = absurd (omega arith)
get_or_outside (x ∷ xs) (suc i) h = get_or_outside xs i (omega arith)

contains-read :
    (k : ℕ) (bf : Bitfield) → contains (suc k) bf ≡ some (has_bit (read (k / 8) bf) (k % 8))
unfolding contains is_set
contains-read k bf = elim (Bool-cases (leb (length bf.octets) (k / 8))) [
  | inl e ↦
      let out = get_or_outside bf.octets (k / 8) (ground arith) in
      let no : has_bit (read (k / 8) bf) (k % 8) ≡ false =
        ap (λ b. has_bit b (k % 8)) out ∙ has_bit_zero (k % 8) (omega arith) in
      rw (e, no) refl
  | inr e ↦ rw e refl
]

-- The field as Add has made it long enough.
abbrev pub grown : ℕ → Bitfield → Bitfield
grown i bf = if leb (length bf.octets) i then extend (i + 1 - length bf.octets) bf else bf

grown-read : (i j : ℕ) (bf : Bitfield) → read j (grown i bf) ≡ read j bf
unfolding extend
grown-read i j bf = elim (Bool-cases (leb (length bf.octets) i)) [
  | inl e ↦ rw e (get_or-extend bf.octets (i + 1 - length bf.octets) j)
  | inr e ↦ rw e refl
]

pub grown-length : (i : ℕ) (bf : Bitfield) → i < length (grown i bf).octets
unfolding extend
grown-length i bf = elim (Bool-cases (leb (length bf.octets) i)) [
  | inl e ↦ rw e (
      omega (
        arith,
        length-append bf.octets (replicate (i + 1 - length bf.octets) 0),
        length-replicate {A = ℕ} (i + 1 - length bf.octets) 0,
      ))
  | inr e ↦ rw e (ground arith)
]

abbrev pub AreBytes : List ℕ → Type 0
AreBytes = All (λ (b : ℕ). b < 256)

pub get_or-AreBytes : (xs : List ℕ) (i : ℕ) → AreBytes xs → get_or xs i 0 < 256
get_or-AreBytes [] i h = omega arith
get_or-AreBytes (x ∷ xs) zero h = h.0
get_or-AreBytes (x ∷ xs) (suc i) h = get_or-AreBytes xs i h.1

abbrev pub added : ℕ → Bitfield → Bitfield
added id bf = set_bit (id / 8) (id % 8) (grown (id / 8) bf)

added-read :
    (id j : ℕ) (bf : Bitfield)
    → read j (added id bf) ≡ (if id / 8 == j then bit_or (read j bf) (2 ^ (id % 8)) else read j bf)
unfolding set_bit
added-read id j bf = elim (Bool-cases (id / 8 == j)) [
  | inl e ↦
      let here : id / 8 ≡ j = (==_iff (id / 8) j).0 e in
      let byte = bit_or (read (id / 8) (grown (id / 8) bf)) (2 ^ (id % 8)) in
      rw e (
        subst
          (λ i.
            get_or (set (grown (id / 8) bf).octets (id / 8) byte) i 0
            ≡ bit_or (read i bf) (2 ^ (id % 8)))
          here
          (get_or-set_self (grown (id / 8) bf).octets (id / 8) byte 0 (grown-length (id / 8) bf)
            ∙ ap (λ b. bit_or b (2 ^ (id % 8))) (grown-read (id / 8) (id / 8) bf)))
  | inr e ↦
      let byte = bit_or (read (id / 8) (grown (id / 8) bf)) (2 ^ (id % 8)) in
      rw e (
        get_or-set_ne (grown (id / 8) bf).octets byte 0 (λ q. absurd (ground arith))
        ∙ grown-read (id / 8) j bf)
]

added-has_bit :
    (id k : ℕ) (bf : Bitfield)
    → AreBytes bf.octets
    → has_bit (read (k / 8) (added id bf)) (k % 8)
      ≡ ((id == k) || has_bit (read (k / 8) bf) (k % 8))
added-has_bit id k bf h = elim (Bool-cases (id / 8 == k / 8)) [
  | inl e ↦
      ap (λ b. has_bit b (k % 8)) (added-read id (k / 8) bf ∙ rw e refl)
      ∙ has_bit-bit_or (read (k / 8) bf) (id % 8) (k % 8) (get_or-AreBytes bf.octets (k / 8) h)
          (omega arith) (omega arith)
      ∙ ap (λ b. b || has_bit (read (k / 8) bf) (k % 8)) (ground arith)
  | inr e ↦
      let kept : read (k / 8) (added id bf) ≡ read (k / 8) bf =
        added-read id (k / 8) bf ∙ rw e refl in
      ap (λ b. has_bit b (k % 8)) kept
      ∙ ap (λ b. b || has_bit (read (k / 8) bf) (k % 8)) {x = false} {y = id == k} (ground arith)
]

-- After Add, the set contains the ID that was added, and of the others those that it contained.
pub contains-add :
    (id k : ℕ) (bf bf' : Bitfield)
    → AreBytes bf.octets
    → add (suc id) bf ≡ some bf'
    → contains (suc k) bf' ≡ (if id == k then some true else contains (suc k) bf)
unfolding add
contains-add id k bf bf' h e =
    let same : added id bf ≡ bf' = ground arith in
    subst (λ f. contains (suc k) f ≡ (if id == k then some true else contains (suc k) bf)) same
      (ground (arith, contains-read k (added id bf), contains-read k bf, added-has_bit id k bf h))
