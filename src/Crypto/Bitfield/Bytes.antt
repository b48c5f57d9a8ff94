-- ===== src/Crypto/Bitfield/Bytes.antt =====
-- One byte of the field of overhead/crypto/bitfield.go, checked over all its values.
use Prim.Native.Nat.{bit_or}
use optilog_artifacts.Prelude.{
  ℕ, zero, suc, ◌+◌, ◌^◌, ◌<◌, ◌≡◌, refl, Bool, true, false, ◌&&◌, ◌||◌, not, ◌==◌, ltb, arith,
  if◌then◌else◌,
}
use optilog_artifacts.Crypto.Bitfield.{has_bit}

holds_below : ℕ → (ℕ → Bool) → Bool
holds_below zero p = true
holds_below (suc n) p = p n && holds_below n p

below-holds : (n : ℕ) (p : ℕ → Bool) (x : ℕ) → holds_below n p ≡ true → x < n → p x ≡ true
unfolding holds_below
below-holds zero p x h lt = absurd (omega arith)
below-holds (suc n) p x h lt = ground (arith, below-holds n p x)

same : Bool → Bool → Bool
same true b = b
same false b = not b

abbrev pub bit_value : Bool → ℕ
bit_value b = if b then 1 else 0

abbrev pub count_from : ℕ → ℕ → ℕ → ℕ
count_from zero bit b = 0
count_from (suc n) bit b = bit_value (has_bit b bit) + count_from n (bit + 1) b

-- What setting bit i of a byte does to bit j.
or_table :
    (i : ℕ)
    → i < 8
    → holds_below 8
        (λ j. holds_below 256 (λ b. same (has_bit (bit_or b (2 ^ i)) j) ((i == j) || has_bit b j)))
      ≡ true
unfolding holds_below same
or_table zero lt = refl
or_table (suc zero) lt = refl
or_table (suc (suc zero)) lt = refl
or_table (suc (suc (suc zero))) lt = refl
or_table (suc (suc (suc (suc zero)))) lt = refl
or_table (suc (suc (suc (suc (suc zero))))) lt = refl
or_table (suc (suc (suc (suc (suc (suc zero)))))) lt = refl
or_table (suc (suc (suc (suc (suc (suc (suc zero))))))) lt = refl
or_table (suc (suc (suc (suc (suc (suc (suc (suc i)))))))) lt = absurd (omega arith)

-- Setting a bit keeps a byte a byte, and adds one to the bits that are set, if it was not.
set_table :
    (i : ℕ)
    → i < 8
    → holds_below 256 (λ b.
      ltb (bit_or b (2 ^ i)) 256
      && (count_from 8 0 (bit_or b (2 ^ i))
          == (if has_bit b i then count_from 8 0 b else count_from 8 0 b + 1)))
      ≡ true
unfolding holds_below
set_table zero lt = refl
set_table (suc zero) lt = refl
set_table (suc (suc zero)) lt = refl
set_table (suc (suc (suc zero))) lt = refl
set_table (suc (suc (suc (suc zero)))) lt = refl
set_table (suc (suc (suc (suc (suc zero))))) lt = refl
set_table (suc (suc (suc (suc (suc (suc zero)))))) lt = refl
set_table (suc (suc (suc (suc (suc (suc (suc zero))))))) lt = refl
set_table (suc (suc (suc (suc (suc (suc (suc (suc i)))))))) lt = absurd (omega arith)

same_iff : (a b : Bool) → same a b ≡ true → a ≡ b
unfolding same
same_iff true true e = refl
same_iff true false e = cc
same_iff false true e = cc
same_iff false false e = refl

pub has_bit-bit_or :
    (b i j : ℕ) → b < 256 → i < 8 → j < 8 → has_bit (bit_or b (2 ^ i)) j ≡ ((i == j) || has_bit b j)
has_bit-bit_or b i j hb hi hj = same_iff _ _ (
    below-holds 256 (λ b. same (has_bit (bit_or b (2 ^ i)) j) ((i == j) || has_bit b j)) b
      (below-holds 8
        (λ j. holds_below 256 (λ b. same (has_bit (bit_or b (2 ^ i)) j) ((i == j) || has_bit b j)))
        j (or_table i hi) hj)
      hb)

pub bit_or-counted :
    (b i : ℕ)
    → b < 256
    → i < 8
    → (bit_or b (2 ^ i) < 256)
      × (count_from 8 0 (bit_or b (2 ^ i))
          ≡ (if has_bit b i then count_from 8 0 b else count_from 8 0 b + 1))
bit_or-counted b i hb hi =
    let h =
      below-holds 256
        (λ b.
          ltb (bit_or b (2 ^ i)) 256
          && (count_from 8 0 (bit_or b (2 ^ i))
              == (if has_bit b i then count_from 8 0 b else count_from 8 0 b + 1)))
        b (set_table i hi) hb in
    (ground arith, ground arith)

zero_table : holds_below 8 (λ j. not (has_bit 0 j)) ≡ true
unfolding holds_below
zero_table = refl

pub has_bit_zero : (j : ℕ) → j < 8 → has_bit 0 j ≡ false
has_bit_zero j h = let q = below-holds 8 (λ j. not (has_bit 0 j)) j zero_table h in ground arith

pub count_zero : count_from 8 0 0 ≡ 0
count_zero = refl
