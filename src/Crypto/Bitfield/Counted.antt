-- ===== src/Crypto/Bitfield/Counted.antt =====
-- The length of the field of overhead/crypto/bitfield.go, and its bytes.
use Prim.Native.Nat.{bit_or}
use optilog_artifacts.Prelude.{
  ℕ, zero, suc, ◌+◌, ◌-◌, ◌/◌, ◌%◌, ◌^◌, ◌<◌, ◌≡◌, refl, sym, ap, ◌∙◌, subst, Bool, true, false,
  some, List, [], ◌∷◌, ◌++◌, ◌==◌, leb, if◌then◌else◌, length, get_or, set, replicate, arith,
  Bool-cases, inl, inr, length-append,
}
use optilog_artifacts.Crypto.Bitfield.{
  Bitfield, extend, has_bit, is_set, set_bit, bytes, add, contains, range_byte, range_bytes,
  range_while, for_each, from_bytes,
}
use optilog_artifacts.Crypto.Bitfield.Bytes.{bit_or-counted, count_zero, count_from}
use optilog_artifacts.Crypto.Bitfield.Members.{
  read, AreBytes, grown, grown-length, get_or-AreBytes, added, contains-add,
}

-- The number of bits that are set.
total : List ℕ → ℕ
total [] = 0
total (b ∷ bs) = count_from 8 0 b + total bs

-- The field is one of bytes, and its length is the number of its members.
pub record IsValid (bf : Bitfield) : Type 0 where
  pub are_bytes : AreBytes bf.octets
  pub counted : bf.len ≡ length (for_each bf)

total-append : (xs : List ℕ) (n : ℕ) → total (xs ++ replicate n 0) ≡ total xs
unfolding total
total-append [] zero = refl
total-append [] (suc n) = omega (arith, total-append [] n, count_zero)
total-append (x ∷ xs) n = omega (arith, total-append xs n)

bytes-append : (xs : List ℕ) (n : ℕ) → AreBytes xs → AreBytes (xs ++ replicate n 0)
bytes-append [] zero h = tt
bytes-append [] (suc n) h = (omega arith, bytes-append [] n tt)
bytes-append (x ∷ xs) n h = (h.0, bytes-append xs n h.1)

bytes-set : (xs : List ℕ) (i v : ℕ) → AreBytes xs → v < 256 → AreBytes (set xs i v)
bytes-set [] i v h lt = h
bytes-set (x ∷ xs) zero v h lt = (lt, h.1)
bytes-set (x ∷ xs) (suc i) v h lt = (h.0, bytes-set xs i v h.1 lt)

total-set :
    (xs : List ℕ) (i v : ℕ)
    → i < length xs
    → total (set xs i v) + count_from 8 0 (get_or xs i 0) ≡ total xs + count_from 8 0 v
unfolding total
total-set [] i v h = absurd (omega arith)
total-set (x ∷ xs) zero v h = omega arith
total-set (x ∷ xs) (suc i) v h = omega (arith, total-set xs i v (omega arith))

-- What RangeWhile passes to a function that never stops it: an ID for each bit.
range_byte-length :
    (i b n bit : ℕ)
    → (length (range_byte (λ id. true) i b n bit).0 ≡ count_from n bit b)
      × ((range_byte (λ id. true) i b n bit).1 ≡ true)
unfolding range_byte
range_byte-length i b zero bit = (refl, refl)
range_byte-length i b (suc n) bit =
    let (l, on) = range_byte-length i b n (bit + 1) in
    elim (Bool-cases (has_bit b bit)) [
      | inl e ↦ rw e (omega (arith, l), on)
      | inr e ↦ rw e (omega (arith, l), on)
    ]

range_bytes-length : (i : ℕ) (xs : List ℕ) → length (range_bytes (λ id. true) i xs) ≡ total xs
unfolding range_bytes total
range_bytes-length i [] = refl
range_bytes-length i (b ∷ bs) =
    let (l, on) = range_byte-length i b 8 0 in
    rw on (
      omega (
        arith,
        length-append (range_byte (λ id. true) i b 8 0).0 (range_bytes (λ id. true) (i + 1) bs),
        l,
        range_bytes-length (i + 1) bs,
      ))

for_each-length : (bf : Bitfield) → length (for_each bf) ≡ total bf.octets
unfolding for_each range_while
for_each-length bf = range_bytes-length 0 bf.octets

grown-total : (i : ℕ) (bf : Bitfield) → total (grown i bf).octets ≡ total bf.octets
unfolding extend
grown-total i bf = elim (Bool-cases (leb (length bf.octets) i)) [
  | inl e ↦ rw e (total-append bf.octets (i + 1 - length bf.octets))
  | inr e ↦ rw e refl
]

grown-bytes : (i : ℕ) (bf : Bitfield) → AreBytes bf.octets → AreBytes (grown i bf).octets
unfolding extend
grown-bytes i bf h = elim (Bool-cases (leb (length bf.octets) i)) [
  | inl e ↦ rw e (bytes-append bf.octets (i + 1 - length bf.octets) h)
  | inr e ↦ rw e h
]

grown-len : (i : ℕ) (bf : Bitfield) → (grown i bf).len ≡ bf.len
unfolding extend
grown-len i bf = elim (Bool-cases (leb (length bf.octets) i)) [
  | inl e ↦ rw e refl
  | inr e ↦ rw e refl
]

-- The byte that Add changes.
module _ (id : ℕ) (bf : Bitfield) (h : AreBytes bf.octets) where
  abbrev byte : ℕ
  byte = read (id / 8) (grown (id / 8) bf)

  byte-counted :
      (bit_or byte (2 ^ (id % 8)) < 256)
      × (count_from 8 0 (bit_or byte (2 ^ (id % 8)))
          ≡ (if has_bit byte (id % 8) then count_from 8 0 byte else count_from 8 0 byte + 1))
  byte-counted =
      bit_or-counted byte (id % 8)
        (get_or-AreBytes (grown (id / 8) bf).octets (id / 8) (grown-bytes (id / 8) bf h))
        (omega arith)

  added-total : bf.len ≡ total bf.octets → (added id bf).len ≡ total (added id bf).octets
  unfolding set_bit is_set
  added-total e = counted (has_bit byte (id % 8)) byte-counted.1
    where
      sums :
          total (set (grown (id / 8) bf).octets (id / 8) (bit_or byte (2 ^ (id % 8))))
            + count_from 8 0 byte
          ≡ total bf.octets + count_from 8 0 (bit_or byte (2 ^ (id % 8)))
      sums = omega (
        arith,
        total-set (grown (id / 8) bf).octets (id / 8) (bit_or byte (2 ^ (id % 8)))
            (grown-length (id / 8) bf),
        grown-total (id / 8) bf,
      )

      counted :
          (b : Bool)
          → count_from 8 0 (bit_or byte (2 ^ (id % 8)))
            ≡ (if b then count_from 8 0 byte else count_from 8 0 byte + 1)
          → (if b then (grown (id / 8) bf).len else (grown (id / 8) bf).len + 1)
            ≡ total (set (grown (id / 8) bf).octets (id / 8) (bit_or byte (2 ^ (id % 8))))
      counted true q = omega (arith, sums, grown-len (id / 8) bf, e, q)
      counted false q = omega (arith, sums, grown-len (id / 8) bf, e, q)

  added-bytes : AreBytes (added id bf).octets
  unfolding set_bit
  added-bytes =
      bytes-set (grown (id / 8) bf).octets (id / 8) _ (grown-bytes (id / 8) bf h) byte-counted.0

-- Add keeps the length at the number of members.
add-IsValid : (id : ℕ) (bf bf' : Bitfield) → IsValid bf → add (suc id) bf ≡ some bf' → IsValid bf'
unfolding add
add-IsValid id bf bf' v e =
    let same : added id bf ≡ bf' = ground arith in
    subst IsValid same (record {
      are_bytes = added-bytes id bf v.are_bytes;
      counted =
          added-total id bf v.are_bytes (v.counted ∙ for_each-length bf)
          ∙ sym (for_each-length (added id bf));
    })

-- The bytes of a field give it back.
from_bytes-bytes : (bf : Bitfield) → IsValid bf → from_bytes (bytes bf) ≡ bf
unfolding from_bytes bytes for_each range_while
from_bytes-bytes bf v =
    ap (λ n. (let b : Bitfield = record { octets = bf.octets; len = n } in b)) (sym v.counted)

-- What adding an ID makes of a set: a valid set of that ID and the members, which its bytes give back.
pub record Adds (id : ℕ) (bf bf' : Bitfield) : Type 0 where
  pub valid : IsValid bf'
  pub members :
      (k : ℕ) → contains (suc k) bf' ≡ (if id == k then some true else contains (suc k) bf)
  pub decoded : from_bytes (bytes bf') ≡ bf'

-- Adding an ID above 0 to a valid bit field, one of bytes whose length is the number of its
-- members, leaves a valid one that contains that ID and of the others those that it contained, and
-- that BitfieldFromBytes makes again of its bytes.
pub add-Adds :
    (id : ℕ) (bf bf' : Bitfield) → IsValid bf → add (suc id) bf ≡ some bf' → Adds id bf bf'
add-Adds id bf bf' v e =
    let valid = add-IsValid id bf bf' v e in
    record {
      valid = valid;
      members = λ k. contains-add id k bf bf' v.are_bytes e;
      decoded = from_bytes-bytes bf' valid;
    }
