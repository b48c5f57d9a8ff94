-- ===== src/Crypto/Bitfield.antt =====
-- overhead/crypto/bitfield.go: a set of replica IDs as a field of bits.
--
-- The bit of an ID stands at its place less one, so the ID 0 has the bit -1, and shifting by that is
-- a panic, which is `none` here. A byte read out of range does not occur: Add extends the field, and
-- the others stay within it.
pub mod Bytes
pub mod Members
pub mod Counted
use Prim.Native.Nat.{bit_and, bit_or}
use optilog_artifacts.Prelude.{
  ℕ, zero, suc, ◌+◌, ◌-◌, ◌*◌, ◌/◌, ◌%◌, ◌^◌, Bool, true, false, not, Option, none, some, List, [],
  ◌∷◌, ◌++◌, ◌==◌, leb, if◌then◌else◌, length, get_or, set, replicate,
}
use optilog_artifacts.Prelude.Words.{u32_mod}

-- `octets` is the field `data`.
pub record Bitfield : Type 0 where
  pub octets : List ℕ
  pub len : ℕ

unfoldable pub extend : ℕ → Bitfield → Bitfield
extend n bf = record bf { octets = bf.octets ++ replicate n 0 }

abbrev pub has_bit : ℕ → ℕ → Bool
has_bit byte bit = not (bit_and byte (2 ^ bit) == 0)

unfoldable pub is_set : ℕ → ℕ → Bitfield → Bool
is_set i bit bf = has_bit (get_or bf.octets i 0) bit

unfoldable pub set_bit : ℕ → ℕ → Bitfield → Bitfield
unfolding is_set
set_bit i bit bf = record bf {
  octets = set bf.octets i (bit_or (get_or bf.octets i 0) (2 ^ bit));
  len = if is_set i bit bf then bf.len else bf.len + 1;
}

-- The ID at a place, cut to 32 bits.
unfoldable pub id_at : ℕ → ℕ → ℕ
id_at i bit = (1 + i * 8 + bit) % u32_mod

unfoldable pub bytes : Bitfield → List ℕ
bytes bf = bf.octets

unfoldable pub add : ℕ → Bitfield → Option Bitfield
unfolding extend set_bit
add zero bf = none
add (suc k) bf =
    let i = k / 8 in
    some (
      set_bit i (k % 8)
        (if leb (length bf.octets) i then extend (i + 1 - length bf.octets) bf else bf))

unfoldable pub contains : ℕ → Bitfield → Option Bool
unfolding is_set
contains zero bf = if length bf.octets == 0 then some false else none
contains (suc k) bf =
    some (if leb (length bf.octets) (k / 8) then false else is_set (k / 8) (k % 8) bf)

-- The IDs of one byte that are passed to the function, n bits from `bit` on, and whether it goes on.
unfoldable pub range_byte : (ℕ → Bool) → ℕ → ℕ → ℕ → ℕ → List ℕ × Bool
unfolding id_at
range_byte f i byte zero bit = ([], true)
range_byte f i byte (suc n) bit =
    let (ids, on) = range_byte f i byte n (bit + 1) in
    let id = id_at i bit in
    if has_bit byte bit then (if f id then (id ∷ ids, on) else (id ∷ [], false)) else (ids, on)

unfoldable pub range_bytes : (ℕ → Bool) → ℕ → List ℕ → List ℕ
unfolding range_byte
range_bytes f i [] = []
range_bytes f i (byte ∷ rest) =
    let (ids, on) = range_byte f i byte 8 0 in
    let further = range_bytes f (i + 1) rest in if on then ids ++ further else ids

unfoldable pub range_while : (ℕ → Bool) → Bitfield → List ℕ
unfolding range_bytes
range_while f bf = range_bytes f 0 bf.octets

unfoldable pub for_each : Bitfield → List ℕ
unfolding range_while
for_each bf = range_while (λ id. true) bf

unfoldable pub from_bytes : List ℕ → Bitfield
unfolding for_each
from_bytes b = record { octets = b; len = length (for_each (record { octets = b; len = 0 })) }
