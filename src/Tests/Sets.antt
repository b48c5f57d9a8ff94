-- ===== src/Tests/Sets.antt =====
-- A field of bits with the IDs 1 and 3.
use optilog_artifacts.Prelude.{◌≡◌, refl, some, [], ◌∷◌, arith}
use optilog_artifacts.Crypto.Bitfield.{
  Bitfield, extend, is_set, set_bit, id_at, add, range_byte, range_bytes, range_while, for_each,
}
use optilog_artifacts.Crypto.Bitfield.Counted.{IsValid, Adds, add-Adds}

abbrev one_three : Bitfield
one_three = record { octets = 5 ∷ []; len = 2 }

abbrev one_two_three : Bitfield
one_two_three = record { octets = 7 ∷ []; len = 3 }

one_three-IsValid : IsValid one_three
unfolding for_each range_while range_bytes range_byte id_at
one_three-IsValid = record { are_bytes = (omega arith, tt); counted = refl }

added_two : add 2 one_three ≡ some one_two_three
unfolding add set_bit is_set extend
added_two = refl

add-Adds_example : Adds 1 one_three one_two_three
add-Adds_example = add-Adds 1 one_three one_two_three one_three-IsValid added_two
