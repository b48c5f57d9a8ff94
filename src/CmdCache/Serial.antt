-- ===== src/CmdCache/Serial.antt =====
-- The serial numbers of overhead/replica/cmdcache.go, and which commands they keep out.
use optilog_artifacts.Prelude.{
  ℕ, zero, suc, ◌≤◌, ◌≡◌, refl, true, false, some, List, [], ◌∷◌, ltb, ◌==◌, if◌then◌else◌, length,
  arith, All,
}
use optilog_artifacts.Prelude.Dict.{Dict, insert, lookup-insert}
use optilog_artifacts.CmdCache.{
  Command, Codec, CmdCache, serial_no, is_old, take_batch, accept_all, accept, proposed_all,
  proposed,
}

serial_no-insert :
    (k j v : ℕ) (m : Dict ℕ) → serial_no (insert k v m) j ≡ (if k == j then v else serial_no m j)
unfolding serial_no
serial_no-insert k j v m = ground (arith, lookup-insert k j v m)

-- Proposing a batch lowers no client's serial number.
pub proposed_all-rises :
    (batch : List Command) (m : Dict ℕ) (i : ℕ) → serial_no m i ≤ serial_no (proposed_all batch m) i
unfolding proposed_all
proposed_all-rises [] m i = omega arith
proposed_all-rises (c ∷ cs) m i = grind (
  arith,
  serial_no-insert c.client_id i c.sequence_number m,
  proposed_all-rises cs
      (if ltb (serial_no m c.client_id) c.sequence_number
        then insert c.client_id c.sequence_number m
        else m)
      i,
)

one-old :
    (c : Command) (m : Dict ℕ)
    → c.sequence_number
      ≤ serial_no
          (if ltb (serial_no m c.client_id) c.sequence_number
            then insert c.client_id c.sequence_number m
            else m)
          c.client_id
one-old c m = grind (arith, serial_no-insert c.client_id c.client_id c.sequence_number m)

-- After a batch was proposed every command of it is old.
pub proposed_all-old :
    (batch : List Command) (m : Dict ℕ) → All (λ c. is_old (proposed_all batch m) c ≡ true) batch
unfolding proposed_all is_old
proposed_all-old [] m = tt
proposed_all-old (c ∷ cs) m = (
  ground (
    arith,
    one-old c m,
    proposed_all-rises cs
        (if ltb (serial_no m c.client_id) c.sequence_number
          then insert c.client_id c.sequence_number m
          else m)
        c.client_id,
  ),
  proposed_all-old cs (
      if ltb (serial_no m c.client_id) c.sequence_number
      then insert c.client_id c.sequence_number m
      else m),
)

accept_all-old :
    (batch : List Command) (m : Dict ℕ)
    → All (λ c. is_old m c ≡ true) batch
    → accept_all m batch ≡ (length batch == 0)
unfolding accept_all
accept_all-old [] m o = refl
accept_all-old (c ∷ cs) m (o, os) = ground arith

proposed-batch :
    (codec : Codec) (c : CmdCache) (bytes : List ℕ) (batch : List Command)
    → codec.unmarshal bytes ≡ some batch
    → proposed codec bytes c ≡ record c { serial_numbers = proposed_all batch c.serial_numbers }
unfolding proposed
proposed-batch codec c bytes batch e = rw (e, proposed) refl

-- A batch that was marked as proposed is not accepted again, unless it is empty.
pub accept-proposed :
    (codec : Codec) (c : CmdCache) (bytes : List ℕ) (batch : List Command)
    → codec.unmarshal bytes ≡ some batch
    → accept codec (proposed codec bytes c) bytes ≡ (length batch == 0)
unfolding accept
accept-proposed codec c bytes batch e = rw (proposed-batch codec c bytes batch e) (
    rw (e, accept)
      (accept_all-old batch (proposed_all batch c.serial_numbers)
        (proposed_all-old batch c.serial_numbers)))

-- A batch that Get takes holds at most the given number of commands, and each has a number above
-- its client's serial number.
pub take_batch-new :
    (m : Dict ℕ) (n : ℕ) (cache : List Command)
    → All (λ c. is_old m c ≡ false) (take_batch m n cache).0 × (length (take_batch m n cache).0 ≤ n)
unfolding take_batch
take_batch-new m n [] = (tt, omega arith)
take_batch-new m zero (c ∷ cs) = (tt, omega arith)
take_batch-new m (suc n) (c ∷ cs) =
    ground (arith, take_batch-new m n cs, take_batch-new m (suc n) cs)
