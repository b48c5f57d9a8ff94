-- ===== src/CmdCache.antt =====
-- overhead/replica/cmdcache.go: the commands of the clients, from which the leader takes batches.
-- The batch's protobuf form is the parameter `Codec`. The channel that wakes Get and the context
-- that ends its wait are the caller's: `get` answers `wait` where Get would wait.
pub mod Serial
use optilog_artifacts.Prelude.{
  ℕ, zero, suc, ◌+◌, ◌-◌, Bool, true, false, Option, none, some, List, [], ◌∷◌, ◌++◌, leb, ltb,
  ◌==◌, if◌then◌else◌, length,
}
use optilog_artifacts.Prelude.Dict.{Dict, lookup, insert}

-- The fields of clientpb.Command; data_bytes is its Data.
pub record Command : Type 0 where
  pub client_id : ℕ
  pub sequence_number : ℕ
  pub data_bytes : List ℕ

-- The marshaler and unmarshaler of a batch.
pub record Codec : Type 0 where
  pub marshal : List Command → Option (List ℕ)
  pub unmarshal : List ℕ → Option (List Command)

pub record CmdCache : Type 0 where
  pub batch_size : ℕ
  pub serial_numbers : Dict ℕ
  pub cache : List Command

unfoldable pub new_cmd_cache : ℕ → CmdCache
new_cmd_cache batch_size = record { batch_size = batch_size; serial_numbers = []; cache = [] }

-- The serial number of a client that has none is 0.
unfoldable pub serial_no : Dict ℕ → ℕ → ℕ
serial_no numbers client = elim (lookup client numbers) [ none ↦ 0 | some n ↦ n ]

unfoldable pub is_old : Dict ℕ → Command → Bool
is_old numbers cmd = leb cmd.sequence_number (serial_no numbers cmd.client_id)

-- The Boolean tells whether Get is notified.
unfoldable pub add_command : Command → CmdCache → Bool × CmdCache
add_command cmd c =
    let cache = c.cache ++ (cmd ∷ []) in
    if is_old c.serial_numbers cmd
    then (false, c)
    else (leb c.batch_size (length cache), record c { cache = cache })

-- The loop that fills a batch with at most `n` commands, and the commands that stay.
unfoldable pub take_batch : Dict ℕ → ℕ → List Command → List Command × List Command
take_batch numbers n [] = ([], [])
take_batch numbers zero (cmd ∷ cache) = ([], cmd ∷ cache)
take_batch numbers (suc n) (cmd ∷ cache) =
    let (batch, left) = take_batch numbers (suc n) cache in
    let (more, rest) = take_batch numbers n cache in
    if is_old numbers cmd then (batch, left) else (cmd ∷ more, rest)

-- What Get has after its lock was taken: a wait, or an answer.
pub data Answer : Type 0 where
  wait : Answer
  answer : Option (List ℕ) → Answer

-- One round of Get, from the test of its loop to the next wait or return. An empty batch has used
-- the cache up (for a batch size above 0), so that the jump back to the loop waits.
unfoldable pub get : Codec → CmdCache → Answer × CmdCache
get codec c =
    let (batch, left) = take_batch c.serial_numbers c.batch_size c.cache in
    if leb (length c.cache) c.batch_size
    then (wait, c)
    else if length batch == 0
    then (wait, record c { cache = left })
    else (answer (codec.marshal batch), record c { cache = left })

unfoldable pub accept_all : Dict ℕ → List Command → Bool
accept_all numbers [] = true
accept_all numbers (cmd ∷ cmds) =
    let rest = accept_all numbers cmds in if is_old numbers cmd then false else rest

unfoldable pub accept : Codec → CmdCache → List ℕ → Bool
accept codec c bytes = elim (codec.unmarshal bytes) [
  | none ↦ false
  | some batch ↦ accept_all c.serial_numbers batch
]

unfoldable pub proposed_all : List Command → Dict ℕ → Dict ℕ
proposed_all [] numbers = numbers
proposed_all (cmd ∷ cmds) numbers = proposed_all cmds (
    if ltb (serial_no numbers cmd.client_id) cmd.sequence_number
    then insert cmd.client_id cmd.sequence_number numbers
    else numbers)

unfoldable pub proposed : Codec → List ℕ → CmdCache → CmdCache
proposed codec bytes c = elim (codec.unmarshal bytes) [
  | none ↦ c
  | some batch ↦ record c { serial_numbers = proposed_all batch c.serial_numbers }
]
