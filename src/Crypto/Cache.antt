-- ===== src/Crypto/Cache.antt =====
-- overhead/crypto/cache.go: an LRU cache of the signatures that are known to be valid.
--
-- The element of a key in the access list is found by the key, which stands there once; the map is
-- the list of its keys. `none` is a panic: evict removes the back of an empty list, which happens
-- with a capacity of 0.
pub mod Valid
pub mod Genuine
pub mod Answers
use optilog_artifacts.Prelude.{
  ℕ, Bool, true, false, Option, none, some, List, [], ◌∷◌, ◌++◌, ltb, if◌then◌else◌, length,
  replicate,
}
use optilog_artifacts.Prelude.Dict.{Dict}
use optilog_artifacts.Prelude.Keys.{Key, has_key, remove_key, split_last}
use optilog_artifacts.Types.{QuorumSignature, hash_bytes}
use optilog_artifacts.Crypto.{CryptoBase}

pub record Cache : Type 0 where
  pub capacity : ℕ
  pub entries : List Key
  pub access_order : List Key

unfoldable pub new_cache : ℕ → Cache
new_cache capacity = record { capacity = capacity; entries = []; access_order = [] }

unfoldable pub move_to_front : Key → Cache → Cache
move_to_front key c = record c { access_order = key ∷ remove_key key c.access_order }

abbrev pub drop_back : Cache → List Key → Option Cache
drop_back c [] = none
drop_back c (x ∷ xs) =
    let (front, key) = split_last x xs in
    some (record c { entries = remove_key key c.entries; access_order = front })

unfoldable pub evict : Cache → Option Cache
evict c = if ltb (length c.entries) c.capacity then some c else drop_back c c.access_order

abbrev pub push_front : Key → Option Cache → Option Cache
push_front key none = none
push_front key (some c) =
    some (record c { entries = key ∷ c.entries; access_order = key ∷ c.access_order })

unfoldable pub insert : Key → Cache → Option Cache
unfolding move_to_front evict
insert key c =
    if has_key key c.entries then some (move_to_front key c) else push_front key (evict c)

unfoldable pub check : Key → Cache → Bool × Cache
unfolding move_to_front
check key c = if has_key key c.entries then (true, move_to_front key c) else (false, c)

abbrev pub returning : {A : Type 0} → A → Option Cache → Option (A × Cache)
returning a none = none
returning a (some c) = some (a, c)

module _ (base : CryptoBase) (sha256 : List ℕ → ℕ) where
  unfoldable pub signature_key : List ℕ → QuorumSignature → Key
  signature_key message sig = hash_bytes (sha256 message) ++ sig.bytes

  -- BatchVerify hashes the messages in the order of their IDs, but `hasher.Sum(hash[:])` appends the
  -- sum to the full slice, so that it goes to a new array: `hash` keeps its 32 zero bytes.
  unfoldable pub batch_key : QuorumSignature → Key
  batch_key sig = replicate 32 0 ++ sig.bytes

  abbrev pub signed :
      List ℕ → Option QuorumSignature → Cache → Option (Option QuorumSignature × Cache)
  signed message none c = some (none, c)
  signed message (some sig) c = returning (some sig) (insert (signature_key message sig) c)

  unfoldable pub sign : List ℕ → Cache → Option (Option QuorumSignature × Cache)
  unfolding signature_key insert
  sign message c = signed message (base.sign message) c

  -- A hit is an answer; otherwise the implementation is asked, and a success is kept.
  unfoldable pub ask : Key → Bool → Bool × Cache → Option (Bool × Cache)
  unfolding insert
  ask key valid (true, c) = some (true, c)
  ask key true (false, c) = returning true (insert key c)
  ask key false (false, c) = some (false, c)

  unfoldable pub verify : QuorumSignature → List ℕ → Cache → Option (Bool × Cache)
  unfolding ask check signature_key
  verify sig message c =
      ask (signature_key message sig) (base.verify sig message)
        (check (signature_key message sig) c)

  unfoldable pub batch_verify : QuorumSignature → Dict (List ℕ) → Cache → Option (Bool × Cache)
  unfolding ask check batch_key
  batch_verify sig batch c =
      ask (batch_key sig) (base.batch_verify sig batch) (check (batch_key sig) c)

  unfoldable pub combine : List QuorumSignature → Option QuorumSignature
  combine signatures = base.combine signatures
