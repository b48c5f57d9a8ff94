-- ===== src/Handel/Session.antt =====
-- overhead/handel/session.go: the state of the aggregation of one signature, and its levels.
--
-- The handlers and the rounds of the verification run as single steps, as the mutex makes them. The
-- chain of blocks is shared with the other modules and is passed along. A slice that is read out of
-- range or an empty partition is a panic; the levels that the source reads exist.
pub mod Score
pub mod Pending
pub mod Choose
pub mod Outgoing
pub mod Verify
pub mod Calls
pub mod Sound
pub mod Certified
pub mod Histories
use optilog_artifacts.Prelude.{
  ℕ, zero, suc, ◌+◌, ◌*◌, ◌/◌, Bool, true, false, not, ◌&&◌, ◌||◌, Option, none, some, List, [],
  ◌∷◌, ◌==◌, ltb, leb, if◌then◌else◌, length, get_or, set,
}
use optilog_artifacts.Prelude.Integers.{ℤ}
use optilog_artifacts.Prelude.Dict.{Dict, lookup, insert}
use optilog_artifacts.Types.{QuorumSignature, QuorumCert}
use optilog_artifacts.Chain.{Network}
use optilog_artifacts.Crypto.{CryptoBase}
use optilog_artifacts.Types.IdSet.{contains}
use optilog_artifacts.Handel.Partitioner.{Partitioner, partition, size}

-- A contribution without signatures is not taken from the network.
pub record Contribution : Type 0 where
  pub hash : ℕ
  pub sender : ℕ
  pub level : ℕ
  pub signature : QuorumSignature
  pub individual : QuorumSignature
  pub verified : Bool
  pub deferred : Bool
  pub score : ℤ

pub record Level : Type 0 where
  pub vp : Dict ℕ
  pub cp : Dict ℕ
  pub incoming : Option QuorumSignature
  pub outgoing : Option QuorumSignature
  pub individual : Dict QuorumSignature
  pub pending : List Contribution
  pub done : Bool

pub record Window : Type 0 where
  pub window : ℕ
  pub min : ℕ
  pub max : ℕ
  pub increase_factor : ℕ
  pub decrease_factor : ℕ

-- What is sent and what is given to the event loop.
pub data Effect : Type 0 where
  contribute :
      (to level : ℕ) (signature : QuorumSignature) (individual : Option QuorumSignature) → Effect
  add_contribution : Contribution → Effect
  new_view : QuorumCert → Effect
  session_done : ℕ → Effect
  panic : Effect

-- The highest level of the module, what the configuration answers, and the view of the synchronizer,
-- which the source reads at each use and which is taken as the same all through a session.
pub record Config : Type 0 where
  pub base : CryptoBase
  pub fetch : Network
  pub id : ℕ
  pub quorum : ℕ → ℕ
  pub replicas : ℕ
  pub has_node : ℕ → Bool
  pub max_level : ℕ
  pub view : ℕ

-- The effects stand newest first.
pub record Session : Type 0 where
  pub hash : ℕ
  pub part : Partitioner
  pub levels : List Level
  pub active_level_index : ℕ
  pub window : Window
  pub out : List Effect

abbrev pub emit : Effect → Session → Session
emit e s = record s { out = e ∷ s.out }

abbrev pub blank : Level
blank = record {
  vp = [];
  cp = [];
  incoming = none;
  outgoing = none;
  individual = [];
  pending = [];
  done = false;
}

abbrev pub level_at : ℕ → Session → Level
level_at i s = get_or s.levels i blank

abbrev pub put_level : ℕ → Level → Session → Session
put_level i level s = record s { levels = set s.levels i level }

-- The value of a Go map where a key is missing.
abbrev pub or_zero : Option ℕ → ℕ
or_zero none = 0
or_zero (some n) = n

abbrev pub or_empty : Option (List ℕ) → List ℕ
or_empty none = []
or_empty (some ids) = ids

abbrev pub partition_of : ℕ → Session → List ℕ
partition_of i s = or_empty (partition s.part i)

abbrev pub size_of : ℕ → Session → ℕ
size_of i s = or_zero (size s.part i)

unfoldable pub valid_level : Config → ℕ → Bool
valid_level config l = ltb 0 l && leb l config.max_level

-- The numbers that the shuffle gives are for the other IDs, in order.
unfoldable pub assign_priority : List ℕ → ℕ → List ℕ → Dict ℕ
assign_priority [] self numbers = []
assign_priority (id ∷ ids) self [] = []
assign_priority (id ∷ ids) self (n ∷ numbers) =
    let skipped = assign_priority ids self (n ∷ numbers) in
    let taken = assign_priority ids self numbers in
    if id == self then skipped else insert id n taken

-- `shuffled` is what rand.Shuffle makes of the numbers below the length less one, by level.
module _ (shuffled : ℕ → List ℕ) where
  unfoldable pub verification_priority : List ℕ → ℕ → ℕ → Dict ℕ
  unfolding assign_priority
  verification_priority ids self level = assign_priority ids self (shuffled level)

  unfoldable pub contribution_priority_from : List ℕ → List ℕ → ℕ → ℕ → Dict ℕ
  unfolding verification_priority
  contribution_priority_from [] ids self level = []
  contribution_priority_from (id ∷ rest) ids self level =
      let further = contribution_priority_from rest ids self level in
      if id == self
      then further
      else insert id (or_zero (lookup self (verification_priority ids id level))) further

  unfoldable pub contribution_priority : List ℕ → ℕ → ℕ → Dict ℕ
  unfolding contribution_priority_from
  contribution_priority ids self level = contribution_priority_from ids ids self level

  unfoldable pub new_level : List ℕ → ℕ → ℕ → Level
  unfolding verification_priority contribution_priority
  new_level ids self i = record blank {
    vp = verification_priority ids self i;
    cp = contribution_priority ids self i;
  }

unfoldable pub increase : Window → Window
increase w =
    let wider = w.window * w.increase_factor in
    record w { window = if ltb w.max wider then w.max else wider }

unfoldable pub decrease : Window → Window
decrease w =
    let narrower = w.window / w.decrease_factor in
    record w { window = if ltb narrower w.min then w.min else narrower }

unfoldable pub has_common : List ℕ → List ℕ → Bool
unfolding contains
has_common [] b = false
has_common (i ∷ a) b = contains i b || has_common a b

-- No ID is in both. A nil signature cannot be merged.
unfoldable pub can_merge : QuorumSignature → Option QuorumSignature → Bool
unfolding has_common
can_merge a none = false
can_merge a (some b) = not (has_common a.participants b.participants)
