-- ===== src/Types.antt =====
-- The values that replicas exchange: overhead/types.go, overhead/block.go, overhead/events.go,
-- overhead/genesis.go, overhead/hotstuff.go and overhead/helper.go. An ID is a uint32, a View a
-- uint64 and a Hash a 32-byte string; each is kept as the number that it encodes. A Command is
-- the list of its bytes, and a time the number of microseconds since the epoch.
pub mod Bytes
pub mod IdSet
pub mod Collision
use optilog_artifacts.Prelude.{
  ℕ, zero, suc, ◌+◌, ◌-◌, ◌*◌, ◌/◌, ◌%◌, ◌^◌, Bool, true, false, not, Option, none, some, List, [],
  ◌∷◌, ◌++◌, ◌==◌, if◌then◌else◌, list_eq, length,
}
use optilog_artifacts.Prelude.Dict.{Dict}

-- The interface QuorumSignature, as what its two methods return.
pub record QuorumSignature : Type 0 where
  pub bytes : List ℕ
  pub participants : List ℕ

pub record PartialCert : Type 0 where
  pub signer : ℕ
  pub signature : QuorumSignature
  pub block_hash : ℕ
  pub time : ℕ

-- `RangeWhile` with a function that returns false stops at the first participant.
abbrev pub first_participant : List ℕ → ℕ
first_participant [] = 0
first_participant (i ∷ is) = i

unfoldable pub new_partial_cert : QuorumSignature → ℕ → ℕ → PartialCert
new_partial_cert sig hash time = record {
  signer = first_participant sig.participants;
  signature = sig;
  block_hash = hash;
  time = time;
}

-- A nil signature is `none`.
pub record QuorumCert : Type 0 where
  pub signature : Option QuorumSignature
  pub view : ℕ
  pub hash : ℕ
  pub latency_vector : List ℕ

-- Go's zero value of the struct.
abbrev pub zero_qc : QuorumCert
zero_qc = record { signature = none; view = 0; hash = 0; latency_vector = [] }

pub record TimeoutCert : Type 0 where
  pub signature : Option QuorumSignature
  pub view : ℕ

pub record AggregateQc : Type 0 where
  pub qcs : Dict QuorumCert
  pub sig : Option QuorumSignature
  pub view : ℕ

pub record SyncInfo : Type 0 where
  pub qc : Option QuorumCert
  pub tc : Option TimeoutCert
  pub agg_qc : Option AggregateQc

unfoldable pub new_sync_info : SyncInfo
new_sync_info = record { qc = none; tc = none; agg_qc = none }

unfoldable pub with_qc : SyncInfo → QuorumCert → SyncInfo
with_qc si qc = record si { qc = some qc }

unfoldable pub with_tc : SyncInfo → TimeoutCert → SyncInfo
with_tc si tc = record si { tc = some tc }

unfoldable pub with_agg_qc : SyncInfo → AggregateQc → SyncInfo
with_agg_qc si agg = record si { agg_qc = some agg }

pub record Block : Type 0 where
  pub hash : ℕ
  pub parent : ℕ
  pub proposer : ℕ
  pub cmd : List ℕ
  pub cert : QuorumCert
  pub view : ℕ
  pub time : ℕ

-- The proof of a complaint is a value of any type, which is read by type assertions. The flags
-- IsProofAvailable and IsVerified of a Complaint are written and read nowhere in its handling.
mutual
  pub data Proof : Type 0 where
    no_proof : Proof
    qc_proof : QuorumCert → Proof
    vote_proof : PartialCert → Proof
    complaint_proof : Complaint → Proof

  pub data Complaint : Type 0 where
    complaint : (id complainee complainant complaint_type : ℕ) → Proof → Complaint

abbrev pub complaint_id : Complaint → ℕ
complaint_id (complaint id to by kind p) = id

abbrev pub complainee : Complaint → ℕ
complainee (complaint id to by kind p) = to

abbrev pub complainant : Complaint → ℕ
complainant (complaint id to by kind p) = by

abbrev pub complaint_type : Complaint → ℕ
complaint_type (complaint id to by kind p) = kind

-- The ComplaintType of a suspicion.
abbrev pub suspicion : ℕ
suspicion = 5

pub record ProposeMsg : Type 0 where
  pub id : ℕ
  pub block : Block
  pub aggregate_qc : Option AggregateQc
  pub complaints : List Complaint

pub record VoteMsg : Type 0 where
  pub id : ℕ
  pub partial_cert : PartialCert
  pub deferred : Bool

pub record TimeoutMsg : Type 0 where
  pub id : ℕ
  pub view : ℕ
  pub view_signature : QuorumSignature
  pub msg_signature : Option QuorumSignature
  pub sync_info : SyncInfo

pub record NewViewMsg : Type 0 where
  pub id : ℕ
  pub sync_info : SyncInfo

-- `k` bytes, the least significant first, as binary.LittleEndian writes them.
unfoldable pub put_le : ℕ → ℕ → List ℕ
put_le zero n = []
put_le (suc k) n = (n % 256) ∷ put_le k (n / 256)

-- A Hash is the array of its 32 bytes; the number stands for it in this byte order.
unfoldable pub hash_bytes : ℕ → List ℕ
unfolding put_le
hash_bytes h = put_le 32 h

unfoldable pub view_bytes : ℕ → List ℕ
unfolding put_le
view_bytes v = put_le 8 v

unfoldable pub id_bytes : ℕ → List ℕ
unfolding put_le
id_bytes i = put_le 4 i

abbrev pub signature_bytes : Option QuorumSignature → List ℕ
signature_bytes none = []
signature_bytes (some s) = s.bytes

unfoldable pub qc_bytes : QuorumCert → List ℕ
unfolding view_bytes hash_bytes
qc_bytes qc = view_bytes qc.view ++ hash_bytes qc.hash ++ signature_bytes qc.signature

abbrev pub block_bytes_of : ℕ → ℕ → ℕ → List ℕ → QuorumCert → List ℕ
block_bytes_of parent proposer view cmd cert =
    hash_bytes parent ++ id_bytes proposer ++ view_bytes view ++ cmd ++ qc_bytes cert

unfoldable pub block_bytes : Block → List ℕ
unfolding qc_bytes view_bytes hash_bytes id_bytes
block_bytes b = block_bytes_of b.parent b.proposer b.view b.cmd b.cert

unfoldable pub timeout_bytes : TimeoutMsg → List ℕ
unfolding qc_bytes view_bytes id_bytes
timeout_bytes t =
    id_bytes t.id ++ view_bytes t.view ++ elim t.sync_info.qc [ none ↦ [] | some qc ↦ qc_bytes qc ]

-- sha256 is not part of the repository: it is the parameter `sha256`.
module _ (sha256 : List ℕ → ℕ) where
  unfoldable pub new_block : ℕ → QuorumCert → List ℕ → ℕ → ℕ → ℕ → Block
  unfolding qc_bytes view_bytes hash_bytes id_bytes
  new_block parent cert cmd view proposer time = record {
    hash = sha256 (block_bytes_of parent proposer view cmd cert);
    parent = parent;
    proposer = proposer;
    cmd = cmd;
    cert = cert;
    view = view;
    time = time;
  }

  unfoldable pub get_genesis : ℕ → Block
  unfolding new_block
  get_genesis started = new_block 0 zero_qc [] 0 0 started

-- A nil signature on either side makes the comparison one of interface values.
unfoldable pub same_signature : Option QuorumSignature → Option QuorumSignature → Bool
same_signature none none = true
same_signature none (some t) = false
same_signature (some s) none = false
same_signature (some s) (some t) = list_eq s.bytes t.bytes

unfoldable pub qc_equals : QuorumCert → QuorumCert → Bool
unfolding same_signature
qc_equals qc other =
    if not (qc.view == other.view)
    then false
    else if not (qc.hash == other.hash)
    then false
    else same_signature qc.signature other.signature

-- `NumFaulty` and `QuorumSize` are called with at least one replica.
unfoldable pub num_faulty : ℕ → ℕ
num_faulty n = (n - 1) / 3

unfoldable pub quorum_size : ℕ → ℕ
unfolding num_faulty
quorum_size n = n - num_faulty n

unfoldable pub is_faulty : List ℕ → ℕ → Bool
is_faulty [] id = false
is_faulty (node ∷ nodes) id = if node == id then true else is_faulty nodes id
