-- ===== src/Ranking.antt =====
-- overhead/ranking/complaint.go: complaints, scores, suspicions and latencies of the replicas.
--
-- An int is the number of 64 bits of its two's complement, and a map is met in the order of its
-- entries. `none` is a panic: an index out of range, or a division by 0. (The map leaderScore is
-- never written.)
pub mod Votes
pub mod Scores
use Prim.Native.Nat.{bit_and}
use optilog_artifacts.Prelude.{
  ℕ, zero, suc, ◌+◌, ◌-◌, ◌/◌, ◌%◌, ◌^◌, Bool, true, false, not, ◌||◌, Option, none, some, List, [],
  ◌∷◌, ◌++◌, ◌==◌, ltb, leb, if◌then◌else◌, length,
}
use optilog_artifacts.Prelude.Words.{u64_mod, add_u64, sub_u64}
use optilog_artifacts.Prelude.Dict.{Dict, lookup, insert}
use optilog_artifacts.Types.{
  Proof, no_proof, qc_proof, vote_proof, complaint_proof, Complaint, complaint, complaint_id,
  complainee, complainant, complaint_type, suspicion, QuorumCert, PartialCert,
}
use optilog_artifacts.Chain.{Chain, Network}
use optilog_artifacts.Crypto.{CryptoBase, verify_quorum_cert, verify_partial_cert}

pub record ComplaintCache : Type 0 where
  pub score : Dict ℕ
  pub suspicion_matrix : Dict (Dict ℕ)
  pub already_voted : Dict (Dict ℕ)
  pub serial_num_for_complaint : Dict ℕ
  pub latency_matrix : Dict (Dict ℕ)
  pub faulty_nodes : List ℕ
  pub complaint_cache : List Complaint
  pub id : ℕ
  pub config_length : ℕ

unfoldable pub new : ℕ → ComplaintCache
new id = record {
  score = [];
  suspicion_matrix = [];
  already_voted = [];
  serial_num_for_complaint = [];
  latency_matrix = [];
  faulty_nodes = [];
  complaint_cache = [];
  id = id;
  config_length = 0;
}

abbrev pub init_one : ℕ → ComplaintCache → ComplaintCache
init_one id cc = record cc {
  score = insert id 100 cc.score;
  suspicion_matrix = insert id [] cc.suspicion_matrix;
  already_voted = insert id [] cc.already_voted;
  serial_num_for_complaint = insert id 0 cc.serial_num_for_complaint;
}

abbrev pub init_all : List ℕ → ComplaintCache → ComplaintCache
init_all [] cc = cc
init_all (id ∷ ids) cc = init_all ids (init_one id cc)

-- With the IDs of the active replicas.
unfoldable pub post_init : List ℕ → ComplaintCache → ComplaintCache
post_init replicas cc = init_all replicas (record cc { config_length = length replicas })

abbrev pub row : Option (Dict ℕ) → Dict ℕ
row none = []
row (some m) = m

abbrev pub number : Option ℕ → ℕ
number none = 0
number (some n) = n

unfoldable pub set_latencies : List ℕ → Dict ℕ → Dict ℕ
set_latencies [] m = m
set_latencies (l ∷ ls) m = set_latencies ls (insert (l / 2 ^ 24) (bit_and l (2 ^ 24 - 1)) m)

unfoldable pub update_latency : ℕ → List ℕ → ComplaintCache → ComplaintCache
unfolding set_latencies
update_latency proposer vector cc = record cc {
  latency_matrix =
      insert proposer (set_latencies vector (row (lookup proposer cc.latency_matrix)))
        cc.latency_matrix;
}

abbrev pub next_serial : Option ℕ → ℕ
next_serial none = 1
next_serial (some n) = add_u64 n 1

unfoldable pub add_complaint : Complaint → ComplaintCache → ComplaintCache
add_complaint (complaint id to by kind proof) cc =
    let serial = next_serial (lookup by cc.serial_num_for_complaint) in
    record cc {
      serial_num_for_complaint = insert by serial cc.serial_num_for_complaint;
      complaint_cache = cc.complaint_cache ++ complaint serial to by kind proof ∷ [];
    }

unfoldable pub get_pending_complaints : ComplaintCache → List Complaint
get_pending_complaints cc = cc.complaint_cache

-- The first pending complaint of that ID goes, whoever complains.
unfoldable pub remove_first : ℕ → List Complaint → List Complaint
remove_first id [] = []
remove_first id (c ∷ cs) =
    let rest = remove_first id cs in if id == complaint_id c then cs else c ∷ rest

abbrev pub remove_all : List Complaint → List Complaint → List Complaint
unfolding remove_first
remove_all [] pending = pending
remove_all (c ∷ cs) pending = remove_all cs (remove_first (complaint_id c) pending)

abbrev pub drop_pending : List Complaint → ComplaintCache → ComplaintCache
drop_pending [] cc = cc
drop_pending (c ∷ cs) cc =
    if complainee c == cc.id
    then record cc { complaint_cache = remove_all (c ∷ cs) cc.complaint_cache }
    else cc

-- Whether the serial number has been reached by the complainant.
abbrev pub reached : Option ℕ → ℕ → Bool
reached none id = false
reached (some voted) id = leb id voted

unfoldable pub is_old : Complaint → ComplaintCache → Bool
is_old c cc =
    reached (lookup (complainant c) (row (lookup (complainee c) cc.already_voted))) (complaint_id c)

unfoldable pub mark : Complaint → ComplaintCache → ComplaintCache
mark c cc = record cc {
  already_voted =
      insert (complainee c)
        (insert (complainant c) (complaint_id c) (row (lookup (complainee c) cc.already_voted)))
        cc.already_voted;
}

abbrev pub suspect : Complaint → ComplaintCache → ComplaintCache
suspect c cc =
    let suspicions = row (lookup (complainee c) cc.suspicion_matrix) in
    record cc {
      suspicion_matrix =
          insert (complainee c)
            (insert (complainant c) (add_u64 (number (lookup (complainant c) suspicions)) 1)
              suspicions)
            cc.suspicion_matrix;
    }

-- Penalities, a slice of five ones.
unfoldable pub penalty_of : ℕ → Option ℕ
penalty_of kind = if ltb kind 5 then some 1 else none

abbrev pub penalize : Complaint → Option ℕ → ComplaintCache → Option ComplaintCache
penalize c none cc = none
penalize c (some penalty) cc = some (record cc {
  score =
      insert (complainant c) (sub_u64 (number (lookup (complainant c) cc.score)) penalty) cc.score;
  faulty_nodes = cc.faulty_nodes ++ complainant c ∷ [];
})

unfoldable pub count : Complaint → ComplaintCache → Option ComplaintCache
unfolding penalty_of
count c cc =
    if complaint_type c == suspicion
    then some (suspect c cc)
    else penalize c (penalty_of (complaint_type c)) cc

unfoldable pub record_one : Complaint → ComplaintCache → Option ComplaintCache
unfolding is_old mark count
record_one c cc = if is_old c cc then some cc else count c (mark c cc)

abbrev pub and_then :
    (ComplaintCache → Option ComplaintCache) → Option ComplaintCache → Option ComplaintCache
and_then f none = none
and_then f (some cc) = f cc

unfoldable pub record_all : List Complaint → ComplaintCache → Option ComplaintCache
unfolding record_one
record_all [] cc = some cc
record_all (c ∷ cs) cc = and_then (record_all cs) (record_one c cc)

unfoldable pub commit_complaints : List Complaint → ComplaintCache → Option ComplaintCache
unfolding record_all
commit_complaints cs cc = record_all cs (drop_pending cs cc)

module _ (base : CryptoBase) (genesis : ℕ) (quorum : ℕ → ℕ) (fetch : Network) where
  abbrev pub refuted : Option Bool × Chain → Option Bool × Chain
  refuted (none, c) = (none, c)
  refuted (some b, c) = (some (not b), c)

  -- An assertion of the proof's type that fails answers false; so does a type that is unknown.
  mutual
    pub verify_complaint : Complaint → Chain → Option Bool × Chain
    verify_complaint (complaint id to by kind proof) c =
        let checked = verify_proof kind proof c in
        if (kind == 1) || (kind == suspicion) then (some true, c) else checked

    pub verify_proof : ℕ → Proof → Chain → Option Bool × Chain
    verify_proof kind no_proof c = (some false, c)
    verify_proof kind (qc_proof qc) c =
        if kind == 3
        then refuted (verify_quorum_cert base genesis quorum fetch qc c)
        else (some false, c)
    verify_proof kind (vote_proof cert) c =
        let (b, c') = verify_partial_cert base genesis quorum fetch cert c in
        if kind == 2 then (some (not b), c') else (some false, c)
    verify_proof kind (complaint_proof d) c =
        let inner = verify_complaint d c in if kind == 4 then inner else (some false, c)

  abbrev pub and_verify : (Chain → Option Bool × Chain) → Option Bool × Chain → Option Bool × Chain
  and_verify f (some true, c) = f c
  and_verify f (some false, c) = (some false, c)
  and_verify f (none, c) = (none, c)

  unfoldable pub verify_complaints : List Complaint → Chain → Option Bool × Chain
  verify_complaints [] c = (some true, c)
  verify_complaints (x ∷ xs) c = and_verify (verify_complaints xs) (verify_complaint x c)
