-- ===== src/Tests/Modules.antt =====
-- The signature cache, the leader rotation, the partitioner and the complaints on concrete data.
use optilog_artifacts.Prelude.{
  ℕ, ◌≤◌, ◌≡◌, ◌≢◌, ◌==◌, ◌-◌, ◌^◌, refl, true, some, List, [], ◌∷◌, length, arith,
}
use optilog_artifacts.Prelude.Keys.{has_key, remove_key}
use optilog_artifacts.Prelude.Dict.{lookup, insert}
use optilog_artifacts.Types.{Complaint, complaint, no_proof, hash_bytes, num_faulty, quorum_size}
use optilog_artifacts.Types.IdSet.{new_id_set, contains, AreDistinct}
use optilog_artifacts.Crypto.Cache as SigCache
use optilog_artifacts.Crypto.Cache.Valid.{
  Call, verifies, verifies_batch, signs, perform_all, Succeeds, perform_all-IsValid,
}
use optilog_artifacts.Crypto.Cache.Genuine.{Stands}
use optilog_artifacts.Crypto.Cache.Answers.{answer, batch_verify_any, verify-Stands}
use optilog_artifacts.LeaderRotation.{round_robin}
use optilog_artifacts.LeaderRotation.RoundRobin.{IsFound, round_robin-IsFound}
use optilog_artifacts.LeaderRotation.Carousel.{carousel, last_authors}
use optilog_artifacts.LeaderRotation.Carousel.Elected.{IsElected, carousel-IsElected}
use optilog_artifacts.Handel.Partitioner.{new_partitioner, range_level, max_level}
use optilog_artifacts.Handel.Partitioner.Levels.{IsIn, range_level_covers}
use optilog_artifacts.Ranking.{ComplaintCache, commit_complaints, drop_pending, remove_first}
use optilog_artifacts.Ranking.Votes.{commit_complaints_once}
use optilog_artifacts.Tests.World.{network, chain, block_of, sig_of, base}

abbrev sha : List ℕ → ℕ
sha m = length m

abbrev calls : List Call
calls =
    verifies (sig_of (1 ∷ [])) (3 ∷ []) ∷ verifies_batch (sig_of (2 ∷ [])) [] ∷ signs (4 ∷ []) ∷ []

perform_all-IsValid_example : Succeeds (perform_all base sha calls (SigCache.new_cache 1))
perform_all-IsValid_example = perform_all-IsValid base sha 1 calls (omega arith)

abbrev constant : List ℕ → ℕ
constant m = 7

-- The key of the signature for any message, all having the same hash.
abbrev key : List ℕ
key = SigCache.signature_key base constant (3 ∷ []) (sig_of (1 ∷ []))

abbrev kept : List (List ℕ) → SigCache.Cache
kept keys = record { capacity = 2; entries = keys; access_order = keys }

filled :
    perform_all base constant (verifies (sig_of (1 ∷ [])) (3 ∷ []) ∷ []) (SigCache.new_cache 2)
    ≡ some (kept (key ∷ []))
unfolding perform_all SigCache.new_cache SigCache.signature_key hash_bytes has_key
filled = refl

answered :
    SigCache.verify base constant (sig_of (1 ∷ [])) (5 ∷ []) (kept (key ∷ []))
    ≡ some (true, kept (key ∷ []))
unfolding SigCache.verify SigCache.signature_key hash_bytes has_key remove_key
answered = refl

verify-Stands_example : Stands base constant (sig_of (1 ∷ [])) (5 ∷ [])
verify-Stands_example =
    verify-Stands base constant (λ m. omega arith) 2 (verifies (sig_of (1 ∷ [])) (3 ∷ []) ∷ [])
      (sig_of (1 ∷ [])) (5 ∷ []) (kept (key ∷ [])) (kept (key ∷ [])) filled answered

batch_stored :
    SigCache.batch_verify base constant (sig_of (1 ∷ [])) ((1, 4 ∷ []) ∷ []) (kept [])
    ≡ some (true, kept (SigCache.batch_key base constant (sig_of (1 ∷ [])) ∷ []))
unfolding SigCache.batch_verify has_key
batch_stored = refl

batch_verify_any_example :
    answer (
      SigCache.batch_verify base constant
        (sig_of (1 ∷ []))
        ((2, 9 ∷ []) ∷ [])
        (kept (SigCache.batch_key base constant (sig_of (1 ∷ [])) ∷ [])))
    ≡ some true
batch_verify_any_example =
    batch_verify_any base constant (sig_of (1 ∷ [])) ((1, 4 ∷ []) ∷ []) ((2, 9 ∷ []) ∷ []) (kept [])
      (kept (SigCache.batch_key base constant (sig_of (1 ∷ [])) ∷ [])) batch_stored

-- The last view, from which the views overflow.
round_robin-IsFound_example : IsFound 3 (λ i. i == 2) (round_robin 3 (λ i. i == 2) (2 ^ 64 - 1))
round_robin-IsFound_example =
    round_robin-IsFound 3 (λ i. i == 2) (omega arith) (omega arith) 2 (2 ^ 64 - 1) (omega arith)
      (omega arith) (omega arith) refl

voters-AreDistinct : AreDistinct (1 ∷ 2 ∷ 3 ∷ [])
unfolding contains
voters-AreDistinct = (refl, (refl, (refl, tt)))

three_of_four : quorum_size 4 ≤ 3
unfolding quorum_size num_faulty
three_of_four = omega arith

carousel-IsElected_example :
    IsElected
      (sig_of (1 ∷ 2 ∷ 3 ∷ []))
      (last_authors network 10 (num_faulty 4) (some (block_of 3)) new_id_set chain).0
      (carousel network 10 4 3 9 (λ s. s) (block_of 3) 6 chain).0
carousel-IsElected_example =
    carousel-IsElected network 10 4 3 9 (λ s. s) (sig_of (1 ∷ 2 ∷ 3 ∷ [])) (block_of 3) 6 chain
      (omega arith) refl (omega arith) voters-AreDistinct three_of_four

abbrev ids : List ℕ
ids = 10 ∷ 11 ∷ 12 ∷ 13 ∷ 14 ∷ []

not_self : 4 ≢ (new_partitioner 12 ids).self_index
unfolding new_partitioner
not_self = λ e. omega arith

range_level_covers_example :
    (level : ℕ) × (level ≤ max_level 5) × IsIn 4 (range_level (new_partitioner 12 ids) level)
range_level_covers_example = range_level_covers 12 ids 4 (omega arith) not_self

abbrev three : ℕ
three = 3

at_three : IsIn 4 (range_level (new_partitioner 12 ids) 3)
unfolding range_level new_partitioner
at_three = (omega arith, omega arith)

-- A replica complains of another vote, twice with the same serial number.
abbrev complaints : List Complaint
complaints =
    complaint 1 3 2 2 no_proof ∷ complaint 1 3 2 2 no_proof ∷ complaint 2 3 1 5 no_proof ∷ []

abbrev complaint_cache : ComplaintCache
complaint_cache = record {
  score = (2, 100) ∷ [];
  suspicion_matrix = [];
  already_voted = [];
  serial_num_for_complaint = [];
  latency_matrix = [];
  faulty_nodes = [];
  complaint_cache = complaints;
  id = 3;
  config_length = 4;
}

abbrev committed : ComplaintCache
committed = record {
  score = (2, 99) ∷ [];
  suspicion_matrix = (3, (1, 1) ∷ []) ∷ [];
  already_voted = (3, (2, 1) ∷ (1, 2) ∷ []) ∷ [];
  serial_num_for_complaint = [];
  latency_matrix = [];
  faulty_nodes = 2 ∷ [];
  complaint_cache = [];
  id = 3;
  config_length = 4;
}

commits : commit_complaints complaints complaint_cache ≡ some committed
unfolding commit_complaints remove_first lookup insert
commits = refl

commit_complaints_once_example :
    commit_complaints complaints committed ≡ some (drop_pending complaints committed)
commit_complaints_once_example = commit_complaints_once complaints complaint_cache committed commits
