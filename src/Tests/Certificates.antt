-- ===== src/Tests/Certificates.antt =====
-- Certificates, votes and views on concrete data.
use optilog_artifacts.Prelude.{
  ℕ, ◌≤◌, ◌≡◌, ◌⊎◌, refl, true, false, none, some, List, [], ◌∷◌, ◌++◌, length, All, arith,
}
use optilog_artifacts.Prelude.Dict.{lookup, insert}
use optilog_artifacts.Types.{
  QuorumSignature, PartialCert, QuorumCert, AggregateQc, Block, VoteMsg, SyncInfo, block_bytes,
  new_block, view_bytes, hash_bytes, qc_bytes,
}
use optilog_artifacts.Types.Collision.{new_block_collision}
use optilog_artifacts.Chain.{get, store_all, store, local_get}
use optilog_artifacts.Crypto.{
  verify_quorum_cert, create_quorum_cert, prepare_latency_vector, verify_aggregate_qc,
  aggregate_messages, high_qc, accept_high,
}
use optilog_artifacts.Crypto.Certificates.{verify_quorum_cert_sound, verify-create_quorum_cert}
use optilog_artifacts.Crypto.Aggregate.{verify_aggregate_qc_sound, verify_aggregate_qc_panics}
use optilog_artifacts.VotingMachine.{VotingMachine, on_vote}
use optilog_artifacts.VotingMachine.Votes.{IsSound, on_vote-IsSound}
use optilog_artifacts.Synchronizer.{Synchronizer}
use optilog_artifacts.Synchronizer.Advance.{advance_view}
use optilog_artifacts.Synchronizer.Views.{Advances, advance_view-Advances}
use optilog_artifacts.Synchronizer.Checkpoint.{checkpoint_loop, checkpoint_loop_endless}
use optilog_artifacts.Tests.World.{
  world, world-IsHashed, network, network-IsFaithful, chain, chain-IsKnown, block_of, cert_of,
  sig_of, base, config, base-Combines,
}

abbrev quorum : ℕ → ℕ
quorum v = 3

verified : (verify_quorum_cert base 10 quorum network (cert_of 2 12) chain).0 ≡ some true
unfolding verify_quorum_cert get lookup store_all store insert
verified = refl

verify_quorum_cert_sound_example :
    ((cert_of 2 12).hash ≡ 10)
    ⊎ ((sig : QuorumSignature) × (b : Block) × (some (sig_of (1 ∷ 2 ∷ 3 ∷ [])) ≡ some sig)
        × (world 12 ≡ some b)
        × (3 ≤ length sig.participants)
        × (base.verify sig (block_bytes b) ≡ true))
verify_quorum_cert_sound_example =
    verify_quorum_cert_sound base 10 quorum world network (cert_of 2 12) chain world-IsHashed
      network-IsFaithful chain-IsKnown verified

abbrev vote : ℕ → PartialCert
vote i = record { signer = i; signature = sig_of (i ∷ []); block_hash = 12; time = 0 }

abbrev votes : List PartialCert
votes = vote 1 ∷ vote 2 ∷ vote 3 ∷ []

abbrev created : QuorumCert
created = record {
  signature = some (sig_of (1 ∷ 2 ∷ 3 ∷ []));
  view = 2;
  hash = 12;
  latency_vector = prepare_latency_vector (block_of 2) votes;
}

held : local_get 12 chain ≡ some (block_of 2)
unfolding local_get lookup store_all store insert
held = refl

create_run : create_quorum_cert base 10 quorum (block_of 2) votes ≡ some created
unfolding create_quorum_cert
create_run = refl

verify-create_quorum_cert_example :
    verify_quorum_cert base 10 quorum network created chain ≡ (some true, chain)
verify-create_quorum_cert_example =
    verify-create_quorum_cert base 10 quorum network (block_of 2) votes created chain base-Combines
      ((refl, refl), ((refl, refl), ((refl, refl), tt))) (omega arith) held create_run

abbrev aggregate : AggregateQc
aggregate = record {
  qcs = (1, cert_of 1 11) ∷ (2, cert_of 2 12) ∷ (3, cert_of 0 10) ∷ [];
  sig = some (sig_of (1 ∷ 2 ∷ 3 ∷ []));
  view = 4;
}

aggregate_run :
    (verify_aggregate_qc base 10 quorum network aggregate chain).0 ≡ some (some (cert_of 2 12))
unfolding verify_aggregate_qc high_qc get lookup store_all store insert accept_high
    verify_quorum_cert
aggregate_run = refl

verify_aggregate_qc_sound_example :
    All (λ (e : ℕ × QuorumCert). e.1.view ≤ 2) aggregate.qcs
    × ((verify_quorum_cert base 10 quorum network (cert_of 2 12) chain).0 ≡ some true)
    × ((sig : QuorumSignature) × (aggregate.sig ≡ some sig)
        × (3 ≤ length sig.participants)
        × (base.batch_verify sig (aggregate_messages 4 sig aggregate.qcs) ≡ true))
verify_aggregate_qc_sound_example =
    verify_aggregate_qc_sound base 10 quorum network aggregate chain (cert_of 2 12) aggregate_run

abbrev first_certs : AggregateQc
first_certs = record {
  qcs = (1, cert_of 0 10) ∷ (2, cert_of 0 10) ∷ (3, cert_of 0 10) ∷ [];
  sig = some (sig_of (1 ∷ 2 ∷ 3 ∷ []));
  view = 1;
}

verify_aggregate_qc_panics_example :
    (verify_aggregate_qc base 10 quorum network first_certs chain).0 ≡ none
verify_aggregate_qc_panics_example =
    verify_aggregate_qc_panics base 10 quorum network first_certs chain (sig_of (1 ∷ 2 ∷ 3 ∷ []))
      (omega arith) refl (omega arith) refl (refl, (refl, (refl, tt)))

abbrev machine : VotingMachine
machine = record { chain = chain; verified_votes = (12, []) ∷ []; out = [] }

machine-IsSound : IsSound config world machine
machine-IsSound = record { kept = (tt, tt); sent = tt }

abbrev vote_msg : VoteMsg
vote_msg = record { id = 2; partial_cert = vote 2; deferred = true }

on_vote-IsSound_example : IsSound config world (on_vote config 1 vote_msg machine)
on_vote-IsSound_example =
    on_vote-IsSound config world world-IsHashed network-IsFaithful 1 vote_msg machine chain-IsKnown
      machine-IsSound

abbrev synchronizer : Synchronizer
synchronizer = record {
  chain = chain;
  current_view = 2;
  high_tc = record { signature = none; view = 0 };
  high_qc = cert_of 0 10;
  last_timeout = none;
  timeouts = [];
  out = [];
}

abbrev info : SyncInfo
info = record { qc = some (cert_of 2 12); tc = none; agg_qc = none }

advance_view-Advances_example :
    Advances config synchronizer info (advance_view config info false synchronizer)
advance_view-Advances_example = advance_view-Advances config synchronizer info

checkpoint_loop_endless_example : checkpoint_loop config 50 (cert_of 9 12) 0 synchronizer ≡ none
checkpoint_loop_endless_example =
    checkpoint_loop_endless config 50 (cert_of 9 12) 0 synchronizer (block_of 2) held refl
      (omega arith) (omega arith)

new_block_collision_example :
    (new_block
      (λ bytes. length bytes)
      11
      (cert_of 1 11)
      (5 ∷ [] ++ view_bytes 3 ++ hash_bytes 12)
      2
      1
      0).hash
    ≡ (new_block
        (λ bytes. length bytes)
        11
        (record {
          signature = some (record { bytes = qc_bytes (cert_of 1 11); participants = [] });
          view = 3;
          hash = 12;
          latency_vector = [];
        })
        (5 ∷ [])
        2
        1
        0).hash
new_block_collision_example =
    new_block_collision (λ bytes. length bytes) 11 (cert_of 1 11) (5 ∷ []) [] 2 1 0 12 3
