-- ===== src/Crypto.antt =====
-- overhead/crypto/crypto.go: certificates over a signature scheme.
--
-- The scheme (overhead/crypto/ecdsa or bls12, over external libraries) is the parameter
-- `CryptoBase`; a failed Sign or Combine is `none`. A result of `none` where the source returns a
-- bool is a panic: a call of a method of a nil signature.
pub mod Certificates
pub mod Known
pub mod Bitfield
pub mod Aggregate
pub mod Cache
use Prim.Native.Nat.{bit_or}
use optilog_artifacts.Prelude.{
  ℕ, ◌+◌, ◌-◌, ◌*◌, ◌%◌, ◌^◌, Bool, true, false, ◌&&◌, Option, none, some, List, [], ◌∷◌, ◌==◌, ltb,
  if◌then◌else◌, map, length,
}
use optilog_artifacts.Prelude.Words.{u32_mod, u64_mod}
use optilog_artifacts.Prelude.Dict.{Dict, insert}
use optilog_artifacts.Types.{
  Block, QuorumSignature, PartialCert, QuorumCert, TimeoutCert, AggregateQc, TimeoutMsg,
  new_sync_info, with_qc, new_partial_cert, view_bytes, block_bytes, timeout_bytes, zero_qc,
}
use optilog_artifacts.Chain.{Chain, Network, get}

pub record CryptoBase : Type 0 where
  pub sign : List ℕ → Option QuorumSignature
  pub combine : List QuorumSignature → Option QuorumSignature
  pub verify : QuorumSignature → List ℕ → Bool
  pub batch_verify : QuorumSignature → Dict (List ℕ) → Bool

-- The id in the upper 8 bits, the difference of the times, cut to 32 bits, or-ed into it.
unfoldable pub latency_entry : ℕ → ℕ → ℕ → ℕ
latency_entry id sent received =
    bit_or ((id * 2 ^ 24) % u32_mod) ((received + u64_mod - sent) % u32_mod)

unfoldable pub prepare_latency_vector : Block → List PartialCert → List ℕ
unfolding latency_entry
prepare_latency_vector block signatures =
    map (λ (pc : PartialCert). latency_entry pc.signer block.time pc.time) signatures

-- The certificate of the highest view, from the zero value on, and the message of each sender,
-- whose bytes do not depend on the signature that stands in it.
unfoldable pub high_qc : Dict QuorumCert → QuorumCert → QuorumCert
high_qc [] high = high
high_qc ((id, qc) ∷ m) high = high_qc m (if ltb high.view qc.view then qc else high)

unfoldable pub aggregate_messages : ℕ → QuorumSignature → Dict QuorumCert → Dict (List ℕ)
aggregate_messages view sig [] = []
aggregate_messages view sig ((id, qc) ∷ m) =
    insert id
      (timeout_bytes (record {
        id = id;
        view = view;
        view_signature = sig;
        msg_signature = none;
        sync_info = with_qc new_sync_info qc;
      }))
      (aggregate_messages view sig m)

-- The last test of VerifyAggregateQC, on the answer for the highest certificate.
unfoldable pub accept_high : QuorumCert → Option Bool × Chain → Option (Option QuorumCert) × Chain
accept_high high (none, c) = (none, c)
accept_high high (some true, c) = (some (some high), c)
accept_high high (some false, c) = (some none, c)

-- `quorum` is the configuration's QuorumSize, `genesis` the hash of the genesis block.
module _ (base : CryptoBase) (genesis : ℕ) (quorum : ℕ → ℕ) where
  open base use {sign, combine, verify, batch_verify}

  unfoldable pub create_partial_cert : Block → ℕ → Option PartialCert
  create_partial_cert block now = elim (sign (block_bytes block)) [
    | none ↦ none
    | some sig ↦ some (new_partial_cert sig block.hash now)
  ]

  unfoldable pub create_quorum_cert : Block → List PartialCert → Option QuorumCert
  unfolding prepare_latency_vector
  create_quorum_cert block signatures =
      if block.hash == genesis
      then some (record { signature = none; view = 0; hash = genesis; latency_vector = [] })
      else elim (combine (map (λ (pc : PartialCert). pc.signature) signatures)) [
        | none ↦ none
        | some sig ↦ some (record {
          signature = some sig;
          view = block.view;
          hash = block.hash;
          latency_vector = prepare_latency_vector block signatures;
        })
      ]

  unfoldable pub create_timeout_cert : ℕ → List TimeoutMsg → Option TimeoutCert
  create_timeout_cert view timeouts =
      if view == 0
      then some (record { signature = none; view = 0 })
      else elim (combine (map (λ (t : TimeoutMsg). t.view_signature) timeouts)) [
        | none ↦ none
        | some sig ↦ some (record { signature = some sig; view = view })
      ]

  -- The certificates by sender, where a message has one.
  unfoldable pub timeout_qcs : List TimeoutMsg → Dict QuorumCert → Dict QuorumCert
  timeout_qcs [] m = m
  timeout_qcs (t ∷ ts) m =
      timeout_qcs ts (elim t.sync_info.qc [ none ↦ m | some qc ↦ insert t.id qc m ])

  unfoldable pub message_signatures : List TimeoutMsg → List QuorumSignature
  message_signatures [] = []
  message_signatures (t ∷ ts) =
      let rest = message_signatures ts in
      elim t.msg_signature [ none ↦ rest | some sig ↦ sig ∷ rest ]

  unfoldable pub create_aggregate_qc : ℕ → List TimeoutMsg → Option AggregateQc
  unfolding timeout_qcs message_signatures
  create_aggregate_qc view timeouts = elim (combine (message_signatures timeouts)) [
    | none ↦ none
    | some sig ↦ some (record { qcs = timeout_qcs timeouts []; sig = some sig; view = view })
  ]

  unfoldable pub verify_timeout_cert : TimeoutCert → Option Bool
  verify_timeout_cert tc = if tc.view == 0 then some true else elim tc.signature [
    | none ↦ none
    | some sig ↦ some (
        if ltb (length sig.participants) (quorum tc.view)
        then false
        else verify sig (view_bytes tc.view))
  ]

  module _ (fetch : Network) where
    unfoldable pub verify_partial_cert : PartialCert → Chain → Bool × Chain
    verify_partial_cert cert c =
        let (block, c') = get fetch cert.block_hash c in
        elim block [ none ↦ (false, c') | some b ↦ (verify cert.signature (block_bytes b), c') ]

    unfoldable pub verify_signed : QuorumSignature → QuorumCert → Chain → Option Bool × Chain
    verify_signed sig qc c =
        let (block, c') = get fetch qc.hash c in
        if ltb (length sig.participants) (quorum qc.view) then (some false, c) else elim block [
          | none ↦ (some false, c')
          | some b ↦ (some (verify sig (block_bytes b)), c')
        ]

    unfoldable pub verify_quorum_cert : QuorumCert → Chain → Option Bool × Chain
    unfolding verify_signed
    verify_quorum_cert qc c =
        if qc.hash == genesis
        then (some true, c)
        else elim qc.signature [ none ↦ (none, c) | some sig ↦ verify_signed sig qc c ]

    -- `some none` is the answer false.
    unfoldable pub verify_aggregate_qc : AggregateQc → Chain → Option (Option QuorumCert) × Chain
    verify_aggregate_qc agg c = elim agg.sig [
      | none ↦ (none, c)
      | some sig ↦
          let high = high_qc agg.qcs zero_qc in
          if ltb (length sig.participants) (quorum agg.view)
          then (some none, c)
          else if batch_verify sig (aggregate_messages agg.view sig agg.qcs)
          then accept_high high (verify_quorum_cert high c)
          else (some none, c)
    ]
