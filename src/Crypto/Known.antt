-- ===== src/Crypto/Known.antt =====
-- Verifying a certificate (overhead/crypto/crypto.go) may fetch a block, and leaves a replica that
-- holds only existing blocks as such.
use optilog_artifacts.Prelude.{
  ℕ, Bool, true, false, Option, none, some, ◌==◌, ltb, length, Option-cases, Bool-cases, inl, inr,
}
use optilog_artifacts.Types.{QuorumSignature, QuorumCert, AggregateQc, zero_qc}
use optilog_artifacts.Chain.{Chain, Network, get}
use optilog_artifacts.Chain.Known.{Universe, IsHashed, IsFaithful, IsKnown, get-Answers}
use optilog_artifacts.Crypto.{
  CryptoBase, verify_signed, verify_quorum_cert, verify_aggregate_qc, accept_high, high_qc,
  aggregate_messages,
}

module _ (base : CryptoBase) (genesis : ℕ) (quorum : ℕ → ℕ) (u : Universe) (fetch : Network)
    (hashed : IsHashed u) (faithful : IsFaithful u fetch) where
  verify_signed-IsKnown :
      (sig : QuorumSignature) (qc : QuorumCert) (c : Chain)
      → IsKnown u c
      → IsKnown u (verify_signed base genesis quorum fetch sig qc c).1
  unfolding verify_signed
  verify_signed-IsKnown sig qc c known =
      let after = (get-Answers u fetch qc.hash c hashed faithful known).known in
      elim (Bool-cases (ltb (length sig.participants) (quorum qc.view))) [
        | inl e ↦ rw e known
        | inr e ↦ rw e (elim (Option-cases (get fetch qc.hash c).0) [
          | inl w ↦ rw w after
          | inr (b, w) ↦ rw w after
        ])
      ]

  pub verify_quorum_cert-IsKnown :
      (qc : QuorumCert) (c : Chain)
      → IsKnown u c
      → IsKnown u (verify_quorum_cert base genesis quorum fetch qc c).1
  unfolding verify_quorum_cert
  verify_quorum_cert-IsKnown qc c known = elim (Bool-cases (qc.hash == genesis)) [
    | inl e ↦ rw e known
    | inr e ↦ rw e (elim (Option-cases qc.signature) [
      | inl q ↦ rw q known
      | inr (sig, q) ↦ rw q (verify_signed-IsKnown sig qc c known)
    ])
  ]

  accept_high-IsKnown :
      (high : QuorumCert) (r : Option Bool × Chain)
      → IsKnown u r.1
      → IsKnown u (accept_high high r).1
  unfolding accept_high
  accept_high-IsKnown high (none, c) known = known
  accept_high-IsKnown high (some true, c) known = known
  accept_high-IsKnown high (some false, c) known = known

  pub verify_aggregate_qc-IsKnown :
      (agg : AggregateQc) (c : Chain)
      → IsKnown u c
      → IsKnown u (verify_aggregate_qc base genesis quorum fetch agg c).1
  unfolding verify_aggregate_qc
  verify_aggregate_qc-IsKnown agg c known = elim (Option-cases agg.sig) [
    | inl e ↦ rw e known
    | inr (sig, e) ↦ rw e (elim (Bool-cases (ltb (length sig.participants) (quorum agg.view))) [
      | inl few ↦ rw few known
      | inr few ↦
          rw few
            (elim (Bool-cases (base.batch_verify sig (aggregate_messages agg.view sig agg.qcs))) [
              | inl v ↦ rw v (
                  accept_high-IsKnown (high_qc agg.qcs zero_qc) _
                    (verify_quorum_cert-IsKnown (high_qc agg.qcs zero_qc) c known))
              | inr v ↦ rw v known
            ])
    ])
  ]
