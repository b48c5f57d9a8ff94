-- ===== src/Crypto/Aggregate.antt =====
-- VerifyAggregateQC of overhead/crypto/crypto.go, and the highest certificate of a set.
use optilog_artifacts.Prelude.{
  ℕ, ◌≤◌, ◌≡◌, refl, ◌≢◌, Bool, true, false, Option, none, some, [], ◌∷◌, ltb, if◌then◌else◌,
  length, All, arith, inl, inr, Option-cases,
}
use optilog_artifacts.Prelude.Dict.{Dict}
use optilog_artifacts.Types.{QuorumSignature, QuorumCert, AggregateQc, zero_qc}
use optilog_artifacts.Chain.{Chain, Network}
use optilog_artifacts.Crypto.{
  CryptoBase, accept_high, high_qc, aggregate_messages, verify_quorum_cert, verify_aggregate_qc,
}

high_qc-le : (m : Dict QuorumCert) (h : QuorumCert) → h.view ≤ (high_qc m h).view
unfolding high_qc
high_qc-le [] h = omega arith
high_qc-le ((id, qc) ∷ m) h = ground (arith, high_qc-le m (if ltb h.view qc.view then qc else h))

high_qc-max :
    (m : Dict QuorumCert) (h : QuorumCert)
    → All (λ (e : ℕ × QuorumCert). e.1.view ≤ (high_qc m h).view) m
unfolding high_qc
high_qc-max [] h = tt
high_qc-max ((id, qc) ∷ m) h =
    let h' = (if ltb h.view qc.view then qc else h) in
    (ground (arith, high_qc-le m h'), high_qc-max m h')

high_qc-zero :
    (m : Dict QuorumCert)
    → All (λ (e : ℕ × QuorumCert). e.1.view ≡ 0) m
    → high_qc m zero_qc ≡ zero_qc
unfolding high_qc
high_qc-zero [] z = refl
high_qc-zero ((id, qc) ∷ m) z = ground (arith, high_qc-zero m z.1)

accept_high-inv :
    (top : QuorumCert) (r : Option Bool × Chain) (high : QuorumCert)
    → (accept_high top r).0 ≡ some (some high)
    → (high ≡ top) × (r.0 ≡ some true)
unfolding accept_high
accept_high-inv top (none, c) high e = absurd (cc)
accept_high-inv top (some true, c) high e = (ground arith, refl)
accept_high-inv top (some false, c) high e = absurd (cc)

module _ (base : CryptoBase) (genesis : ℕ) (quorum : ℕ → ℕ) (fetch : Network) where
  -- What VerifyAggregateQC returns has at least the view of every certificate in the set and is
  -- itself accepted, and the set has a quorum of participants and a valid signature.
  pub verify_aggregate_qc_sound :
      (agg : AggregateQc) (c : Chain) (high : QuorumCert)
      → (verify_aggregate_qc base genesis quorum fetch agg c).0 ≡ some (some high)
      → All (λ (e : ℕ × QuorumCert). e.1.view ≤ high.view) agg.qcs
        × ((verify_quorum_cert base genesis quorum fetch high c).0 ≡ some true)
        × ((sig : QuorumSignature) × (agg.sig ≡ some sig)
            × (quorum agg.view ≤ length sig.participants)
            × (base.batch_verify sig (aggregate_messages agg.view sig agg.qcs) ≡ true))
  unfolding verify_aggregate_qc
  verify_aggregate_qc_sound agg c high e = elim (Option-cases agg.sig) [
    | inl q ↦ absurd (ground arith)
    | inr (sig, q) ↦
        let top = high_qc agg.qcs zero_qc in
        let answer = verify_quorum_cert base genesis quorum fetch top c in
        let inv = accept_high-inv top answer high in
        let same : high ≡ top = ground (arith, inv) in
        (
          rw same (high_qc-max agg.qcs zero_qc),
          rw same (ground (arith, inv)),
          (sig, q, ground arith, ground arith),
        )
  ]

  -- VerifyAggregateQC panics on a set with a quorum of participants and a valid signature in which
  -- every certificate has view 0, if the hash of the genesis block is not 0.
  pub verify_aggregate_qc_panics :
      (agg : AggregateQc) (c : Chain) (sig : QuorumSignature)
      → genesis ≢ 0
      → agg.sig ≡ some sig
      → quorum agg.view ≤ length sig.participants
      → base.batch_verify sig (aggregate_messages agg.view sig agg.qcs) ≡ true
      → All (λ (e : ℕ × QuorumCert). e.1.view ≡ 0) agg.qcs
      → (verify_aggregate_qc base genesis quorum fetch agg c).0 ≡ none
  unfolding verify_aggregate_qc verify_quorum_cert accept_high
  verify_aggregate_qc_panics agg c sig real s enough valid zero =
      ground (arith, high_qc-zero agg.qcs zero)
