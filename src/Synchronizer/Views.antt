-- ===== src/Synchronizer/Views.antt =====
-- How AdvanceView of overhead/synchronizer/synchronizer.go moves the view and the certificates.
use optilog_artifacts.Prelude.{
  ℕ, ◌+◌, ◌%◌, ◌≤◌, ◌≡◌, refl, sym, subst, ◌∙◌, ap, if◌then◌else◌, ◌⊎◌, inl, inr, Bool, true, false,
  Option, none, some, ltb, leb, arith, Bool-cases, Option-cases,
}
use optilog_artifacts.Prelude.Words.{u64_mod}
use optilog_artifacts.Types.{QuorumCert, TimeoutCert, AggregateQc, SyncInfo}
use optilog_artifacts.Chain.{Chain}
use optilog_artifacts.Crypto.{verify_timeout_cert, verify_quorum_cert, verify_aggregate_qc}
use optilog_artifacts.Consensus.{Config}
use optilog_artifacts.Synchronizer.{Synchronizer, update_high_tc, update_high_qc}
use optilog_artifacts.Synchronizer.Advance.{
  Checked, panic, reject, accept, after_tc, check_tc, use_qc, after_qc, check_plain, after_agg,
  check_aggregate, check_qc, tell_leader, count_success, enter_view, after_checks, advance_view,
}

-- The view stays, and the highest timeout certificate does not fall.
pub record Keeps (s s' : Synchronizer) : Type 0 where
  pub view : s'.current_view ≡ s.current_view
  pub high_tc : s.high_tc.view ≤ s'.high_tc.view

abbrev KeepsAll : Synchronizer → Checked → Type 0
KeepsAll s panic = Unit {0}
KeepsAll s (reject s') = Keeps s s'
KeepsAll s (accept v timeout si s') = Keeps s s'

module _ (config : Config) (s : Synchronizer) where
  -- The views that the sync info gives: 0, and those of its certificates that are verified.
  pub data IsOffered (si : SyncInfo) : ℕ → Type 0 where
    nothing : IsOffered si 0
    timeout_cert :
        (tc : TimeoutCert)
        → si.tc ≡ some tc
        → verify_timeout_cert config.base config.genesis config.quorum tc ≡ some true
        → IsOffered si tc.view
    quorum_cert :
        (qc : QuorumCert)
        → si.qc ≡ some qc
        → (verify_quorum_cert config.base config.genesis config.quorum config.fetch qc s.chain).0
          ≡ some true
        → IsOffered si qc.view
    aggregate :
        (agg : AggregateQc) (high : QuorumCert)
        → si.agg_qc ≡ some agg
        → (verify_aggregate_qc config.base config.genesis config.quorum config.fetch agg s.chain).0
          ≡ some (some high)
        → IsOffered si agg.view
    highest_cert :
        (agg : AggregateQc) (high : QuorumCert)
        → si.agg_qc ≡ some agg
        → (verify_aggregate_qc config.base config.genesis config.quorum config.fetch agg s.chain).0
          ≡ some (some high)
        → IsOffered si high.view

  module _ (si : SyncInfo) where
    abbrev OffersAll : Checked → Type 0
    OffersAll panic = Unit {0}
    OffersAll (reject s') = Unit {0}
    OffersAll (accept v timeout si' s') = IsOffered si v

    -- After the timeout certificate the sync info and the chain are still the given ones.
    abbrev StartsAll : Checked → Type 0
    StartsAll panic = Unit {0}
    StartsAll (reject s') = Unit {0}
    StartsAll (accept v timeout si' s') = IsOffered si v × (si' ≡ si) × (s'.chain ≡ s.chain)

    after_tc-StartsAll :
        (tc : TimeoutCert) (o : Option Bool)
        → si.tc ≡ some tc
        → verify_timeout_cert config.base config.genesis config.quorum tc ≡ o
        → StartsAll (after_tc config tc si s o)
    unfolding after_tc update_high_tc
    after_tc-StartsAll tc none e q = tt
    after_tc-StartsAll tc (some false) e q = tt
    after_tc-StartsAll tc (some true) e q = (timeout_cert tc e q, refl, ground arith)

    check_tc-StartsAll : StartsAll (check_tc config si s)
    unfolding check_tc
    check_tc-StartsAll = go si.tc refl
      where
        go :
            (o : Option TimeoutCert)
            → si.tc ≡ o
            → StartsAll (elim o [
              | none ↦ accept 0 false si s
              | some tc ↦
                  after_tc config tc si s
                    (verify_timeout_cert config.base config.genesis config.quorum tc)
            ])
        go none e = (nothing, refl, refl)
        go (some tc) e = after_tc-StartsAll tc _ e refl

    use_qc-OffersAll :
        (qc : QuorumCert) (v : ℕ) (timeout : Bool) (si' : SyncInfo) (s' : Synchronizer)
        → IsOffered si v
        → IsOffered si qc.view
        → OffersAll (use_qc config qc v timeout si' s')
    unfolding use_qc
    use_qc-OffersAll qc v timeout si' s' p q = elim (Bool-cases (leb v qc.view)) [
      | inl e ↦ rw (e, use_qc) q
      | inr e ↦ rw (e, use_qc) p
    ]

    module _ (v : ℕ) (timeout : Bool) (s' : Synchronizer) (p : IsOffered si v) where
      after_qc-OffersAll :
          (qc : QuorumCert) (r : Option Bool × Chain)
          → (r.0 ≡ some true → IsOffered si qc.view)
          → OffersAll (after_qc config qc v timeout si s' r)
      unfolding after_qc
      after_qc-OffersAll qc (none, c) q = tt
      after_qc-OffersAll qc (some false, c) q = tt
      after_qc-OffersAll qc (some true, c) q =
          use_qc-OffersAll qc v timeout si (record s' { chain = c }) p (q refl)

      check_plain-OffersAll :
          (o : Option QuorumCert)
          → si.qc ≡ o
          → s'.chain ≡ s.chain
          → OffersAll (check_plain config o v timeout si s')
      unfolding check_plain
      check_plain-OffersAll none e k = p
      check_plain-OffersAll (some qc) e k =
          after_qc-OffersAll qc _ (λ q. quorum_cert qc e (ap (λ c. (verify c).0) (sym k) ∙ q))
        where
          verify : Chain → Option Bool × Chain
          verify c = verify_quorum_cert config.base config.genesis config.quorum config.fetch qc c

      after_agg-OffersAll :
          (agg : AggregateQc) (r : Option (Option QuorumCert) × Chain)
          → ((high : QuorumCert)
              → r.0 ≡ some (some high)
              → IsOffered si agg.view × IsOffered si high.view)
          → OffersAll (after_agg config agg v timeout si s' r)
      unfolding after_agg
      after_agg-OffersAll agg (none, c) q = tt
      after_agg-OffersAll agg (some none, c) q = tt
      after_agg-OffersAll agg (some (some high), c) q = elim (Bool-cases (leb v agg.view)) [
        | inl e ↦
            rw (e, after_agg)
              (use_qc-OffersAll high agg.view true _ _ (q high refl).0 (q high refl).1)
        | inr e ↦ rw (e, after_agg) (use_qc-OffersAll high v timeout _ _ p (q high refl).1)
      ]

      check_agg-OffersAll :
          (agg : AggregateQc)
          → si.agg_qc ≡ some agg
          → s'.chain ≡ s.chain
          → OffersAll (check_aggregate config agg v timeout si s')
      unfolding check_aggregate
      check_agg-OffersAll agg e k = after_agg-OffersAll agg _ (λ high q.
          let w = ap (λ c. (verify c).0) (sym k) ∙ q in
          (aggregate agg high e w, highest_cert agg high e w))
        where
          verify : Chain → Option (Option QuorumCert) × Chain
          verify c = verify_aggregate_qc config.base config.genesis config.quorum config.fetch agg c

    check_qc-OffersAll :
        (o : Option AggregateQc) (r : Checked)
        → si.agg_qc ≡ o
        → StartsAll r
        → OffersAll (check_qc config o r)
    unfolding check_qc
    check_qc-OffersAll o panic e k = tt
    check_qc-OffersAll o (reject s') e k = tt
    check_qc-OffersAll none (accept v timeout si' s') e (p, q, k) =
        subst (λ x. OffersAll (check_plain config x.qc v timeout x s')) (sym q)
          (check_plain-OffersAll v timeout s' p si.qc refl k)
    check_qc-OffersAll (some agg) (accept v timeout si' s') e (p, q, k) =
        subst
          (λ x. OffersAll (
            if config.use_agg_qc
            then check_aggregate config agg v timeout x s'
            else check_plain config x.qc v timeout x s'))
          (sym q)
          (either config.use_agg_qc _ _ (check_agg-OffersAll v timeout s' p agg e k)
            (check_plain-OffersAll v timeout s' p si.qc refl k))
      where
        either :
            (b : Bool) (x y : Checked) → OffersAll x → OffersAll y → OffersAll (if b then x else y)
        either true x y m n = m
        either false x y m n = n

  update_high_qc-Keeps :
      (qc : QuorumCert) (s' : Synchronizer)
      → Keeps s s'
      → Keeps s (update_high_qc config.fetch qc s')
  unfolding update_high_qc
  update_high_qc-Keeps qc s' k = record {
    view = ground (arith, k.view);
    high_tc = ground (arith, k.high_tc);
  }

  after_tc-Keeps :
      (tc : TimeoutCert) (si : SyncInfo) (o : Option Bool) → KeepsAll s (after_tc config tc si s o)
  unfolding after_tc update_high_tc
  after_tc-Keeps tc si none = tt
  after_tc-Keeps tc si (some false) = record { view = refl; high_tc = omega arith }
  after_tc-Keeps tc si (some true) = record { view = ground arith; high_tc = ground arith }

  check_tc-Keeps : (si : SyncInfo) → KeepsAll s (check_tc config si s)
  unfolding check_tc
  check_tc-Keeps si = elim (Option-cases si.tc) [
    | inl e ↦ rw (e, check_tc) (record { view = refl; high_tc = omega arith })
    | inr (tc, e) ↦ rw (e, check_tc) (after_tc-Keeps tc si _)
  ]

  use_qc-Keeps :
      (qc : QuorumCert) (v : ℕ) (timeout : Bool) (si : SyncInfo) (s' : Synchronizer)
      → Keeps s s'
      → KeepsAll s (use_qc config qc v timeout si s')
  unfolding use_qc
  use_qc-Keeps qc v timeout si s' k = elim (Bool-cases (leb v qc.view)) [
    | inl e ↦ rw (e, use_qc) (update_high_qc-Keeps qc s' k)
    | inr e ↦ rw (e, use_qc) (update_high_qc-Keeps qc s' k)
  ]

  module _ (s' : Synchronizer) (k : Keeps s s') (si : SyncInfo) where
    after_qc-Keeps :
        (qc : QuorumCert) (v : ℕ) (timeout : Bool) (r : Option Bool × Chain)
        → KeepsAll s (after_qc config qc v timeout si s' r)
    unfolding after_qc
    after_qc-Keeps qc v timeout (none, c) = tt
    after_qc-Keeps qc v timeout (some false, c) = record { view = k.view; high_tc = k.high_tc }
    after_qc-Keeps qc v timeout (some true, c) =
        use_qc-Keeps qc v timeout si (record s' { chain = c })
          (record { view = k.view; high_tc = k.high_tc })

    check_plain-Keeps :
        (o : Option QuorumCert) (v : ℕ) (timeout : Bool)
        → KeepsAll s (check_plain config o v timeout si s')
    unfolding check_plain
    check_plain-Keeps none v timeout = k
    check_plain-Keeps (some qc) v timeout = after_qc-Keeps qc v timeout _

    after_agg-Keeps :
        (agg : AggregateQc) (v : ℕ) (timeout : Bool) (r : Option (Option QuorumCert) × Chain)
        → KeepsAll s (after_agg config agg v timeout si s' r)
    unfolding after_agg
    after_agg-Keeps agg v timeout (none, c) = tt
    after_agg-Keeps agg v timeout (some none, c) = record { view = k.view; high_tc = k.high_tc }
    after_agg-Keeps agg v timeout (some (some high), c) = elim (Bool-cases (leb v agg.view)) [
      | inl e ↦
          rw (e, after_agg)
            (use_qc-Keeps high agg.view true _ (record s' { chain = c })
              (record { view = k.view; high_tc = k.high_tc }))
      | inr e ↦
          rw (e, after_agg)
            (use_qc-Keeps high v timeout _ (record s' { chain = c })
              (record { view = k.view; high_tc = k.high_tc }))
    ]

  check_qc-Keeps :
      (o : Option AggregateQc) (r : Checked) → KeepsAll s r → KeepsAll s (check_qc config o r)
  unfolding check_qc check_aggregate
  check_qc-Keeps o panic k = tt
  check_qc-Keeps o (reject s') k = k
  check_qc-Keeps none (accept v timeout si s') k = check_plain-Keeps s' k si si.qc v timeout
  check_qc-Keeps (some agg) (accept v timeout si s') k = elim (Bool-cases config.use_agg_qc) [
    | inl e ↦ rw (e, check_qc) (after_agg-Keeps s' k si agg v timeout _)
    | inr e ↦ rw (e, check_qc) (check_plain-Keeps s' k si si.qc v timeout)
  ]

  -- The view stays, or is the one after a view that the sync info gives and that is not below it, on
  -- 64 bits; and the highest timeout certificate does not fall.
  abbrev pub Advances : SyncInfo → Option Synchronizer → Type 0
  Advances si none = Unit {0}
  Advances si (some s') =
      ((s'.current_view ≡ s.current_view)
        ⊎ ((v : ℕ) × IsOffered si v × (s.current_view ≤ v) × (s'.current_view ≡ (v + 1) % u64_mod)))
      × (s.high_tc.view ≤ s'.high_tc.view)

  enter_view-view :
      (v : ℕ) (timeout : Bool) (si : SyncInfo) (s' : Synchronizer)
      → ((enter_view config v timeout si false s').current_view ≡ (v + 1) % u64_mod)
        × ((enter_view config v timeout si false s').high_tc ≡ s'.high_tc)
  unfolding enter_view tell_leader count_success
  enter_view-view v timeout si s' = ground arith

  after_checks-Advances :
      (si : SyncInfo) (r : Checked)
      → KeepsAll s r
      → OffersAll si r
      → Advances si (after_checks config false r)
  unfolding after_checks
  after_checks-Advances si panic k o = tt
  after_checks-Advances si (reject s') k o = (inl k.view, k.high_tc)
  after_checks-Advances si (accept v timeout si' s') k o =
      elim (Bool-cases (ltb v s'.current_view)) [
        | inl e ↦ rw (e, after_checks) ((inl k.view, k.high_tc))
        | inr e ↦
            rw (e, after_checks)
              (let (w, t) = enter_view-view v timeout si' s' in
                (
                  inr (v, o, ground (arith, k.view), w),
                  ground (arith, k.high_tc, ap (λ (c : TimeoutCert). c.view) t),
                ))
      ]

  -- AdvanceView outside a reconfiguration panics, or leaves the view, or enters, on 64 bits, the
  -- one after a view that is not below it and that the sync info gives, namely 0 or the view of a
  -- verified certificate of it or of the one that its aggregate certificate returns; and the view
  -- of the highest timeout certificate does not fall.
  pub advance_view-Advances : (si : SyncInfo) → Advances si (advance_view config si false s)
  unfolding advance_view
  advance_view-Advances si =
      after_checks-Advances si (check_qc config si.agg_qc (check_tc config si s))
        (check_qc-Keeps si.agg_qc (check_tc config si s) (check_tc-Keeps si))
        (check_qc-OffersAll si si.agg_qc (check_tc config si s) refl (check_tc-StartsAll si))
