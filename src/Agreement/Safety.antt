-- ===== src/Agreement/Safety.antt =====
-- Agreement: from the promises of the replicas that are not faulty, the blocks that the simple rules
-- (overhead/consensus/simplehotstuff/simplehotstuff.go) commit are on one branch.
use optilog_artifacts.Prelude.{
  ℕ, zero, suc, ◌+◌, ◌≤◌, ◌<◌, ◌≡◌, refl, ap, subst, some, List, arith, inl, inr, ◌⊎◌, leb, ◌==◌,
  Bool-cases,
}
use optilog_artifacts.Types.{Block}
use optilog_artifacts.Types.IdSet.{IdSet}
use optilog_artifacts.Chain.Known.{Universe}
use optilog_artifacts.Rules.Simple.Commit.{ViewChain}
use optilog_artifacts.Agreement.History.{Scheme, IsAccepted}
use optilog_artifacts.Agreement.System.{
  RestsOn, here, over, Setting, Quorum, Certified, accepted-Certified, meet, Certified-once, parent,
  Certified-Quorum,
}

module _ {u : Universe} {scheme : Scheme} {origin : Block} {ids faulty : IdSet}
    {votes : ℕ → List Block} (sys : Setting u scheme origin ids faulty votes) where
  -- A commit: three certified blocks in consecutive views, each on the one before.
  record Triad (c : Block) : Type 0 where
    p : Block
    gp : Block
    rests_p : u p.cert.hash ≡ some gp
    rests_gp : u gp.cert.hash ≡ some c
    quorum_p : Quorum u scheme ids p
    quorum_gp : Quorum u scheme ids gp
    certified_c : Certified u scheme origin ids c
    view_p : p.view ≡ c.view + 2
    view_gp : gp.view ≡ c.view + 1

  triad : (block c p : Block) → IsAccepted u scheme block.cert p → ViewChain u block c → Triad c
  triad block c p a chain =
      let same : p ≡ chain.p = ground (arith, a.found, chain.certified_p) in
      let cp : Certified u scheme origin ids chain.p =
        subst (Certified u scheme origin ids) same (accepted-Certified sys block.cert p a) in
      let qp = Certified-Quorum sys chain.p chain.gp cp chain.certified_gp in
      let g = parent sys chain.p chain.gp qp chain.certified_gp in
      let qg = Certified-Quorum sys chain.gp c g.certified_p chain.certified_ggp in
      let d = parent sys chain.gp c qg chain.certified_ggp in
      record {
        p = chain.p;
        gp = chain.gp;
        rests_p = chain.certified_gp;
        rests_gp = chain.certified_ggp;
        quorum_p = qp;
        quorum_gp = qg;
        certified_c = d.certified_p;
        view_p = omega (arith, chain.views, g.lower, d.lower);
        view_gp = omega (arith, chain.views, g.lower, d.lower);
      }

  -- Every certified block that is not below a committed block rests on it.
  climb :
      (f : ℕ) (c d : Block)
      → Triad c
      → Certified u scheme origin ids d
      → d.view < f
      → c.view ≤ d.view
      → RestsOn u c d
  climb zero c d t q lt le = absurd (omega arith)
  climb (suc f) c d t q lt le = elim (Bool-cases (d.view == c.view)) [
    | inl e ↦ here (Certified-once sys d c q t.certified_c (ground arith))
    | inr n0 ↦ elim (Bool-cases (d.view == t.gp.view)) [
      | inl e ↦
          let same =
            Certified-once sys t.gp d (record { certified = inr t.quorum_gp }) q (ground arith) in
          subst (RestsOn u c) same (over c t.rests_gp (here refl))
      | inr n1 ↦ elim (Bool-cases (d.view == t.p.view)) [
        | inl e ↦
            let same =
              Certified-once sys t.p d (record { certified = inr t.quorum_p }) q (ground arith) in
            subst (RestsOn u c) same (over t.gp t.rests_p (over c t.rests_gp (here refl)))
        | inr n2 ↦
            let above : t.p.view < d.view = ground (arith, t.view_p, t.view_gp) in
            elim q.certified [
              | inl x ↦ absurd (omega (arith, sys.start.lowest, ap (λ (y : Block). y.view) x))
              | inr r ↦
                  let w = meet sys t.p d t.quorum_p r in
                  let (b, a) = w.voting.accepted d w.voted_b in
                  let q' = parent sys d b r a.found in
                  let floor =
                    w.voting.locked t.p d b t.gp c w.voted_a w.voted_b above t.rests_p t.rests_gp
                      a.found in
                  over b a.found (climb f c b t q'.certified_p (omega (arith, q'.lower)) floor)
            ]
      ]
    ]
  ]

  -- Two blocks that CommitRule returns for proposals whose certificates are accepted are on one
  -- branch.
  pub commits-RestsOn :
      (block block' c c' p p' : Block)
      → IsAccepted u scheme block.cert p
      → IsAccepted u scheme block'.cert p'
      → ViewChain u block c
      → ViewChain u block' c'
      → RestsOn u c c' ⊎ RestsOn u c' c
  commits-RestsOn block block' c c' p p' a a' chain chain' =
      let t = triad block c p a chain in
      let t' = triad block' c' p' a' chain' in
      elim (Bool-cases (leb c.view c'.view)) [
        | inl e ↦ inl (climb (suc c'.view) c c' t t'.certified_c (omega arith) (ground arith))
        | inr e ↦ inr (climb (suc c.view) c' c t' t.certified_c (omega arith) (ground arith))
      ]
