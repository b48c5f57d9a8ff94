-- ===== src/Rules/Fast/Commit.antt =====
-- What the two-chain rules commit and vote for.
use optilog_artifacts.Prelude.{ℕ, ◌≤◌, ◌≡◌, true, Option, none, some, arith, Option-cases, inl, inr}
use optilog_artifacts.Prelude.Words.{add_u64}
use optilog_artifacts.Types.{Block, QuorumCert, ProposeMsg, AggregateQc}
use optilog_artifacts.Chain.{Chain, Network, get}
use optilog_artifacts.Chain.Known.{Universe, IsHashed, IsFaithful, IsKnown, get-Answers}
use optilog_artifacts.Chain.Ancestry.{IsAncestor, extends_sound}
use optilog_artifacts.Rules.Step.{Holds, >>=-Holds, guard-Holds, pure-Holds}
use optilog_artifacts.Rules.Fast.{is_two_chain, qc_ref, commit_rule, vote_rule}

-- `block` certifies its parent, that certifies its own, and the three views are consecutive.
pub record TwoChain (u : Universe) (block grandparent : Block) : Type 0 where
  pub parent : Block
  pub certified1 : u block.cert.hash ≡ some parent
  pub certified2 : u parent.cert.hash ≡ some grandparent
  pub parent1 : block.parent ≡ parent.hash
  pub parent2 : parent.parent ≡ grandparent.hash
  pub view1 : block.view ≡ add_u64 parent.view 1
  pub view2 : parent.view ≡ add_u64 grandparent.view 1

module _ (u : Universe) (fetch : Network) (hashed : IsHashed u)
    (faithful : IsFaithful u fetch) where
  get-Holds : (h : ℕ) → Holds (IsKnown u) (λ b. u h ≡ some b) (get fetch h)
  get-Holds h c known =
      let answers = get-Answers u fetch h c hashed faithful known in
      record { keeps = answers.known; gives = answers.found }

  qc_ref-Holds : (qc : QuorumCert) → Holds (IsKnown u) (λ b. u qc.hash ≡ some b) (qc_ref fetch qc)
  unfolding qc_ref
  qc_ref-Holds qc =
      >>=-Holds (IsKnown u) _ _ _ _ (guard-Holds (IsKnown u) _) (λ _ _. get-Holds qc.hash)

  two_chain :
      (block p g : Block)
      → u block.cert.hash ≡ some p
      → u p.cert.hash ≡ some g
      → is_two_chain block p g ≡ true
      → TwoChain u block g
  two_chain block p g e1 e2 t = record {
    parent = p;
    certified1 = e1;
    certified2 = e2;
    parent1 = ground arith;
    parent2 = ground arith;
    view1 = ground arith;
    view2 = ground arith;
  }

  -- From a replica that holds only existing blocks, CommitRule returns a block only at the end of
  -- two certified parents in consecutive views, and the replica still holds only existing blocks.
  pub commit_rule-TwoChain :
      (block : Block) → Holds (IsKnown u) (TwoChain u block) (commit_rule fetch block)
  unfolding commit_rule
  commit_rule-TwoChain block = >>=-Holds (IsKnown u) _ C _ _ (qc_ref-Holds block.cert) λ p e1.
      >>=-Holds (IsKnown u) _ C _ _ (qc_ref-Holds p.cert) λ g e2.
        >>=-Holds (IsKnown u) _ C _ _ (guard-Holds (IsKnown u) _)
          λ _ t. pure-Holds (IsKnown u) C g (two_chain block p g e1 e2 t)
    where
      C : Block → Type 0
      C = TwoChain u block

  -- A proposal with an aggregate certificate is accepted only if it extends the existing block that
  -- it certifies; one without, only if it is not below the replica's view and one above its
  -- certificate's.
  abbrev pub Accepted : ℕ → ProposeMsg → Option AggregateQc → Type 0
  Accepted view m (some agg) = (q : Block) × (u m.block.cert.hash ≡ some q) × IsAncestor u q m.block
  Accepted view m none = (view ≤ m.block.view) × (m.block.view ≡ add_u64 m.block.cert.view 1)

  pub vote_rule-Accepted :
      (view : ℕ) (m : ProposeMsg) (c : Chain)
      → IsKnown u c
      → (vote_rule fetch view m c).0 ≡ some true
      → Accepted view m m.aggregate_qc
  unfolding vote_rule
  vote_rule-Accepted view m c known e = elim (Option-cases m.aggregate_qc) [
    | inl q ↦ rw q (ground arith)
    | inr (agg, q) ↦ rw q (elim (Option-cases (get fetch m.block.cert.hash c).0) [
      | inl w ↦ absurd (ground arith)
      | inr (b, w) ↦
          let answers = get-Answers u fetch m.block.cert.hash c hashed faithful known in
          (
            b,
            answers.found b w,
            extends_sound u fetch hashed faithful m.block b _ answers.known (ground arith),
          )
    ])
  ]

-- From a replica that holds only existing blocks, CommitRule of the fast rules returns a block
-- only if the given block certifies it over one other, each the parent of the next and one view
-- below it.
pub fast_commit_rule-certified :
    (u : Universe) (fetch : Network) (block grandparent : Block) (c : Chain)
    → IsHashed u
    → IsFaithful u fetch
    → IsKnown u c
    → (commit_rule fetch block c).0 ≡ some grandparent
    → TwoChain u block grandparent
fast_commit_rule-certified u fetch block grandparent c hashed faithful known =
    (commit_rule-TwoChain u fetch hashed faithful block c known).gives grandparent
