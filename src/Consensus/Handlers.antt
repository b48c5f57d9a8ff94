-- ===== src/Consensus/Handlers.antt =====
-- The steps of OnPropose of overhead/consensus/consensus.go that sign nothing.
use optilog_artifacts.Prelude.{
  ℕ, ◌≡◌, refl, Bool, true, false, Option, none, some, List, [], ◌∷◌, ◌==◌, Bool-cases,
  Option-cases, inl, inr,
}
use optilog_artifacts.Prelude.Words.{add_u64}
use optilog_artifacts.Types.{
  Block, QuorumCert, PartialCert, AggregateQc, ProposeMsg, Complaint, qc_equals,
}
use optilog_artifacts.Chain.{Chain}
use optilog_artifacts.Crypto.{verify_quorum_cert, verify_aggregate_qc}
use optilog_artifacts.Rules.Step.{guard}
use optilog_artifacts.Consensus.{
  Rules, Acceptor, Config, ConsensusBase, get_block, put_chain, chain_of,
}
use optilog_artifacts.Consensus.Quiet.{
  IsQuiet, IsQuiet-refl, IsQuiet-trans, get_block-IsQuiet, commit-IsQuiet,
}
use optilog_artifacts.Consensus.Propose.{
  answer, answer_high, check_high, check_aggregate, report_complaints, check_cert, answer_vote,
  check_vote, mark_proposed, previous_proposed, commit_if, apply_commit_rule, deliver,
}

module _ (R : Rules) (A : Acceptor) (Sync : Type 0) (config : Config) where
  answer-IsQuiet :
      (o : Option Bool) (cs d : ConsensusBase R A Sync)
      → IsQuiet cs d
      → IsQuiet cs (answer R A Sync config o d).1
  unfolding answer
  answer-IsQuiet none cs d q = record { same_vote = q.same_vote; keeps = q.keeps }
  answer-IsQuiet (some true) cs d q = q
  answer-IsQuiet (some false) cs d q = q

  guard-IsQuiet :
      (b : Bool) (cs d : ConsensusBase R A Sync) → IsQuiet cs d → IsQuiet cs (guard b d).1
  guard-IsQuiet true cs d q = q
  guard-IsQuiet false cs d q = q

  answer_high-IsQuiet :
      (cert : QuorumCert) (o : Option (Option QuorumCert)) (cs d : ConsensusBase R A Sync)
      → IsQuiet cs d
      → IsQuiet cs (answer_high R A Sync config cert o d).1
  unfolding answer_high
  answer_high-IsQuiet cert none cs d q = record { same_vote = q.same_vote; keeps = q.keeps }
  answer_high-IsQuiet cert (some none) cs d q = q
  answer_high-IsQuiet cert (some (some high)) cs d q = guard-IsQuiet (qc_equals cert high) cs d q

  put_chain-IsQuiet : (c : Chain) (cs : ConsensusBase R A Sync) → IsQuiet cs (put_chain c cs)
  unfolding put_chain
  put_chain-IsQuiet c cs = record { same_vote = refl; keeps = λ n h. h }

  check_high-IsQuiet :
      (cert : QuorumCert) (agg : AggregateQc) (cs : ConsensusBase R A Sync)
      → IsQuiet cs (check_high R A Sync config cert agg cs).1
  unfolding check_high
  check_high-IsQuiet cert agg cs =
      let r =
        verify_aggregate_qc config.base config.genesis config.quorum config.fetch agg
          (chain_of cs) in
      answer_high-IsQuiet cert r.0 cs (put_chain r.1 cs) (put_chain-IsQuiet r.1 cs)

  check_aggregate-some :
      (proposal : ProposeMsg) (agg : AggregateQc) (cs : ConsensusBase R A Sync)
      → proposal.aggregate_qc ≡ some agg
      → config.use_agg_qc ≡ true
      → check_aggregate R A Sync config proposal cs
        ≡ check_high R A Sync config proposal.block.cert agg cs
  check_aggregate-some proposal agg cs e b = unfold check_aggregate in rw (e, b)

  pub check_aggregate-IsQuiet :
      (proposal : ProposeMsg) (cs : ConsensusBase R A Sync)
      → IsQuiet cs (check_aggregate R A Sync config proposal cs).1
  check_aggregate-IsQuiet proposal cs = elim (Option-cases proposal.aggregate_qc) [
    | inl e ↦ unfold check_aggregate in rw e (IsQuiet-refl cs)
    | inr (agg, e) ↦ elim (Bool-cases config.use_agg_qc) [
      | inl b ↦
          rw (check_aggregate-some proposal agg cs e b)
            (check_high-IsQuiet proposal.block.cert agg cs)
      | inr b ↦ unfold check_aggregate in rw (e, b) (IsQuiet-refl cs)
    ]
  ]

  pub report_complaints-IsQuiet :
      (proposal : ProposeMsg) (xs : List Complaint) (cs : ConsensusBase R A Sync)
      → IsQuiet cs (report_complaints R A Sync config proposal xs cs)
  unfolding report_complaints
  report_complaints-IsQuiet proposal [] cs = IsQuiet-refl cs
  report_complaints-IsQuiet proposal (x ∷ xs) cs = elim (Bool-cases config.has_ranking) [
    | inl e ↦ rw e (record { same_vote = refl; keeps = λ n h. h })
    | inr e ↦ rw e (IsQuiet-refl cs)
  ]

  pub check_cert-IsQuiet :
      (cert : QuorumCert) (cs : ConsensusBase R A Sync)
      → IsQuiet cs (check_cert R A Sync config cert cs).1
  unfolding check_cert
  check_cert-IsQuiet cert cs =
      let r =
        verify_quorum_cert config.base config.genesis config.quorum config.fetch cert
          (chain_of cs) in
      answer-IsQuiet r.0 cs (put_chain r.1 cs) (put_chain-IsQuiet r.1 cs)

  answer_vote-IsQuiet :
      (o : Option Bool) (cs d : ConsensusBase R A Sync)
      → IsQuiet cs d
      → IsQuiet cs (answer_vote R A Sync config o d).1
  unfolding answer_vote
  answer_vote-IsQuiet none cs d q = record { same_vote = q.same_vote; keeps = q.keeps }
  answer_vote-IsQuiet (some true) cs d q = q
  answer_vote-IsQuiet (some false) cs d q = q

  set_rules-IsQuiet :
      (s : R.State) (cs : ConsensusBase R A Sync) → IsQuiet cs (record cs { rules = s })
  set_rules-IsQuiet s cs = record { same_vote = refl; keeps = λ n h. h }

  pub check_vote-IsQuiet :
      (view : ℕ) (proposal : ProposeMsg) (cs : ConsensusBase R A Sync)
      → IsQuiet cs (check_vote R A Sync config view proposal cs).1
  unfolding check_vote
  check_vote-IsQuiet view proposal cs =
      answer_vote-IsQuiet (R.vote_rule view proposal cs.rules).0 cs _ (set_rules-IsQuiet _ cs)

  mark_proposed-IsQuiet :
      (o : Option Block) (cs d : ConsensusBase R A Sync)
      → IsQuiet cs d
      → IsQuiet cs (mark_proposed R A Sync config o d)
  unfolding mark_proposed
  mark_proposed-IsQuiet none cs d q = q
  mark_proposed-IsQuiet (some b) cs d q = record { same_vote = q.same_vote; keeps = q.keeps }

  pub previous_proposed-IsQuiet :
      (h : ℕ) (cs : ConsensusBase R A Sync) → IsQuiet cs (previous_proposed R A Sync config h cs)
  unfolding previous_proposed
  previous_proposed-IsQuiet h cs =
      mark_proposed-IsQuiet (get_block config.fetch h cs).0 cs _
        (get_block-IsQuiet config.fetch h cs)

  commit_if-IsQuiet :
      (o : Option Block) (cs : ConsensusBase R A Sync) → IsQuiet cs (commit_if R A Sync config o cs)
  unfolding commit_if
  commit_if-IsQuiet none cs = IsQuiet-refl cs
  commit_if-IsQuiet (some b) cs = commit-IsQuiet config.fetch b cs

  pub apply_commit_rule-IsQuiet :
      (block : Block) (cs : ConsensusBase R A Sync)
      → IsQuiet cs (apply_commit_rule R A Sync config block cs)
  unfolding apply_commit_rule
  apply_commit_rule-IsQuiet block cs =
      let r = R.commit_rule block cs.rules in
      IsQuiet-trans cs _ _ (set_rules-IsQuiet r.1 cs)
        (commit_if-IsQuiet r.0 (record cs { rules = r.1 }))

  pub deliver-IsQuiet :
      (pc : PartialCert) (cs : ConsensusBase R A Sync) → IsQuiet cs (deliver R A Sync config pc cs)
  unfolding deliver
  deliver-IsQuiet pc cs = elim (Bool-cases config.has_handel) [
    | inl h ↦ rw h (record { same_vote = refl; keeps = λ n h. h })
    | inr h ↦ rw h (elim (Bool-cases (config.leader (add_u64 cs.last_vote 1) == config.id)) [
      | inl i ↦ rw i (record { same_vote = refl; keeps = λ n h. h })
      | inr i ↦
          rw i (elim (Bool-cases (config.has_replica (config.leader (add_u64 cs.last_vote 1)))) [
            | inl r ↦ rw r (record { same_vote = refl; keeps = λ n h. h })
            | inr r ↦ rw r (IsQuiet-refl cs)
          ])
    ])
  ]
