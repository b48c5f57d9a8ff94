-- ===== src/Consensus/Propose.antt =====
-- Propose and OnPropose of overhead/consensus/consensus.go.
use optilog_artifacts.Prelude.{
  ℕ, Bool, true, false, not, Option, none, some, List, [], ◌∷◌, ◌==◌, leb, if◌then◌else◌,
}
use optilog_artifacts.Prelude.Words.{add_u64}
use optilog_artifacts.Types.{
  Block, QuorumCert, PartialCert, AggregateQc, ProposeMsg, SyncInfo, Complaint, new_sync_info,
  with_qc, qc_equals,
}
use optilog_artifacts.Crypto.{verify_quorum_cert, verify_aggregate_qc, create_partial_cert}
use optilog_artifacts.Rules.Step.{Step, ◌>>=◌, ◌>>◌, guard, modify}
use optilog_artifacts.Consensus.{
  Rules, Acceptor, Config, ConsensusBase, signed, commit_complaints, check_latency_vector,
  vote_event, begin_handel, send_vote, stuck, panic, emit, get_block, store_block, chain_of,
  put_chain,
}
use optilog_artifacts.Consensus.Commit.{commit}

module _ (R : Rules) (A : Acceptor) (Sync : Type 0) (config : Config) where
  open config use {fetch, base, genesis, quorum, id, leader}

  abbrev pub Cs : Type 0
  Cs = ConsensusBase R A Sync

  -- An answer of the crypto module: go on if it is true, and crash if it is a panic.
  unfoldable pub answer : Option Bool → Step Cs (Unit {0})
  answer none cs = (none, emit panic cs)
  answer (some true) cs = (some tt, cs)
  answer (some false) cs = (none, cs)

  unfoldable pub answer_high : QuorumCert → Option (Option QuorumCert) → Step Cs (Unit {0})
  answer_high cert none cs = (none, emit panic cs)
  answer_high cert (some none) cs = (none, cs)
  answer_high cert (some (some high)) cs = guard (qc_equals cert high) cs

  unfoldable pub check_high : QuorumCert → AggregateQc → Step Cs (Unit {0})
  unfolding chain_of put_chain answer_high
  check_high cert agg cs =
      let (r, c) = verify_aggregate_qc base genesis quorum fetch agg (chain_of cs) in
      answer_high cert r (put_chain c cs)

  unfoldable pub check_aggregate : ProposeMsg → Step Cs (Unit {0})
  unfolding check_high
  check_aggregate proposal cs = elim proposal.aggregate_qc [
    | none ↦ (some tt, cs)
    | some agg ↦ if config.use_agg_qc then check_high proposal.block.cert agg cs else (some tt, cs)
  ]

  unfoldable pub report_complaints : ProposeMsg → List Complaint → Cs → Cs
  report_complaints proposal [] cs = cs
  report_complaints proposal (x ∷ xs) cs =
      if config.has_ranking
      then emit (check_latency_vector proposal.block.cert.latency_vector proposal.block.proposer)
          (emit (commit_complaints (x ∷ xs)) cs)
      else cs

  unfoldable pub check_cert : QuorumCert → Step Cs (Unit {0})
  unfolding chain_of put_chain answer
  check_cert cert cs =
      let (r, c) = verify_quorum_cert base genesis quorum fetch cert (chain_of cs) in
      answer r (put_chain c cs)

  unfoldable pub answer_vote : Option Bool → Step Cs (Unit {0})
  answer_vote none cs = (none, emit stuck cs)
  answer_vote (some true) cs = (some tt, cs)
  answer_vote (some false) cs = (none, cs)

  unfoldable pub check_vote : ℕ → ProposeMsg → Step Cs (Unit {0})
  unfolding answer_vote
  check_vote view proposal cs =
      let (r, s) = R.vote_rule view proposal cs.rules in answer_vote r (record cs { rules = s })

  -- The command of the certified block counts as proposed, if the block can be had.
  unfoldable pub mark_proposed : Option Block → Cs → Cs
  mark_proposed none cs = cs
  mark_proposed (some b) cs = record cs { acceptor = A.proposed b.cmd cs.acceptor }

  unfoldable pub previous_proposed : ℕ → Cs → Cs
  unfolding get_block mark_proposed
  previous_proposed h cs = let (b, cs') = get_block fetch h cs in mark_proposed b cs'

  unfoldable pub check_command : List ℕ → Step Cs (Unit {0})
  check_command cmd cs = guard (A.accept cmd cs.acceptor) cs

  unfoldable pub commit_if : Option Block → Cs → Cs
  commit_if none cs = cs
  commit_if (some b) cs = commit fetch b cs

  unfoldable pub apply_commit_rule : Block → Cs → Cs
  unfolding commit_if
  apply_commit_rule block cs =
      let (b, s) = R.commit_rule block cs.rules in commit_if b (record cs { rules = s })

  unfoldable pub sign_block : Option PartialCert → Block → Step Cs PartialCert
  sign_block none block cs = (none, cs)
  sign_block (some pc) block cs =
      (some pc, record cs { last_vote = block.view; out = signed block ∷ cs.out })

  -- To Handel, to itself through the event loop, or to the next leader. (With a ranking, some
  -- replicas first wait for the latency to that leader; time is not modelled.)
  unfoldable pub deliver : PartialCert → Cs → Cs
  deliver pc cs =
      let next = leader (add_u64 cs.last_vote 1) in
      if config.has_handel
      then emit (begin_handel pc) cs
      else if next == id
      then emit (vote_event pc) cs
      else if config.has_replica next
      then emit (send_vote next pc) cs
      else cs

  -- `view_of` reads the synchronizer's view, and `advance` is its AdvanceView, which may call back.
  module _ (view_of : Sync → ℕ) (advance : SyncInfo → Cs → Cs) where
    unfoldable pub vote_steps : ProposeMsg → Step Cs (Unit {0})
    vote_steps proposal = do
      check_aggregate proposal
      modify (report_complaints proposal proposal.complaints)
      check_cert proposal.block.cert
      (λ cs. check_vote (view_of cs.sync) proposal cs)
      modify (previous_proposed proposal.block.cert.hash)
      check_command proposal.block.cmd
      modify (store_block proposal.block)
      modify (apply_commit_rule proposal.block)
      modify (advance (with_qc new_sync_info proposal.block.cert))
      (λ cs. guard (not (leb proposal.block.view cs.last_vote)) cs)
      pc ←
          sign_block (create_partial_cert base genesis quorum proposal.block config.now)
            proposal.block
      modify (deliver pc)

    unfoldable pub on_propose : ProposeMsg → Cs → Cs
    unfolding vote_steps
    on_propose proposal cs = (vote_steps proposal cs).1
