-- ===== src/Consensus/Lead.antt =====
-- The leader's side of overhead/consensus/consensus.go: Propose, and histories of calls.
use optilog_artifacts.Prelude.{ℕ, Option, none, some, List, [], ◌∷◌, if◌then◌else◌}
use optilog_artifacts.Types.{QuorumCert, ProposeMsg, SyncInfo, Complaint, new_block, zero_qc}
use optilog_artifacts.Consensus.{
  Rules, Acceptor, Config, update_latency, broadcast, emit, store_block, stop_voting,
}
use optilog_artifacts.Consensus.Propose.{Cs, previous_proposed, on_propose}

abbrev pub qc_or_zero : Option QuorumCert → QuorumCert
qc_or_zero none = zero_qc
qc_or_zero (some qc) = qc

module _ (R : Rules) (A : Acceptor) (Sync : Type 0) (config : Config) where
  unfoldable pub tell_acceptor : Option QuorumCert → Cs R A Sync config → Cs R A Sync config
  tell_acceptor none cs = cs
  tell_acceptor (some qc) cs = previous_proposed R A Sync config qc.hash cs

  unfoldable pub record_latency : List ℕ → Cs R A Sync config → Cs R A Sync config
  record_latency [] cs = cs
  record_latency (x ∷ xs) cs =
      if config.has_ranking then emit (update_latency config.id (x ∷ xs)) cs else cs

  -- The proposal that a leader without a ProposeRule makes; `pending` is what GetPendingComplaints
  -- of the ranking returns.
  unfoldable pub make_proposal : SyncInfo → List ℕ → List Complaint → ℕ → ProposeMsg
  make_proposal cert cmd pending view =
      let qc = qc_or_zero cert.qc in
      record {
        id = config.id;
        block = new_block config.sha256 qc.hash qc cmd view config.id config.now;
        aggregate_qc = if config.use_agg_qc then cert.agg_qc else none;
        complaints = if config.has_ranking then pending else [];
      }

  module _ (view_of : Sync → ℕ) (advance : SyncInfo → Cs R A Sync config → Cs R A Sync config) where
    unfoldable pub send_proposal : ProposeMsg → Cs R A Sync config → Cs R A Sync config
    send_proposal proposal cs =
        on_propose R A Sync config view_of advance proposal
          (emit (broadcast proposal) (store_block proposal.block cs))

    unfoldable pub ruled : Option ProposeMsg → Cs R A Sync config → Cs R A Sync config
    unfolding send_proposal
    ruled none cs = cs
    ruled (some proposal) cs = send_proposal proposal cs

    -- By the ProposeRule, if the rules have one.
    unfoldable pub lead_by :
        Option (SyncInfo → List ℕ → R.State → Option ProposeMsg)
        → SyncInfo
        → List ℕ
        → List Complaint
        → Cs R A Sync config
        → Cs R A Sync config
    unfolding ruled record_latency make_proposal send_proposal
    lead_by (some rule) cert cmd pending cs = ruled (rule cert cmd cs.rules) cs
    lead_by none cert cmd pending cs =
        send_proposal (make_proposal cert cmd pending (view_of cs.sync))
          (record_latency (qc_or_zero cert.qc).latency_vector cs)

    unfoldable pub lead_with :
        SyncInfo → List ℕ → List Complaint → Cs R A Sync config → Cs R A Sync config
    unfolding lead_by
    lead_with cert cmd pending cs = lead_by R.propose_rule cert cmd pending cs

    -- `command` is the answer of the command queue, none if its context ended first.
    unfoldable pub propose :
        SyncInfo → Option (List ℕ) → List Complaint → Cs R A Sync config → Cs R A Sync config
    unfolding tell_acceptor lead_with
    propose cert command pending cs =
        let cs' = tell_acceptor cert.qc cs in
        elim command [ none ↦ cs' | some cmd ↦ lead_with cert cmd pending cs' ]

    pub data Call : Type 0 where
      receives : ProposeMsg → Call
      stops : ℕ → Call
      leads : SyncInfo → Option (List ℕ) → List Complaint → Call

    unfoldable pub step : Call → Cs R A Sync config → Cs R A Sync config
    unfolding propose
    step (receives proposal) cs = on_propose R A Sync config view_of advance proposal cs
    step (stops view) cs = stop_voting view cs
    step (leads cert command pending) cs = propose cert command pending cs

    unfoldable pub run : List Call → Cs R A Sync config → Cs R A Sync config
    unfolding step
    run [] cs = cs
    run (c ∷ calls) cs = run calls (step c cs)
