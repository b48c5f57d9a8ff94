-- ===== src/Consensus/History.antt =====
-- The blocks that a replica signs over a history of calls of overhead/consensus/consensus.go.
use optilog_artifacts.Prelude.{ℕ, Option, none, some, List, [], ◌∷◌, Bool-cases, inl, inr}
use optilog_artifacts.Types.{QuorumCert, ProposeMsg, SyncInfo, Complaint}
use optilog_artifacts.Consensus.{Rules, Acceptor, Config, ConsensusBase}
use optilog_artifacts.Consensus.Quiet.{IsOrdered, quiet, stop_voting-IsOrdered}
use optilog_artifacts.Consensus.Handlers.{previous_proposed-IsQuiet}
use optilog_artifacts.Consensus.Propose.{Cs}
use optilog_artifacts.Consensus.Voting.{on_propose-IsOrdered, store_block-IsQuiet}
use optilog_artifacts.Consensus.Lead.{
  tell_acceptor, record_latency, send_proposal, ruled, lead_by, lead_with, propose, Call, step, run,
  receives, stops, leads, make_proposal, qc_or_zero,
}

module _ (R : Rules) (A : Acceptor) (Sync : Type 0) (config : Config) (view_of : Sync → ℕ)
    (advance : SyncInfo → Cs R A Sync config → Cs R A Sync config)
    (calm : (si : SyncInfo) (cs : ConsensusBase R A Sync)
      → IsOrdered cs
      → IsOrdered (advance si cs)) where
  tell_acceptor-IsOrdered :
      (qc : Option QuorumCert) (cs : ConsensusBase R A Sync)
      → IsOrdered cs
      → IsOrdered (tell_acceptor R A Sync config qc cs)
  unfolding tell_acceptor
  tell_acceptor-IsOrdered none cs o = o
  tell_acceptor-IsOrdered (some qc) cs o =
      quiet cs _ (previous_proposed-IsQuiet R A Sync config qc.hash cs) o

  record_latency-IsOrdered :
      (v : List ℕ) (cs : ConsensusBase R A Sync)
      → IsOrdered cs
      → IsOrdered (record_latency R A Sync config v cs)
  unfolding record_latency
  record_latency-IsOrdered [] cs o = o
  record_latency-IsOrdered (x ∷ xs) cs o = elim (Bool-cases config.has_ranking) [
    | inl e ↦ rw e (record { ordered = o.ordered })
    | inr e ↦ rw e o
  ]

  send_proposal-IsOrdered :
      (proposal : ProposeMsg) (cs : ConsensusBase R A Sync)
      → IsOrdered cs
      → IsOrdered (send_proposal R A Sync config view_of advance proposal cs)
  unfolding send_proposal
  send_proposal-IsOrdered proposal cs o =
      let stored = quiet cs _ (store_block-IsQuiet R A Sync config proposal.block cs) o in
      on_propose-IsOrdered R A Sync config view_of advance calm proposal _
        (record { ordered = stored.ordered })

  ruled-IsOrdered :
      (o : Option ProposeMsg) (cs : ConsensusBase R A Sync)
      → IsOrdered cs
      → IsOrdered (ruled R A Sync config view_of advance o cs)
  unfolding ruled
  ruled-IsOrdered none cs o = o
  ruled-IsOrdered (some p) cs o = send_proposal-IsOrdered p cs o

  lead_by-IsOrdered :
      (rule : Option (SyncInfo → List ℕ → R.State → Option ProposeMsg)) (cert : SyncInfo)
      (cmd : List ℕ) (pending : List Complaint) (cs : ConsensusBase R A Sync)
      → IsOrdered cs
      → IsOrdered (lead_by R A Sync config view_of advance rule cert cmd pending cs)
  unfolding lead_by
  lead_by-IsOrdered none cert cmd pending cs o =
      send_proposal-IsOrdered (make_proposal R A Sync config cert cmd pending (view_of cs.sync)) _
        (record_latency-IsOrdered (qc_or_zero cert.qc).latency_vector cs o)
  lead_by-IsOrdered (some rule) cert cmd pending cs o =
      ruled-IsOrdered (rule cert cmd cs.rules) cs o

  lead_with-IsOrdered :
      (cert : SyncInfo) (cmd : List ℕ) (pending : List Complaint) (cs : ConsensusBase R A Sync)
      → IsOrdered cs
      → IsOrdered (lead_with R A Sync config view_of advance cert cmd pending cs)
  unfolding lead_with
  lead_with-IsOrdered = lead_by-IsOrdered R.propose_rule

  propose-IsOrdered :
      (cert : SyncInfo) (command : Option (List ℕ)) (pending : List Complaint)
      (cs : ConsensusBase R A Sync)
      → IsOrdered cs
      → IsOrdered (propose R A Sync config view_of advance cert command pending cs)
  unfolding propose
  propose-IsOrdered cert none pending cs o = tell_acceptor-IsOrdered cert.qc cs o
  propose-IsOrdered cert (some cmd) pending cs o =
      lead_with-IsOrdered cert cmd pending _ (tell_acceptor-IsOrdered cert.qc cs o)

  step-IsOrdered :
      (call : Call R A Sync config view_of advance) (cs : ConsensusBase R A Sync)
      → IsOrdered cs
      → IsOrdered (step R A Sync config view_of advance call cs)
  unfolding step
  step-IsOrdered (receives p) cs o =
      on_propose-IsOrdered R A Sync config view_of advance calm p cs o
  step-IsOrdered (stops view) cs o = stop_voting-IsOrdered view cs o
  step-IsOrdered (leads cert command pending) cs o = propose-IsOrdered cert command pending cs o

  -- Over any history of received proposals, own proposals and stopped views the views of the
  -- blocks that the replica signs rise strictly, from a replica whose votes so far are in order,
  -- if AdvanceView of the synchronizer keeps them in order.
  pub run-IsOrdered :
      (calls : List (Call R A Sync config view_of advance)) (cs : ConsensusBase R A Sync)
      → IsOrdered cs
      → IsOrdered (run R A Sync config view_of advance calls cs)
  unfolding run
  run-IsOrdered [] cs o = o
  run-IsOrdered (c ∷ calls) cs o =
      run-IsOrdered calls (step R A Sync config view_of advance c cs) (step-IsOrdered c cs o)
