-- ===== src/Agreement/Runs.antt =====
-- Histories of calls of overhead/consensus/consensus.go with the simple rules.
use optilog_artifacts.Prelude.{
  ℕ, suc, ◌≡◌, refl, Option, none, some, List, [], ◌∷◌, arith, ltb, Bool-cases, inl, inr, Bool,
  true, false, if◌then◌else◌,
}
use optilog_artifacts.Types.{
  Block, QuorumCert, ProposeMsg, SyncInfo, Complaint, new_sync_info, with_qc,
}
use optilog_artifacts.Chain.Known.{Universe, IsHashed, IsFaithful}
use optilog_artifacts.Chain.Kept.{Supplies}
use optilog_artifacts.Consensus.{
  Rules, Acceptor, Config, emit, broadcast, store_block, get_block, stop_voting, update_latency,
}
use optilog_artifacts.Consensus.Propose.{previous_proposed, mark_proposed}
use optilog_artifacts.Consensus.Lead.{
  qc_or_zero, tell_acceptor, record_latency, make_proposal, send_proposal, lead_by, lead_with,
  propose, Call, receives, stops, leads, step, run,
}
use optilog_artifacts.Agreement.{simple_rules, Replica, votes_of}
use optilog_artifacts.Agreement.History.{IsHistory-mono, Stays, IsVoter, Stays-IsVoter}
use optilog_artifacts.Agreement.Quiet.{store_block-Stays}
use optilog_artifacts.Agreement.Checks.{if-Stays, previous_proposed-Stays}
use optilog_artifacts.Agreement.Ballot.{Advanced, Fits}
use optilog_artifacts.Agreement.Proposal.{on_propose-IsVoter}

module _ (u : Universe) (config : Config) (A : Acceptor) (Sync : Type 0) (view_of : Sync → ℕ)
    (advance : SyncInfo → Replica config.fetch A Sync → Replica config.fetch A Sync) where
  abbrev Event : Type 0
  Event = Call (simple_rules config.fetch) A Sync config view_of advance

  -- The proposals of a call, received or made, are fit for the replica.
  abbrev pub IsFit :
      Call (simple_rules config.fetch) A Sync config view_of advance
      → Replica config.fetch A Sync
      → Type 0
  IsFit (receives proposal) cs = Fits u config proposal cs
  IsFit (stops view) cs = Unit {0}
  IsFit (leads cert none pending) cs = Unit {0}
  IsFit (leads cert (some cmd) pending) cs =
      Fits u config
        (make_proposal (simple_rules config.fetch) A Sync config cert cmd pending (view_of cs.sync))
        cs

  abbrev pub AreFit :
      List (Call (simple_rules config.fetch) A Sync config view_of advance)
      → Replica config.fetch A Sync
      → Type 0
  AreFit [] cs = Unit {0}
  AreFit (c ∷ calls) cs =
      IsFit c cs
      × AreFit calls (step (simple_rules config.fetch) A Sync config view_of advance c cs)

  module _ (hashed : IsHashed u) (faithful : IsFaithful u config.fetch)
      (supplies : Supplies u config.fetch)
      (steady : (qc : QuorumCert) (p : Block) (cs : Replica config.fetch A Sync)
        → u qc.hash ≡ some p
        → IsVoter u config cs
        → Advanced u config p cs (advance (with_qc new_sync_info qc) cs)) where
    abbrev Rep : Type 0
    Rep = Replica config.fetch A Sync

    abbrev W : Replica config.fetch A Sync → Type 0
    W = IsVoter u config

    abbrev R : Rules
    R = simple_rules config.fetch

    -- The state has the votes of another, which it keeps the invariant of.
    record Same (cs cs' : Rep) : Type 0 where
      stays : (V : List Block) (n l : ℕ) → Stays u config V n l cs → Stays u config V n l cs'
      same_sync : cs'.sync ≡ cs.sync

    Same-IsVoter : (cs cs' : Rep) → Same cs cs' → W cs → W cs'
    Same-IsVoter cs cs' same w =
        Stays-IsVoter u config (votes_of cs.out) cs.last_vote (cs.rules).locked.view cs' w.history (
          same.stays _ _ _
            (record { last = refl; votes = refl; lock = omega arith; sound = w.sound }))

    Same-Fits :
        (proposal : ProposeMsg) (cs cs' : Rep)
        → Same cs cs'
        → W cs
        → Fits u config proposal cs
        → Fits u config proposal cs'
    Same-Fits proposal cs cs' same w fits =
        let s =
          same.stays (votes_of cs.out) cs.last_vote (cs.rules).locked.view
            (record { last = refl; votes = refl; lock = omega arith; sound = w.sound }) in
        record { exists = fits.exists; own = rw s.votes fits.own }

    previous-sync : (h : ℕ) (cs : Rep) → (previous_proposed R A Sync config h cs).sync ≡ cs.sync
    unfolding previous_proposed get_block
    previous-sync h cs = marked (get_block config.fetch h cs).0
      where
        marked :
            (o : Option Block)
            → (mark_proposed R A Sync config o (get_block config.fetch h cs).1).sync ≡ cs.sync
        marked none = refl
        marked (some b) = refl

    tell_acceptor-Same :
        (qc : Option QuorumCert) (cs : Rep) → Same cs (tell_acceptor R A Sync config qc cs)
    unfolding tell_acceptor
    tell_acceptor-Same none cs = record { stays = λ V n l s. s; same_sync = refl }
    tell_acceptor-Same (some qc) cs = record {
      stays = λ V n l s. previous_proposed-Stays u config hashed faithful A Sync V n l qc.hash cs s;
      same_sync = previous-sync qc.hash cs;
    }

    record_latency-Same : (v : List ℕ) (cs : Rep) → Same cs (record_latency R A Sync config v cs)
    unfolding record_latency
    record_latency-Same [] cs = record { stays = λ V n l s. s; same_sync = refl }
    record_latency-Same (x ∷ xs) cs = record {
      stays = λ V n l s.
          if-Stays u config hashed faithful A Sync V n l config.has_ranking _ cs
            (record { last = s.last; votes = s.votes; lock = s.lock; sound = s.sound }) s;
      same_sync = either config.has_ranking;
    }
      where
        either :
            (b : Bool)
            → (if b then emit (update_latency config.id (x ∷ xs)) cs else cs).sync ≡ cs.sync
        either true = refl
        either false = refl

    send_proposal-IsVoter :
        (proposal : ProposeMsg) (cs : Rep)
        → Fits u config proposal cs
        → W cs
        → W (send_proposal R A Sync config view_of advance proposal cs)
    unfolding send_proposal
    send_proposal-IsVoter proposal cs fits w =
        on_propose-IsVoter u config hashed faithful supplies A Sync view_of advance steady proposal
          _ (Same-Fits proposal cs _ stored w fits) (Same-IsVoter cs _ stored w)
      where
        stored : Same cs (emit (broadcast proposal) (store_block proposal.block cs))
        stored = record {
          stays = λ V n l s.
              let t =
                store_block-Stays u config hashed faithful A Sync V n l proposal.block cs
                  fits.exists s in
              record { last = t.last; votes = t.votes; lock = t.lock; sound = t.sound };
          same_sync = unfold store_block in refl;
        }

    propose-IsVoter :
        (cert : SyncInfo) (command : Option (List ℕ)) (pending : List Complaint) (cs : Rep)
        → IsFit (leads cert command pending) cs
        → W cs
        → W (propose R A Sync config view_of advance cert command pending cs)
    unfolding propose lead_with lead_by
    propose-IsVoter cert none pending cs fits w =
        Same-IsVoter cs _ (tell_acceptor-Same cert.qc cs) w
    propose-IsVoter cert (some cmd) pending cs fits w =
        let told = tell_acceptor-Same cert.qc cs in
        let cs1 = tell_acceptor R A Sync config cert.qc cs in
        let w1 = Same-IsVoter cs cs1 told w in
        let p = make_proposal R A Sync config cert cmd pending (view_of cs1.sync) in
        let f1 : Fits u config p cs1 = rw told.same_sync (Same-Fits _ cs cs1 told w fits) in
        let noted = record_latency-Same (qc_or_zero cert.qc).latency_vector cs1 in
        send_proposal-IsVoter p _ (Same-Fits p cs1 _ noted w1 f1) (Same-IsVoter cs1 _ noted w1)

    stop_voting-IsVoter : (view : ℕ) (cs : Rep) → W cs → W (stop_voting view cs)
    unfolding stop_voting
    stop_voting-IsVoter view cs w = elim (Bool-cases (ltb cs.last_vote view)) [
      | inl e ↦ rw e (record {
        sound = w.sound;
        history =
            IsHistory-mono u config (suc cs.last_vote) (suc view) _ _ (votes_of cs.out)
              (ground arith) (omega arith) w.history;
      })
      | inr e ↦ rw e w
    ]

    step-IsVoter :
        (call : Event) (cs : Rep)
        → IsFit call cs
        → W cs
        → W (step R A Sync config view_of advance call cs)
    unfolding step
    step-IsVoter (receives p) cs fits w =
        on_propose-IsVoter u config hashed faithful supplies A Sync view_of advance steady p cs fits
          w
    step-IsVoter (stops view) cs fits w = stop_voting-IsVoter view cs w
    step-IsVoter (leads cert command pending) cs fits w =
        propose-IsVoter cert command pending cs fits w

    -- Over any history of calls whose proposals are fit for the replica, its votes keep their history.
    pub run-IsVoter :
        (calls : List (Call (simple_rules config.fetch) A Sync config view_of advance))
        (cs : Replica config.fetch A Sync)
        → AreFit calls cs
        → IsVoter u config cs
        → IsVoter u config (run (simple_rules config.fetch) A Sync config view_of advance calls cs)
    unfolding run
    run-IsVoter [] cs fit w = w
    run-IsVoter (c ∷ calls) cs fit w =
        run-IsVoter calls (step R A Sync config view_of advance c cs) fit.1
          (step-IsVoter c cs fit.0 w)
