-- ===== src/Agreement/Proposal.antt =====
-- OnPropose of overhead/consensus/consensus.go with the simple rules: it keeps the history of votes.
use optilog_artifacts.Prelude.{ℕ, suc, ◌≤◌, ◌≡◌, refl, some, List, arith}
use optilog_artifacts.Types.{Block, QuorumCert, ProposeMsg, SyncInfo, new_sync_info, with_qc}
use optilog_artifacts.Chain.Known.{Universe, IsHashed, IsFaithful}
use optilog_artifacts.Chain.Kept.{Supplies}
use optilog_artifacts.Rules.Step.{
  ◌>>=◌, ◌>>◌, modify, Step, Triple, >>=-Triple, Holds, Holds-Triple, modify-Triple, Triple-state,
}
use optilog_artifacts.Rules.Simple.{commit_rule}
use optilog_artifacts.Rules.Simple.Commit.{simple_commit_rule-LockRises}
use optilog_artifacts.Rules.Simple.Locks.{commit_rule-locks}
use optilog_artifacts.Consensus.{Rules, Acceptor, Config}
use optilog_artifacts.Consensus.Propose.{apply_commit_rule, vote_steps, on_propose}
use optilog_artifacts.Agreement.{simple_rules, Replica, votes_of}
use optilog_artifacts.Agreement.History.{
  IsAccepted, scheme_of, IsOwn, IsHistory, IsHistory-mono, Stays, IsVoter, Stays-IsVoter,
}
use optilog_artifacts.Agreement.Quiet.{store_block-Stays}
use optilog_artifacts.Agreement.Ballot.{Advanced, Fits, Ready, vote, vote-Triple}
use optilog_artifacts.Agreement.Checks.{
  check_aggregate-Holds, report_complaints-Stays, Verified-IsAccepted, check_cert-Holds,
  check_vote-Holds, previous_proposed-Stays, check_command-Holds, apply_commit_rule-Stays,
}

module _ (u : Universe) (config : Config) (hashed : IsHashed u)
    (faithful : IsFaithful u config.fetch) (supplies : Supplies u config.fetch) (A : Acceptor)
    (Sync : Type 0) where
  abbrev Rep : Type 0
  Rep = Replica config.fetch A Sync

  abbrev W : Replica config.fetch A Sync → Type 0
  W = IsVoter u config

  abbrev R : Rules
  R = simple_rules config.fetch

  module _ (view_of : Sync → ℕ) (advance : SyncInfo → Rep → Rep)
      (steady : (qc : QuorumCert) (p : Block) (cs : Replica config.fetch A Sync)
        → u qc.hash ≡ some p
        → W cs
        → Advanced u config p cs (advance (with_qc new_sync_info qc) cs)) where
    advance-Ready :
        (block p : Block) (V : List Block) (n l : ℕ) (cs : Rep)
        → u block.cert.hash ≡ some p
        → l ≤ p.view
        → IsHistory u config (suc n) l V
        → IsOwn u config V block.cert
        → Stays u config V n l cs
          × ((gp : Block) → u p.cert.hash ≡ some gp → gp.view ≤ (cs.rules).locked.view)
        → Ready u config block p (advance (with_qc new_sync_info block.cert) cs)
    advance-Ready block p V n l cs e low history own (s, locked) =
        let w = Stays-IsVoter u config V n l cs history s in
        let next = steady block.cert p cs e w in
        record {
          voter = next.voter;
          bounded = next.bounded (
              rw (s.last, s.votes)
                (IsHistory-mono u config (suc n) (suc n) l p.view V (omega arith) low history));
          own = λ sig b q f valid mine. next.more b (rw s.votes (own sig b q f valid mine));
          locked = λ gp f. omega (arith, locked gp f, next.lock_rises);
        }

    module _ (V : List Block) (n l : ℕ) (proposal : ProposeMsg)
        (exists : u proposal.block.hash ≡ some proposal.block)
        (own : IsOwn u config V proposal.block.cert)
        (history : IsHistory u config (suc n) l V) where
      abbrev S : Replica config.fetch A Sync → Type 0
      S = Stays u config V n l

      abbrev T : {B : Type 0} → Step (Replica config.fetch A Sync) B → Type 0
      T m = Triple S (λ _. Unit {0}) W W m

      weaker : (cs : Rep) → S cs → W cs
      weaker cs s = Stays-IsVoter u config V n l cs history s

      -- From the CommitRule on.
      commit-Triple :
          (p : Block)
          → u proposal.block.cert.hash ≡ some p
          → l ≤ p.view
          → IsAccepted u (scheme_of config) proposal.block.cert p
          → T (
              modify (apply_commit_rule R A Sync config proposal.block)
              >> (modify (advance (with_qc new_sync_info proposal.block.cert))
                  >> vote u config A Sync proposal.block))
      commit-Triple p e low a =
          >>=-Triple _ Locked W _ W S _ _ (modify-Triple S Locked W _ locks) λ _ _.
            >>=-Triple _ (Ready u config proposal.block p) W _ W Locked _ _
              (modify-Triple Locked (Ready u config proposal.block p) W _
                λ cs s. advance-Ready proposal.block p V n l cs e low history own s)
              λ _ _. vote-Triple u config A Sync proposal.block p a
        where
          Locked : Rep → Type 0
          Locked cs =
              Stays u config V n l cs
              × ((gp : Block) → u p.cert.hash ≡ some gp → gp.view ≤ (cs.rules).locked.view)

          at :
              (k : ℕ) (cs : Rep)
              → S cs
              → k ≤ (commit_rule config.fetch proposal.block cs.rules).1.locked.view
              → Stays u config V n k (apply_commit_rule R A Sync config proposal.block cs)
          at k cs s =
              apply_commit_rule-Stays u config hashed faithful A Sync V n k l proposal.block cs s

          locks : (cs : Rep) → S cs → Locked (apply_commit_rule R A Sync config proposal.block cs)
          locks cs s = (
            at l cs s (
                omega (
                  arith,
                  s.lock,
                  (simple_commit_rule-LockRises config.fetch proposal.block cs.rules).moved,
                )),
            λ gp f.
                (at gp.view cs s (
                  commit_rule-locks u config.fetch hashed faithful proposal.block p gp cs.rules
                    supplies s.sound e f)).lock,
          )

      steps-Triple : T (vote_steps R A Sync config view_of advance proposal)
      unfolding vote_steps
      steps-Triple =
          B _ _ (H _ (check_aggregate-Holds u config hashed faithful A Sync V n l proposal)) λ _ _.
            B _ _
              (M _ λ cs s.
                report_complaints-Stays u config hashed faithful A Sync V n l proposal
                  proposal.complaints cs s)
              λ _ _.
                B _ _ (H _ (check_cert-Holds u config hashed faithful A Sync V n l cert)) λ _ v.
                  B _ _
                    (H _ (check_vote-Holds u config hashed faithful A Sync V n l view_of proposal))
                    λ _ (p, e, low).
                      B _ _
                        (M _
                          (previous_proposed-Stays u config hashed faithful A Sync V n l cert.hash))
                        λ _ _.
                          B _ _
                            (H _ (
                              check_command-Holds u config hashed faithful A Sync V n l
                                proposal.block.cmd))
                            λ _ _.
                              B _ _
                                (M _ λ cs s.
                                  store_block-Stays u config hashed faithful A Sync V n l
                                    proposal.block cs exists s)
                                λ _ _.
                                  commit-Triple p e low (Verified-IsAccepted u config cert p e v)
        where
          cert : QuorumCert
          cert = proposal.block.cert

          M :
              (f : Rep → Rep)
              → ((cs : Rep) → S cs → S (f cs))
              → Triple S (λ _. Unit {0}) S W (modify f)
          M f h = modify-Triple S S W f h

          H : {C : Type 0} {P : C → Type 0} (m : Step Rep C) → Holds S P m → Triple S P S W m
          H m h = Holds-Triple S W _ m weaker h

          B :
              {C : Type 0} {P : C → Type 0} (m : Step Rep C) (f : C → Step Rep (Unit {0}))
              → Triple S P S W m
              → ((c : C) → P c → T (f c))
              → T (m >>= f)
          B m f h k = >>=-Triple _ S W _ W S m f h k

    -- OnPropose on any proposal of an existing block keeps the history of votes, on every path.
    pub on_propose-IsVoter :
        (proposal : ProposeMsg) (cs : Rep)
        → Fits u config proposal cs
        → W cs
        → W (on_propose R A Sync config view_of advance proposal cs)
    unfolding on_propose
    on_propose-IsVoter proposal cs fits w =
        Triple-state (Stays u config (votes_of cs.out) cs.last_vote (cs.rules).locked.view) W
          (λ _. Unit {0}) _ cs
          (steps-Triple (votes_of cs.out) cs.last_vote (cs.rules).locked.view proposal fits.exists
            fits.own w.history)
          (record { last = refl; votes = refl; lock = omega arith; sound = w.sound })
