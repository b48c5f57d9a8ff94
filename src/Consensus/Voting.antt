-- ===== src/Consensus/Voting.antt =====
-- The blocks that OnPropose of overhead/consensus/consensus.go signs.
use optilog_artifacts.Prelude.{
  ℕ, suc, ◌≤◌, ◌≡◌, refl, false, not, Option, none, some, List, leb, arith, Bool-cases, inl, inr,
}
use optilog_artifacts.Types.{Block, PartialCert, ProposeMsg, SyncInfo, new_sync_info, with_qc}
use optilog_artifacts.Crypto.{create_partial_cert}
use optilog_artifacts.Rules.Step.{Step, ◌>>=◌, ◌>>◌, guard, modify, Holds, >>=-Holds}
use optilog_artifacts.Consensus.{Rules, Acceptor, Config, ConsensusBase, store_block}
use optilog_artifacts.Consensus.Quiet.{SignedBelow-mono, IsOrdered, IsQuiet, quiet}
use optilog_artifacts.Consensus.Handlers.{
  check_aggregate-IsQuiet, report_complaints-IsQuiet, check_cert-IsQuiet, check_vote-IsQuiet,
  previous_proposed-IsQuiet, apply_commit_rule-IsQuiet, deliver-IsQuiet,
}
use optilog_artifacts.Consensus.Propose.{
  Cs, check_aggregate, check_cert, check_vote, check_command, sign_block, deliver, vote_steps,
  on_propose,
}

module _ (R : Rules) (A : Acceptor) (Sync : Type 0) (config : Config) where
  abbrev Keeps : {B : Type 0} → Step (ConsensusBase R A Sync) B → Type 0
  Keeps m = Holds IsOrdered (λ _. Unit {0}) m

  -- A step that signs nothing keeps the order.
  quiet-Keeps :
      {B : Type 0} (m : Step (ConsensusBase R A Sync) B)
      → ((cs : ConsensusBase R A Sync) → IsQuiet cs (m cs).1)
      → Keeps m
  quiet-Keeps m q cs o = record { keeps = quiet cs (m cs).1 (q cs) o; gives = λ _ _. tt }

  modify-Keeps :
      (f : ConsensusBase R A Sync → ConsensusBase R A Sync)
      → ((cs : ConsensusBase R A Sync) → IsOrdered cs → IsOrdered (f cs))
      → Keeps (modify f)
  modify-Keeps f h cs o = record { keeps = h cs o; gives = λ _ _. tt }

  check_command-IsQuiet :
      (cmd : List ℕ) (cs : ConsensusBase R A Sync)
      → IsQuiet cs (check_command R A Sync config cmd cs).1
  unfolding check_command
  check_command-IsQuiet cmd cs = elim (Bool-cases (A.accept cmd cs.acceptor)) [
    | inl e ↦ rw e (record { same_vote = refl; keeps = λ n h. h })
    | inr e ↦ rw e (record { same_vote = refl; keeps = λ n h. h })
  ]

  pub store_block-IsQuiet :
      (b : Block) (cs : ConsensusBase R A Sync) → IsQuiet cs (store_block b cs)
  unfolding store_block
  store_block-IsQuiet b cs = record { same_vote = refl; keeps = λ n h. h }

  -- The end of OnPropose, from the test of the last voted view on.
  abbrev vote : Block → Step (ConsensusBase R A Sync) (Unit {0})
  vote block = (λ cs. guard (not (leb block.view cs.last_vote)) cs) >> do
    pc ←
        sign_block R A Sync config
          (create_partial_cert config.base config.genesis config.quorum block config.now) block
    modify (deliver R A Sync config pc)

  sign-IsOrdered :
      (o : Option PartialCert) (block : Block) (cs : ConsensusBase R A Sync)
      → leb block.view cs.last_vote ≡ false
      → IsOrdered cs
      → IsOrdered
          ((sign_block R A Sync config o block >>= λ pc. modify (deliver R A Sync config pc)) cs).1
  unfolding sign_block
  sign-IsOrdered none block cs new o = o
  sign-IsOrdered (some pc) block cs new o =
      let fits : suc cs.last_vote ≤ block.view = ground arith in
      quiet _ _ (deliver-IsQuiet R A Sync config pc _) (record {
        ordered =
            (omega arith, SignedBelow-mono (suc cs.last_vote) block.view cs.out fits o.ordered);
      })

  vote-Keeps : (block : Block) → Keeps (vote block)
  vote-Keeps block cs o = elim (Bool-cases (leb block.view cs.last_vote)) [
    | inl old ↦ rw old (record { keeps = o; gives = λ _ _. tt })
    | inr new ↦ rw new (record {
      keeps =
          sign-IsOrdered
            (create_partial_cert config.base config.genesis config.quorum block config.now) block cs
            new o;
      gives = λ _ _. tt;
    })
  ]

  module _ (view_of : Sync → ℕ) (advance : SyncInfo → Cs R A Sync config → Cs R A Sync config)
      (calm : (si : SyncInfo) (cs : ConsensusBase R A Sync)
        → IsOrdered cs
        → IsOrdered (advance si cs)) where
    -- OnPropose keeps the signed views rising, on every path through it.
    pub on_propose-IsOrdered :
        (proposal : ProposeMsg) (cs : ConsensusBase R A Sync)
        → IsOrdered cs
        → IsOrdered (on_propose R A Sync config view_of advance proposal cs)
    unfolding on_propose
    on_propose-IsOrdered proposal cs o = (steps cs o).keeps
      where
        B :
            {S T : Type 0} (m : Step (ConsensusBase R A Sync) S)
            (f : S → Step (ConsensusBase R A Sync) T)
            → Keeps m
            → ((a : S) → Keeps (f a))
            → Keeps (m >>= f)
        B m f h k = >>=-Holds IsOrdered _ _ m f h (λ a _. k a)

        Q :
            {S : Type 0} (m : Step (ConsensusBase R A Sync) S)
            → ((d : ConsensusBase R A Sync) → IsQuiet d (m d).1)
            → Keeps m
        Q = quiet-Keeps

        M :
            (f : ConsensusBase R A Sync → ConsensusBase R A Sync)
            → ((d : ConsensusBase R A Sync) → IsQuiet d (f d))
            → Keeps (modify f)
        M f h = modify-Keeps f (λ d. quiet d (f d) (h d))

        steps : Keeps (vote_steps R A Sync config view_of advance proposal)
        steps =
            B _ _
              (Q (check_aggregate R A Sync config proposal)
                (check_aggregate-IsQuiet R A Sync config proposal))
              λ _.
                B _ _ (M _ (report_complaints-IsQuiet R A Sync config proposal proposal.complaints))
                  λ _.
                    B _ _
                      (Q (check_cert R A Sync config proposal.block.cert)
                        (check_cert-IsQuiet R A Sync config proposal.block.cert))
                      λ _.
                        B _ _
                          (Q (λ d. check_vote R A Sync config (view_of d.sync) proposal d)
                            (λ d. check_vote-IsQuiet R A Sync config (view_of d.sync) proposal d))
                          λ _.
                            B _ _
                              (M _ (
                                previous_proposed-IsQuiet R A Sync config proposal.block.cert.hash))
                              λ _.
                                B _ _
                                  (Q (check_command R A Sync config proposal.block.cmd)
                                    (check_command-IsQuiet proposal.block.cmd))
                                  λ _. B _ _ (M _ (store_block-IsQuiet proposal.block)) λ _.
                                    B _ _
                                      (M _
                                        (apply_commit_rule-IsQuiet R A Sync config proposal.block))
                                      λ _.
                                        B _ _
                                          (modify-Keeps
                                            (advance (with_qc new_sync_info proposal.block.cert))
                                            (calm (with_qc new_sync_info proposal.block.cert)))
                                          λ _. vote-Keeps proposal.block
