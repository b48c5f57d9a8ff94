-- ===== src/Consensus/Rounds.antt =====
-- The cases of commitInner, as equations.
use optilog_artifacts.Prelude.{ℕ, suc, ◌≡◌, true, false, none, some, leb}
use optilog_artifacts.Types.{Block}
use optilog_artifacts.Chain.{Network}
use optilog_artifacts.Consensus.{Rules, Acceptor, ConsensusBase, get_block}
use optilog_artifacts.Consensus.Commit.{done, failed, after_parent, commit_inner}

module _ {R : Rules} {A : Acceptor} {Sync : Type 0} (fetch : Network) (f : ℕ) (block : Block)
    (cs : ConsensusBase R A Sync) where
  pub commit_inner_old :
      leb block.view cs.b_exec.view ≡ true → commit_inner fetch (suc f) block cs ≡ (done, cs)
  unfolding commit_inner
  commit_inner_old e = rw e

  pub commit_inner_missing :
      leb block.view cs.b_exec.view ≡ false
      → (get_block fetch block.parent cs).0 ≡ none
      → commit_inner fetch (suc f) block cs ≡ (failed, (get_block fetch block.parent cs).1)
  unfolding commit_inner
  commit_inner_missing e g = rw (e, g)

  pub commit_inner_parent :
      (p : Block)
      → leb block.view cs.b_exec.view ≡ false
      → (get_block fetch block.parent cs).0 ≡ some p
      → commit_inner fetch (suc f) block cs
        ≡ after_parent fetch block (commit_inner fetch f p (get_block fetch block.parent cs).1)
  unfolding commit_inner
  commit_inner_parent p e g = rw (e, g)
