-- ===== src/Consensus/Commit.antt =====
-- Commit and commitInner of overhead/consensus/consensus.go.
use optilog_artifacts.Prelude.{ℕ, zero, suc, Option, none, some, List, [], ◌∷◌, leb, if◌then◌else◌}
use optilog_artifacts.Types.{Block}
use optilog_artifacts.Chain.{Chain, Network, prune_to_height}
use optilog_artifacts.Consensus.{
  Rules, Acceptor, ConsensusBase, exec, fork, stuck, emit, get_block, chain_of, put_chain,
}

-- The error of commitInner, and `endless` where the fuel of the model ran out.
pub data Outcome : Type 0 where
  done failed endless : Outcome

module _ {R : Rules} {A : Acceptor} {Sync : Type 0} (fetch : Network) where
  unfoldable pub execute : Block → ConsensusBase R A Sync → ConsensusBase R A Sync
  execute block cs = record cs { b_exec = block; out = exec block ∷ cs.out }

  -- After the recursive call: its error is passed on, and otherwise the block is executed.
  unfoldable pub after_parent :
      Block → Outcome × ConsensusBase R A Sync → Outcome × ConsensusBase R A Sync
  unfolding execute
  after_parent block (done, cs) = (done, execute block cs)
  after_parent block (failed, cs) = (failed, cs)
  after_parent block (endless, cs) = (endless, cs)

  unfoldable pub commit_inner :
      ℕ → Block → ConsensusBase R A Sync → Outcome × ConsensusBase R A Sync
  unfolding after_parent get_block
  commit_inner zero block cs = (endless, cs)
  commit_inner (suc f) block cs =
      let (parent, cs') = get_block fetch block.parent cs in
      let rest : Outcome × ConsensusBase R A Sync = elim parent [
        | none ↦ (failed, cs')
        | some p ↦ after_parent block (commit_inner f p cs')
      ] in
      if leb block.view cs.b_exec.view then (done, cs) else rest

  unfoldable pub handle_forks : List Block → ConsensusBase R A Sync → ConsensusBase R A Sync
  handle_forks [] cs = cs
  handle_forks (b ∷ bs) cs = handle_forks bs (emit (fork b) cs)

  unfoldable pub after_prune :
      Option (List Block × Chain) → ConsensusBase R A Sync → ConsensusBase R A Sync
  unfolding handle_forks put_chain
  after_prune none cs = emit stuck cs
  after_prune (some (forked, c)) cs = handle_forks forked (put_chain c cs)

  unfoldable pub prune : Block → ConsensusBase R A Sync → ConsensusBase R A Sync
  unfolding after_prune chain_of
  prune block cs = after_prune (prune_to_height cs.b_exec block.view (chain_of cs)) cs

  unfoldable pub after_commit : Block → Outcome × ConsensusBase R A Sync → ConsensusBase R A Sync
  unfolding prune
  after_commit block (done, cs) = prune block cs
  after_commit block (failed, cs) = cs
  after_commit block (endless, cs) = emit stuck cs

  -- Views fall from a block to its parent, so the view bounds the depth of the recursion.
  unfoldable pub commit : Block → ConsensusBase R A Sync → ConsensusBase R A Sync
  unfolding after_commit commit_inner
  commit block cs = after_commit block (commit_inner (suc block.view) block cs)
