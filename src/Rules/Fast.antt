-- ===== src/Rules/Fast.antt =====
-- overhead/consensus/fasthotstuff/fasthotstuff.go: the two-chain rules. The view of the
-- synchronizer is an argument of VoteRule, and the only state is the chain.
pub mod Commit
use optilog_artifacts.Prelude.{
  ℕ, ◌+◌, ◌%◌, ◌^◌, Bool, true, false, ◌&&◌, not, Option, none, some, ◌==◌, leb,
}
use optilog_artifacts.Prelude.Words.{add_u64}
use optilog_artifacts.Types.{Block, QuorumCert, ProposeMsg, AggregateQc}
use optilog_artifacts.Chain.{Chain, Network, get, extends}
use optilog_artifacts.Rules.Step.{Step, ◌>>=◌, ◌>>◌, guard, pure}

-- The test of CommitRule on the block, its certified block and the one that that certifies.
abbrev pub is_two_chain : Block → Block → Block → Bool
is_two_chain block parent grandparent =
    (block.parent == parent.hash)
    && (block.view == add_u64 parent.view 1)
    && (parent.parent == grandparent.hash)
    && (parent.view == add_u64 grandparent.view 1)

module _ (fetch : Network) where
  unfoldable pub qc_ref : QuorumCert → Step Chain Block
  qc_ref qc = do guard (not (0 == qc.hash)); get fetch qc.hash

  unfoldable pub commit_rule : Block → Step Chain Block
  unfolding qc_ref
  commit_rule block = do
    parent ← qc_ref block.cert
    grandparent ← qc_ref parent.cert
    guard (is_two_chain block parent grandparent)
    pure grandparent

  -- With an aggregate certificate the block must extend the block that it certifies; the fuel of
  -- `extends` is in the result.
  unfoldable pub vote_rule : ℕ → ProposeMsg → Step Chain Bool
  vote_rule view proposal c = elim proposal.aggregate_qc [
    | some agg ↦
        let (hqc_block, c') = get fetch proposal.block.cert.hash c in
        elim hqc_block [ none ↦ (some false, c') | some b ↦ extends fetch proposal.block b c' ]
    | none ↦ (
      some (
          leb view proposal.block.view
          && (proposal.block.view == add_u64 proposal.block.cert.view 1)),
      c,
    )
  ]

unfoldable pub chain_length : ℕ
chain_length = 2
