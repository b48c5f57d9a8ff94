-- ===== src/Rules/Chained.antt =====
-- overhead/consensus/chainedhotstuff/chainedhotstuff.go: the pipelined three-chain rules.
pub mod Commit
use optilog_artifacts.Prelude.{
  ℕ, Bool, true, false, ◌&&◌, not, Option, none, some, ◌==◌, ltb, if◌then◌else◌,
}
use optilog_artifacts.Types.{Block, QuorumCert, ProposeMsg}
use optilog_artifacts.Chain.{Chain, Network, get, extends}
use optilog_artifacts.Rules.Step.{Step, ◌>>=◌, ◌>>◌, guard, pure, modify}

pub record ChainedHotStuff : Type 0 where
  pub b_lock : Block
  pub chain : Chain

unfoldable pub new : Block → Chain → ChainedHotStuff
new genesis c = record { b_lock = genesis; chain = c }

-- The view above which the lock moves.
unfoldable pub raise_lock : Block → ChainedHotStuff → ChainedHotStuff
raise_lock block2 hs = if ltb hs.b_lock.view block2.view then record hs { b_lock = block2 } else hs

module _ (fetch : Network) where
  unfoldable pub get_block : ℕ → Step ChainedHotStuff Block
  get_block h hs = let (b, c) = get fetch h hs.chain in (b, record hs { chain = c })

  unfoldable pub qc_ref : QuorumCert → Step ChainedHotStuff Block
  unfolding get_block
  qc_ref qc = do guard (not (0 == qc.hash)); get_block qc.hash

  unfoldable pub commit_rule : Block → Step ChainedHotStuff Block
  unfolding qc_ref raise_lock
  commit_rule block = do
    block1 ← qc_ref block.cert
    block2 ← qc_ref block1.cert
    modify (raise_lock block2)
    block3 ← qc_ref block2.cert
    guard ((block1.parent == block2.hash) && (block2.parent == block3.hash))
    pure block3

  -- The second test of VoteRule. The fuel of `extends` is in its result.
  unfoldable pub extends_lock : Block → Step ChainedHotStuff Bool
  extends_lock block hs =
      let (safe, c) = extends fetch block hs.b_lock hs.chain in (safe, record hs { chain = c })

  abbrev pub above_lock : Option Block → ChainedHotStuff → Bool
  above_lock none hs = false
  above_lock (some qc_block) hs = ltb hs.b_lock.view qc_block.view

  unfoldable pub vote_rule : ProposeMsg → Step ChainedHotStuff Bool
  unfolding get_block extends_lock
  vote_rule proposal hs =
      let block = proposal.block in
      let (qc_block, hs') = get_block block.cert.hash hs in
      if above_lock qc_block hs' then (some true, hs') else extends_lock block hs'

unfoldable pub chain_length : ℕ
chain_length = 3
