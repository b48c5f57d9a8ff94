-- ===== src/Rules/Simple.antt =====
-- overhead/consensus/simplehotstuff/simplehotstuff.go: the simplified rules. The view of the
-- synchronizer is an argument of VoteRule.
pub mod Commit
pub mod Locks
use optilog_artifacts.Prelude.{
  ℕ, ◌+◌, ◌%◌, ◌^◌, Bool, true, false, Option, none, some, ◌==◌, ltb, if◌then◌else◌,
}
use optilog_artifacts.Prelude.Words.{add_u64}
use optilog_artifacts.Types.{Block, ProposeMsg}
use optilog_artifacts.Chain.{Chain, Network, get}
use optilog_artifacts.Rules.Step.{Step, ◌>>=◌, ◌>>◌, guard, pure, modify}

pub record SimpleHotStuff : Type 0 where
  pub locked : Block
  pub chain : Chain

unfoldable pub new : Block → Chain → SimpleHotStuff
new genesis c = record { locked = genesis; chain = c }

unfoldable pub raise_lock : Block → SimpleHotStuff → SimpleHotStuff
raise_lock gp hs = if ltb hs.locked.view gp.view then record hs { locked = gp } else hs

module _ (fetch : Network) where
  unfoldable pub get_block : ℕ → Step SimpleHotStuff Block
  get_block h hs = let (b, c) = get fetch h hs.chain in (b, record hs { chain = c })

  abbrev pub parent_accepted : Option Block → SimpleHotStuff → Bool
  parent_accepted none hs = false
  parent_accepted (some parent) hs = if ltb parent.view hs.locked.view then false else true

  unfoldable pub vote_rule : ℕ → ProposeMsg → SimpleHotStuff → Bool × SimpleHotStuff
  unfolding get_block
  vote_rule view proposal hs =
      let block = proposal.block in
      let (parent, hs') = get_block block.cert.hash hs in
      if ltb block.view view then (false, hs) else (parent_accepted parent hs', hs')

  unfoldable pub commit_rule : Block → Step SimpleHotStuff Block
  unfolding get_block raise_lock
  commit_rule block = do
    p ← get_block block.cert.hash
    gp ← get_block p.cert.hash
    modify (raise_lock gp)
    ggp ← get_block gp.cert.hash
    guard (add_u64 ggp.view 2 == p.view)
    pure ggp

unfoldable pub chain_length : ℕ
chain_length = 3
