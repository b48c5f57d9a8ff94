-- ===== src/Synchronizer.antt =====
-- overhead/synchronizer/synchronizer.go: the current view, the highest certificates, timeouts.
--
-- A handler answers with the state after it, or `none` where it panics. The calls of other modules
-- (consensus, configuration, ranking, acceptor, event loop, timer and view duration) are recorded
-- in `out`, newest first; what consensus does when it is called is not followed here.
pub mod Advance
pub mod Timeout
pub mod Checkpoint
pub mod Views
use optilog_artifacts.Prelude.{
  ℕ, ◌+◌, ◌%◌, Bool, true, false, ◌&&◌, not, Option, none, some, List, [], ◌∷◌, ltb, leb,
  if◌then◌else◌,
}
use optilog_artifacts.Prelude.Dict.{Dict}
use optilog_artifacts.Types.{
  Block, QuorumCert, TimeoutCert, SyncInfo, TimeoutMsg, Complaint, new_sync_info, with_qc, with_tc,
}
use optilog_artifacts.Chain.{Chain, Network, get}

pub data Call : Type 0 where
  start_timer stop_timer reset_timer reset_start_timer : Call
  view_started view_succeeded view_timeout : Call
  view_change : ℕ → Bool → Call
  propose : SyncInfo → Call
  send_new_view : ℕ → SyncInfo → Call
  send_timeout : TimeoutMsg → Call
  stop_voting : ℕ → Call
  add_complaint : Complaint → Call
  proposed : List ℕ → Call
  commit : Block → Call

pub record Synchronizer : Type 0 where
  pub chain : Chain
  pub current_view : ℕ
  pub high_tc : TimeoutCert
  pub high_qc : QuorumCert
  pub last_timeout : Option TimeoutMsg
  pub timeouts : Dict (Dict TimeoutMsg)
  pub out : List Call

abbrev pub tell : Call → Synchronizer → Synchronizer
tell call s = record s { out = call ∷ s.out }

-- New, and the two certificates that InitModule creates for the genesis block and view 0.
unfoldable pub new_synchronizer : Chain → QuorumCert → TimeoutCert → Synchronizer
new_synchronizer chain qc tc = record {
  chain = chain;
  current_view = 1;
  high_tc = tc;
  high_qc = qc;
  last_timeout = none;
  timeouts = [];
  out = [];
}

unfoldable pub sync_info : Synchronizer → SyncInfo
sync_info s = with_tc (with_qc new_sync_info s.high_qc) s.high_tc

unfoldable pub update_high_tc : TimeoutCert → Synchronizer → Synchronizer
update_high_tc tc s = if ltb s.high_tc.view tc.view then record s { high_tc = tc } else s

-- The test is on the block's view, and the view of the certificate is what is kept.
unfoldable pub update_high_qc : Network → QuorumCert → Synchronizer → Synchronizer
update_high_qc fetch qc s =
    let (block, c) = get fetch qc.hash s.chain in
    let s' : Synchronizer = record s { chain = c } in
    elim block [
      | none ↦ s'
      | some b ↦ if ltb s.high_qc.view b.view then record s' { high_qc = qc } else s'
    ]
