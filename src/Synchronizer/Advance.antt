-- ===== src/Synchronizer/Advance.antt =====
-- AdvanceView and OnNewView of overhead/synchronizer/synchronizer.go.
use optilog_artifacts.Prelude.{
  ℕ, ◌+◌, ◌%◌, Bool, true, false, ◌&&◌, not, Option, none, some, ◌∷◌, ltb, leb, ◌==◌, if◌then◌else◌,
}
use optilog_artifacts.Prelude.Words.{u64_mod}
use optilog_artifacts.Types.{QuorumCert, TimeoutCert, AggregateQc, SyncInfo, NewViewMsg, with_qc}
use optilog_artifacts.Chain.{Chain}
use optilog_artifacts.Crypto.{verify_timeout_cert, verify_quorum_cert, verify_aggregate_qc}
use optilog_artifacts.Consensus.{Config}
use optilog_artifacts.Synchronizer.{
  Synchronizer, tell, update_high_tc, update_high_qc, stop_timer, reset_timer, reset_start_timer,
  view_started, view_succeeded, view_change, propose, send_new_view,
}

-- Where the checks of AdvanceView stand: the view reached, whether by a timeout, and the sync info.
pub data Checked : Type 0 where
  panic : Checked
  reject : Synchronizer → Checked
  accept : ℕ → Bool → SyncInfo → Synchronizer → Checked

module _ (config : Config) where
  unfoldable pub after_tc : TimeoutCert → SyncInfo → Synchronizer → Option Bool → Checked
  after_tc tc si s none = panic
  after_tc tc si s (some false) = reject s
  after_tc tc si s (some true) = accept tc.view true si (update_high_tc tc s)

  unfoldable pub check_tc : SyncInfo → Synchronizer → Checked
  unfolding after_tc
  check_tc si s = elim si.tc [
    | none ↦ accept 0 false si s
    | some tc ↦ after_tc tc si s (verify_timeout_cert config.base config.genesis config.quorum tc)
  ]

  -- With a verified certificate.
  unfoldable pub use_qc : QuorumCert → ℕ → Bool → SyncInfo → Synchronizer → Checked
  use_qc qc v timeout si s =
      let s' = update_high_qc config.fetch qc s in
      if leb v qc.view then accept qc.view false si s' else accept v timeout si s'

  unfoldable pub after_qc :
      QuorumCert → ℕ → Bool → SyncInfo → Synchronizer → Option Bool × Chain → Checked
  unfolding use_qc
  after_qc qc v timeout si s (none, c) = panic
  after_qc qc v timeout si s (some false, c) = reject (record s { chain = c })
  after_qc qc v timeout si s (some true, c) = use_qc qc v timeout si (record s { chain = c })

  unfoldable pub check_plain : Option QuorumCert → ℕ → Bool → SyncInfo → Synchronizer → Checked
  unfolding after_qc
  check_plain none v timeout si s = accept v timeout si s
  check_plain (some qc) v timeout si s =
      after_qc qc v timeout si s
        (verify_quorum_cert config.base config.genesis config.quorum config.fetch qc s.chain)

  unfoldable pub after_agg :
      AggregateQc
      → ℕ
      → Bool
      → SyncInfo
      → Synchronizer
      → Option (Option QuorumCert) × Chain
      → Checked
  unfolding use_qc
  after_agg agg v timeout si s (none, c) = panic
  after_agg agg v timeout si s (some none, c) = reject (record s { chain = c })
  after_agg agg v timeout si s (some (some high), c) =
      if leb v agg.view
      then use_qc high agg.view true (with_qc si high) (record s { chain = c })
      else use_qc high v timeout (with_qc si high) (record s { chain = c })

  unfoldable pub check_aggregate : AggregateQc → ℕ → Bool → SyncInfo → Synchronizer → Checked
  unfolding after_agg
  check_aggregate agg v timeout si s =
      after_agg agg v timeout si s
        (verify_aggregate_qc config.base config.genesis config.quorum config.fetch agg s.chain)

  unfoldable pub check_qc : Option AggregateQc → Checked → Checked
  unfolding check_plain check_aggregate
  check_qc agg panic = panic
  check_qc agg (reject s) = reject s
  check_qc none (accept v timeout si s) = check_plain si.qc v timeout si s
  check_qc (some agg) (accept v timeout si s) =
      if config.use_agg_qc
      then check_aggregate agg v timeout si s
      else check_plain si.qc v timeout si s

  -- The leader of the view that is entered proposes; another replica sends it a new-view message.
  unfoldable pub tell_leader : ℕ → SyncInfo → Synchronizer → Synchronizer
  tell_leader leader si s =
      if leader == config.id
      then tell (propose si) s
      else if config.has_replica leader
      then tell (send_new_view leader si) s
      else s

  unfoldable pub count_success : Bool → Synchronizer → Synchronizer
  count_success timeout s = if timeout then s else tell view_succeeded s

  unfoldable pub enter_view : ℕ → Bool → SyncInfo → Bool → Synchronizer → Synchronizer
  unfolding tell_leader count_success
  enter_view v timeout si is_reconfig s =
      let new_view = (v + 1) % u64_mod in
      let s' = tell view_started (count_success timeout (tell stop_timer s)) in
      tell_leader (config.leader new_view) si (
        tell (view_change new_view timeout) (
          if is_reconfig
          then record s' {
            current_view = (new_view + 1) % u64_mod;
            last_timeout = none;
            out = reset_start_timer ∷ s'.out;
          }
          else record s' {
            current_view = new_view;
            last_timeout = none;
            out = reset_timer ∷ s'.out;
          }))

  unfoldable pub after_checks : Bool → Checked → Option Synchronizer
  unfolding enter_view
  after_checks is_reconfig panic = none
  after_checks is_reconfig (reject s) = some s
  after_checks is_reconfig (accept v timeout si s) =
      if ltb v s.current_view && not is_reconfig
      then some s
      else some (enter_view v timeout si is_reconfig s)

  unfoldable pub advance_view : SyncInfo → Bool → Synchronizer → Option Synchronizer
  unfolding after_checks check_qc check_tc
  advance_view si is_reconfig s = after_checks is_reconfig (check_qc si.agg_qc (check_tc si s))

  unfoldable pub on_new_view : NewViewMsg → Synchronizer → Option Synchronizer
  unfolding advance_view
  on_new_view msg s = advance_view msg.sync_info false s
