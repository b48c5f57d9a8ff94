-- ===== src/Synchronizer/Checkpoint.antt =====
-- Pause, Resume and handleUpdateEvent of overhead/synchronizer/synchronizer.go, and the loop of
-- performCheckPoint. The loop runs on fuel, and `none` says that it has not ended.
use optilog_artifacts.Prelude.{
  ℕ, zero, suc, ◌+◌, ◌%◌, ◌<◌, ◌≡◌, true, Option, none, some, ltb, if◌then◌else◌, arith,
}
use optilog_artifacts.Prelude.Words.{sub_u64, u64_mod}
use optilog_artifacts.Types.{Block, QuorumCert, new_sync_info, with_qc}
use optilog_artifacts.Chain.{get, store, local_get}
use optilog_artifacts.Chain.Lookup.{get-local, local_get-store}
use optilog_artifacts.Consensus.{Config}
use optilog_artifacts.Synchronizer.{
  Synchronizer, tell, stop_timer, start_timer, proposed, commit, update_high_qc,
}
use optilog_artifacts.Synchronizer.Advance.{advance_view}

module _ (config : Config) where
  unfoldable pub checkpoint_loop : ℕ → QuorumCert → ℕ → Synchronizer → Option Synchronizer
  checkpoint_loop zero qc view s = if ltb view (sub_u64 qc.view 1) then none else some s
  checkpoint_loop (suc fuel) qc view s =
      let (block, c) = get config.fetch qc.hash s.chain in
      let s' : Synchronizer = record s { chain = c } in
      if ltb view (sub_u64 qc.view 1)
      then elim block [
        | none ↦ some s'
        | some b ↦
            checkpoint_loop fuel qc b.cert.view
              (tell (proposed b.cmd) (record s' { chain = store b c }))
      ]
      else some s

  unfoldable pub commit_found : QuorumCert → Synchronizer → Synchronizer
  commit_found qc s =
      let (block, c) = get config.fetch qc.hash s.chain in
      let s' : Synchronizer = record s { chain = c } in
      elim block [ none ↦ s' | some b ↦ tell (commit b) s' ]

  unfoldable pub after_loop : QuorumCert → Option Synchronizer → Option Synchronizer
  unfolding commit_found
  after_loop qc none = none
  after_loop qc (some s) = some (commit_found qc s)

  unfoldable pub perform_check_point : ℕ → QuorumCert → Synchronizer → Option Synchronizer
  unfolding checkpoint_loop after_loop
  perform_check_point fuel qc s = after_loop qc (
      checkpoint_loop fuel qc
        (if ltb s.high_qc.view s.high_tc.view then s.high_tc.view else s.high_qc.view) s)

  unfoldable pub pause : ℕ → QuorumCert → Synchronizer → Option Synchronizer
  unfolding perform_check_point
  pause fuel qc s = perform_check_point fuel qc (tell stop_timer s)

  -- `none` also where AdvanceView panics.
  unfoldable pub resume : ℕ → QuorumCert → Synchronizer → Option Synchronizer
  unfolding perform_check_point
  resume fuel qc s = elim (perform_check_point fuel qc s) [
    | none ↦ none
    | some s' ↦ advance_view config (with_qc new_sync_info qc) true (tell start_timer s')
  ]

  unfoldable pub handle_update_event : Block → Synchronizer → Synchronizer
  handle_update_event block s =
      let s' = update_high_qc config.fetch block.cert (record s { chain = store block s.chain }) in
      tell (commit block) (record s' { current_view = (block.cert.view + 1) % u64_mod })

  -- The loop of performCheckPoint never ends, on any fuel, where it begins below the view before
  -- the given certificate's with a block held locally whose own certificate is below that view
  -- too.
  pub checkpoint_loop_endless :
      (fuel : ℕ) (qc : QuorumCert) (view : ℕ) (s : Synchronizer) (b : Block)
      → local_get qc.hash s.chain ≡ some b
      → b.hash ≡ qc.hash
      → view < sub_u64 qc.view 1
      → b.cert.view < sub_u64 qc.view 1
      → checkpoint_loop fuel qc view s ≡ none
  unfolding checkpoint_loop
  checkpoint_loop_endless zero qc view s b held hash low gap = ground arith
  checkpoint_loop_endless (suc fuel) qc view s b held hash low gap =
      rw
        (
          below,
          get-local config.fetch qc.hash b s.chain held,
          get-local config.fetch qc.hash b s.chain held,
        )
        (checkpoint_loop_endless fuel qc b.cert.view
          (tell (proposed b.cmd) (record s { chain = store b s.chain })) b again hash gap gap)
    where
      below : ltb view (sub_u64 qc.view 1) ≡ true
      below = ground arith

      again : local_get qc.hash (store b s.chain) ≡ some b
      again = ground (arith, local_get-store qc.hash b s.chain)
