-- ===== src/Synchronizer/Timeout.antt =====
-- OnLocalTimeout and OnRemoteTimeout of overhead/synchronizer/synchronizer.go. The collected
-- timeouts of a view are listed in the order in which they came; Go's map has none.
use optilog_artifacts.Prelude.{
  ℕ, false, Option, none, some, List, [], ◌∷◌, ◌==◌, ltb, if◌then◌else◌, length, map,
}
use optilog_artifacts.Prelude.Dict.{Dict, lookup, insert, delete}
use optilog_artifacts.Types.{
  TimeoutMsg, SyncInfo, TimeoutCert, AggregateQc, complaint, no_proof, suspicion, with_tc,
  with_agg_qc, view_bytes, timeout_bytes,
}
use optilog_artifacts.Crypto.{create_timeout_cert, create_aggregate_qc}
use optilog_artifacts.Consensus.{Config}
use optilog_artifacts.Synchronizer.{
  Synchronizer, tell, sync_info, start_timer, view_timeout, send_timeout, stop_voting,
  add_complaint,
}
use optilog_artifacts.Synchronizer.Advance.{advance_view}

-- The deferred function: timeouts of views below `view` go.
unfoldable pub drop_below : ℕ → Dict (Dict TimeoutMsg) → Dict (Dict TimeoutMsg)
drop_below view [] = []
drop_below view ((v, ts) ∷ m) =
    let rest = drop_below view m in if ltb v view then rest else (v, ts) ∷ rest

unfoldable pub cleanup : ℕ → Option Synchronizer → Option Synchronizer
cleanup view none = none
cleanup view (some s) = some (record s { timeouts = drop_below view s.timeouts })

abbrev pub collected : ℕ → Synchronizer → Dict TimeoutMsg
collected view s = elim (lookup view s.timeouts) [ none ↦ [] | some ts ↦ ts ]

-- The first timeout of a replica in a view stays.
unfoldable pub add_timeout : TimeoutMsg → Dict TimeoutMsg → Dict TimeoutMsg
add_timeout t ts = elim (lookup t.id ts) [ none ↦ insert t.id t ts | some old ↦ ts ]

abbrev pub messages : Dict TimeoutMsg → List TimeoutMsg
messages ts = map (λ (e : ℕ × TimeoutMsg). e.1) ts

unfoldable pub put_aggregate : Option AggregateQc → SyncInfo → SyncInfo
put_aggregate none si = si
put_aggregate (some agg) si = with_agg_qc si agg

module _ (config : Config) where
  -- With a timeout certificate, or none where it could not be created.
  unfoldable pub advance_by :
      TimeoutMsg → ℕ → List TimeoutMsg → Option TimeoutCert → Synchronizer → Option Synchronizer
  unfolding put_aggregate
  advance_by timeout curr_view list none s = some s
  advance_by timeout curr_view list (some tc) s =
      let si = with_tc (sync_info s) tc in
      advance_view config
        (if config.use_agg_qc
          then put_aggregate
              (create_aggregate_qc config.base config.genesis config.quorum curr_view list) si
          else si)
        false (record s { timeouts = delete timeout.view s.timeouts })

  unfoldable pub collect : TimeoutMsg → ℕ → Synchronizer → Option Synchronizer
  unfolding advance_by add_timeout
  collect timeout curr_view s =
      let ts = add_timeout timeout (collected timeout.view s) in
      let s' : Synchronizer = record s { timeouts = insert timeout.view ts s.timeouts } in
      if ltb (length ts) (config.quorum timeout.view)
      then some s'
      else advance_by timeout curr_view (messages ts)
          (create_timeout_cert config.base config.genesis config.quorum timeout.view (messages ts))
          s'

  unfoldable pub after_advance : TimeoutMsg → ℕ → Option Synchronizer → Option Synchronizer
  unfolding collect
  after_advance timeout curr_view none = none
  after_advance timeout curr_view (some s) = collect timeout curr_view s

  unfoldable pub on_remote_timeout : TimeoutMsg → Synchronizer → Option Synchronizer
  unfolding after_advance cleanup
  on_remote_timeout timeout s =
      let done =
        after_advance timeout s.current_view (advance_view config timeout.sync_info false s) in
      if config.base.verify timeout.view_signature (view_bytes timeout.view)
      then cleanup s.current_view done
      else cleanup s.current_view (some s)

  unfoldable pub send_first : TimeoutMsg → Synchronizer → Option Synchronizer
  unfolding on_remote_timeout
  send_first msg s = on_remote_timeout msg (
      tell (send_timeout msg)
        (tell (stop_voting s.current_view) (record s { last_timeout = some msg })))

  -- The second signature, where aggregate certificates are used.
  unfoldable pub sign_message : TimeoutMsg → Synchronizer → Option Synchronizer
  unfolding send_first
  sign_message msg s =
      if config.use_agg_qc
      then elim (config.base.sign (timeout_bytes msg)) [
        | none ↦ some s
        | some sig ↦ send_first (record msg { msg_signature = some sig }) s
      ]
      else send_first msg s

  unfoldable pub new_timeout : Synchronizer → Option Synchronizer
  unfolding sign_message
  new_timeout s = elim (config.base.sign (view_bytes s.current_view)) [
    | none ↦ some (tell view_timeout s)
    | some sig ↦
        sign_message
          (record {
            id = config.id;
            view = s.current_view;
            view_signature = sig;
            msg_signature = none;
            sync_info = sync_info s;
          })
          (tell view_timeout s)
  ]

  unfoldable pub complain : Synchronizer → Synchronizer
  complain s =
      if config.has_ranking
      then tell
          (add_complaint (complaint 0 config.id (config.leader s.current_view) suspicion no_proof))
          s
      else s

  -- A timeout that was already sent in this view is sent again.
  unfoldable pub time_out : Option TimeoutMsg → Synchronizer → Option Synchronizer
  unfolding new_timeout
  time_out none s = new_timeout s
  time_out (some msg) s =
      if msg.view == s.current_view then some (tell (send_timeout msg) s) else new_timeout s

  unfoldable pub on_local_timeout : Synchronizer → Option Synchronizer
  unfolding time_out complain
  on_local_timeout s = time_out s.last_timeout (complain (tell start_timer s))
