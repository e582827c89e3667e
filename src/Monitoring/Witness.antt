-- ===== src/Monitoring/Witness.antt =====
-- repmgrd-physical.c `monitor_streaming_witness`: the loop of a repmgrd on a witness. Lines that only
-- log are left out.
pub mod Turn
pub mod Adopts
use hg_repmgr.Base.{
  ℤ, pos, ℕ, ◌-◌, Bool, true, false, ◌&&◌, ◌||◌, not, List, [], ◌∷◌, ◌++◌, Option, none, some, map,
  if◌then◌else◌, leb, String,
}
use hg_repmgr.Node.{
  NodeInfo, status_unknown, status_up, status_down, ms_normal, ms_degraded, RecoveryType,
}
use hg_repmgr.SharedState.{Shared, set_upstream_last_seen}
use hg_repmgr.Daemon.{Options, Daemon, reset_node_voting_status}
use hg_repmgr.Election.{Peer, get_active_sibling_node_records}
use hg_repmgr.Failover.{Action, copy_node_records, ConnView, check_connection, register}
use hg_repmgr.Failover.Steps.{is_up_primary}
use hg_repmgr.Failover.Witness.{
  WitnessView, do_witness_failover, witness_follow_new_primary, WitnessEnding,
}
use hg_repmgr.Reconnect.{Attempt, try_reconnect}
use hg_repmgr.Monitoring.{
  Deed, event, set_active, set_inactive, failover_action, MonitorOptions, Flow, falls, jumps,
  leaves, exits, err_bad_config, is_status_up, is_degraded, RecordStatus, record_found,
  get_node_record, Candidate, get_primary_connection, landed, terminate,
}
use hg_repmgr.Monitoring.Standby.{UpstreamCheck, upstream_answers, with_upstream_status}
use hg_repmgr.Monitoring.Standby.Degraded.{find_new_primary}

-- The variables of the loop, and the times in seconds at which degraded monitoring and the last copy
-- of the node table began.
pub record WitnessState : Type 0 where
  pub daemon : Daemon
  pub degraded_start : ℕ
  pub sync_start : ℕ

pub record WitnessPart : Type 0 where
  pub flow : Flow
  pub after : WitnessState
  pub log : List Deed

abbrev pub witness_part : Flow → WitnessState → List Deed → WitnessPart
witness_part f s log = record { flow = f; after = s; log = log }

abbrev pub with_witness_daemon : WitnessState → Daemon → WitnessState
with_witness_daemon s d = record s { daemon = d }

-- What the start finds: the nodes that could be the primary, the primary's record there, the record
-- of the last known primary in the local copy, and whether a start was logged before.
pub record WitnessStart : Type 0 where
  pub candidates : Option (List Candidate)
  pub upstream_record : RecordStatus
  pub last_known : RecordStatus
  pub startup_event_logged : Bool
  pub now : ℕ

-- With a primary, and with none: then the last known one is waited for.
with_found_primary : WitnessStart → WitnessState → WitnessPart
with_found_primary v s =
    let d = record s.daemon {
      upstream = get_node_record v.upstream_record s.daemon.upstream;
      monitoring_state = ms_normal;
    } in
    witness_part falls (record s { daemon = with_upstream_status status_up d; sync_start = v.now })
      (failover_action copy_node_records
        ∷ event (if v.startup_event_logged then "repmgrd_upstream_reconnect" else "repmgrd_start")
            true
        ∷ [])

with_last_known : WitnessStart → WitnessState → RecordStatus → WitnessPart
with_last_known v s (record_found n) =
    let d = record s.daemon {
      upstream = get_node_record (record_found n) s.daemon.upstream;
      monitoring_state = ms_degraded;
    } in
    witness_part falls
      (record s { daemon = with_upstream_status status_down d; degraded_start = v.now }) []
with_last_known v s _ =
    witness_part (exits err_bad_config)
      (with_witness_daemon s (record s.daemon { local_conn_ok = false })) []

by_primary : WitnessStart → WitnessState → Option ℤ → WitnessPart
unfolding with_found_primary with_last_known
by_primary v s none = with_last_known v s v.last_known
by_primary v s (some id) = with_found_primary v s

unfoldable pub witness_start : WitnessStart → WitnessState → WitnessPart
unfolding by_primary
witness_start v s =
    by_primary v (with_witness_daemon s (reset_node_voting_status s.daemon))
      (get_primary_connection v.candidates)

-- What a turn finds, in its order. `view id` is what following node `id` finds.
pub record WitnessTurn : Type 0 where
  pub check : UpstreamCheck
  pub now : ℕ
  pub attempts : ℕ → Attempt
  pub recovered_type : RecoveryType
  pub notified : ℕ → Option ℤ
  pub view : ℤ → WitnessView
  pub later_check : UpstreamCheck
  pub conn_ok : Bool
  pub later_type : RecoveryType
  pub nodes : List Peer
  pub sibling : ℤ → Option RecoveryType
  pub conn : ConnView
  pub primary_ok : Bool
  pub update_ok : Bool
  pub sync_now : ℕ
  pub sync_type : RecoveryType

abbrev pub is_primary : RecoveryType → Bool
is_primary t = is_up_primary (some t)

after_witness_failover : WitnessTurn → WitnessState → List Deed → WitnessEnding → WitnessPart
after_witness_failover v s log e =
    witness_part (if e.result then leaves else falls)
      (record s {
        daemon = e.daemon;
        degraded_start = if is_degraded e.daemon.monitoring_state then v.now else s.degraded_start;
      })
      (log ++ map failover_action e.log)

unfoldable pub witness_lost : MonitorOptions → WitnessTurn → WitnessState → WitnessPart
unfolding after_witness_failover
witness_lost mo v s =
    let status = (try_reconnect mo.reconnect_attempts v.attempts).node_status in
    let t = with_witness_daemon s (with_upstream_status status s.daemon) in
    let lost = event "repmgrd_upstream_disconnect" true ∷ [] in
    if is_status_up status
    then (if is_primary v.recovered_type
        then witness_part jumps t (lost ++ event "repmgrd_upstream_reconnect" true ∷ [])
        else witness_part leaves t lost)
    else after_witness_failover v t lost
        (do_witness_failover mo.failover_options v.notified v.view t.daemon)

unfoldable pub witness_upstream : MonitorOptions → WitnessTurn → WitnessState → WitnessPart
unfolding witness_lost
witness_upstream mo v s =
    let d = s.daemon in
    if upstream_answers mo v.check
    then witness_part falls
        (if d.local_conn_ok
          then with_witness_daemon s (record d { shared = set_upstream_last_seen v.now d.shared })
          else s)
        []
    else if is_status_up d.upstream.node_status
    then witness_lost mo v s
    else witness_part falls s []

-- The result of following the node is not read.
unfoldable pub witness_found : WitnessTurn → WitnessState → Option ℤ → WitnessPart
witness_found v s none = witness_part falls s []
witness_found v s (some id) =
    let r = witness_follow_new_primary (v.view id) s.daemon in
    witness_part falls (with_witness_daemon s r.daemon) (map failover_action r.log)

-- Degraded monitoring, which has no timeout here.
unfoldable pub witness_degraded : MonitorOptions → WitnessTurn → WitnessState → WitnessPart
unfolding witness_found
witness_degraded mo v s =
    let d = s.daemon in
    let back =
      with_witness_daemon s
        (with_upstream_status status_up (record d { monitoring_state = ms_normal })) in
    let siblings =
      get_active_sibling_node_records d.local.node_id d.local.upstream_node_id v.nodes in
    if not (is_degraded d.monitoring_state)
    then witness_part falls s []
    else if upstream_answers mo v.later_check
    then (if not v.conn_ok
        then witness_part falls s []
        else if is_primary v.later_type
        then witness_part jumps back (event "repmgrd_upstream_reconnect" true ∷ [])
        else witness_part leaves back [])
    else witness_found v s (find_new_primary d.local.node_id v.sibling siblings)
