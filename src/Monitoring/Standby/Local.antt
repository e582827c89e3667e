-- ===== src/Monitoring/Standby/Local.antt =====
-- repmgrd-physical.c `monitor_streaming_standby`: the end of a turn, where the local node is looked
-- at, and a change of its upstream node is seen. Monitoring statistics are left out.
use hg_repmgr.Base.{ℤ, Bool, true, false, ◌&&◌, ◌||◌, not, [], ◌∷◌, ◌++◌, if◌then◌else◌, eqb_ℤ}
use hg_repmgr.Node.{ms_normal, ms_degraded, RecoveryType}
use hg_repmgr.SharedState.{unknown_node_id}
use hg_repmgr.Failover.{ConnView, check_connection, register}
use hg_repmgr.Monitoring.{
  event, set_active, set_inactive, MonitorOptions, falls, leaves, is_degraded, RecordStatus,
  record_found, refresh_node_record,
}
use hg_repmgr.Monitoring.Standby.{
  StandbyState, StandbyPart, standby_part, with_daemon, is_standby, is_standby_type,
}

-- What the end of a turn finds: the local connection's check; is the connection to the primary up,
-- can the local record be is_changed there, and what does that node say that it is; the local record as
-- it is refreshed after an outage and at the end; and the local record on the primary.
pub record LocalView : Type 0 where
  pub conn : ConnView
  pub primary_ok : Bool
  pub update_ok : Bool
  pub primary_type : RecoveryType
  pub after_outage : RecordStatus
  pub refreshed : RecordStatus
  pub on_primary : RecordStatus

-- The local connection is down: the node is marked as inactive, once.
unfoldable pub mark_inactive : LocalView → StandbyState → StandbyPart
mark_inactive v s =
    let d = s.daemon in
    let t = record s { local_monitoring_state = ms_degraded } in
    if d.local.active
    then standby_part falls (with_daemon t (record d { local = record d.local { active = false } }))
        ((if v.primary_ok then set_inactive ∷ [] else [])
          ++ event "standby_failure" (not v.primary_ok || v.update_ok) ∷ [])
    else standby_part falls t []

-- The local connection is up: the node is marked as active again.
unfoldable pub mark_active : LocalView → StandbyState → StandbyPart
mark_active v s =
    let d = s.daemon in
    if not d.local.active && v.primary_ok
    then (if v.update_ok
        then standby_part falls
            (with_daemon s (record d { local = record d.local { active = true } }))
            (set_active ∷ event "standby_recovery" true ∷ [])
        else standby_part falls s (set_active ∷ []))
    else standby_part falls s []

-- The node that is connected as the primary is none any more.
unfoldable pub leave_demoted : MonitorOptions → LocalView → StandbyState → StandbyPart
unfolding mark_active
leave_demoted mo v s =
    let d = record s.daemon { shared = register mo.failover_options v.conn s.daemon.shared } in
    if v.primary_ok && is_standby v.primary_type
    then standby_part leaves
        (with_daemon s (record d { local = record d.local { upstream_node_id = unknown_node_id } }))
        []
    else mark_active v (with_daemon s d)

-- After an outage of the local node its upstream node or its role may have changed.
unfoldable pub local_is_up : MonitorOptions → LocalView → StandbyState → StandbyPart
unfolding leave_demoted
local_is_up mo v s =
    let d = record s.daemon { local = refresh_node_record v.after_outage s.daemon.local } in
    let t = record s { daemon = d; local_monitoring_state = ms_normal } in
    if is_degraded s.local_monitoring_state
    then (if not (eqb_ℤ s.last_known_upstream_node_id d.local.upstream_node_id)
        then standby_part leaves t []
        else if not (is_standby_type d.local.type)
        then standby_part leaves t []
        else leave_demoted mo v t)
    else leave_demoted mo v s

unfoldable pub local_node_part : MonitorOptions → LocalView → StandbyState → StandbyPart
unfolding mark_inactive local_is_up
local_node_part mo v s =
    let t = with_daemon s (check_connection mo.failover_options v.conn s.daemon) in
    if t.daemon.local_conn_ok then local_is_up mo v t else mark_inactive v t

-- The record on the primary still names the upstream node that is monitored.
names_last_known : ℤ → RecordStatus → Bool
names_last_known last_known (record_found n) = eqb_ℤ last_known n.upstream_node_id
names_last_known last_known _ = eqb_ℤ last_known unknown_node_id

-- The local record's upstream node, which may lag behind the one on the primary.
unfoldable pub settle_upstream : LocalView → StandbyState → StandbyState
unfolding names_last_known
settle_upstream v s =
    let d = s.daemon in
    if not (is_degraded d.monitoring_state)
      && names_last_known s.last_known_upstream_node_id v.on_primary
    then with_daemon s
        (record d { local = record d.local { upstream_node_id = s.last_known_upstream_node_id } })
    else s

abbrev pub is_changed : StandbyState → Bool
is_changed s = not (eqb_ℤ s.last_known_upstream_node_id s.daemon.local.upstream_node_id)

-- A refresh needs the local connection.
unfoldable pub upstream_change_part : LocalView → StandbyState → StandbyPart
unfolding settle_upstream
upstream_change_part v s =
    let d = s.daemon in
    let t =
      if d.local_conn_ok
      then with_daemon s (record d { local = refresh_node_record v.refreshed d.local })
      else s in
    let u = settle_upstream v t in
    if not (is_degraded s.local_monitoring_state) && is_changed t
    then standby_part (if is_changed u then leaves else falls) u []
    else standby_part falls t []
