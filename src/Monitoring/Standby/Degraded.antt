-- ===== src/Monitoring/Standby/Degraded.antt =====
-- repmgrd-physical.c `monitor_streaming_standby`: degraded monitoring, in which a standby waits for
-- its upstream node to be back, to be promoted, or for another primary.
use hg_repmgr.Base.{
  ℤ, pos, ℕ, ◌-◌, Bool, true, false, ◌&&◌, ◌||◌, not, List, [], ◌∷◌, Option, none, some, map,
  if◌then◌else◌, ltb_ℤ, eqb_ℤ,
}
use hg_repmgr.Node.{status_up, ms_normal, ServerType, witness, RecoveryType}
use hg_repmgr.SharedState.{repmgrd_is_paused}
use hg_repmgr.Daemon.{FailoverState, promotion_failed}
use hg_repmgr.Election.{Peer, get_active_sibling_node_records}
use hg_repmgr.Election.Vote.{untouched, is_manual}
use hg_repmgr.Failover.{notify_followers}
use hg_repmgr.Failover.Steps.{FollowView, follow_new_primary, is_up_primary}
use hg_repmgr.Monitoring.{
  event, set_primary, failover_action, MonitorOptions, falls, jumps, leaves, exits,
  err_monitoring_timeout, is_degraded, terminate, RecordStatus, get_node_record,
  refresh_node_record,
}
use hg_repmgr.Monitoring.Standby.{
  StandbyState, StandbyPart, standby_part, with_daemon, with_upstream_status, UpstreamCheck,
  upstream_answers, is_primary_type,
}

-- What degraded monitoring finds: the time; the check of the upstream node, and whether its
-- connection is up after it; what the local node says that it is; its record as it is read and
-- refreshed; the rows of the node table, which siblings can be connected to and what they say that
-- they are; and what following a node finds.
pub record DegradedView : Type 0 where
  pub now : ℕ
  pub check : UpstreamCheck
  pub conn_ok : Bool
  pub local_type : RecoveryType
  pub own_record : RecordStatus
  pub own_refreshed : RecordStatus
  pub nodes : List Peer
  pub sibling : ℤ → Option RecoveryType
  pub follow : ℤ → FollowView

-- The upstream node answers again.
unfoldable pub upstream_back : DegradedView → StandbyState → StandbyPart
upstream_back v s =
    if v.conn_ok
    then standby_part jumps
        (with_daemon s
          (with_upstream_status status_up (record s.daemon { monitoring_state = ms_normal })))
        (event "repmgrd_upstream_reconnect" true ∷ [])
    else standby_part falls s []

abbrev pub is_witness : ServerType → Bool
is_witness witness = true
is_witness _ = false

-- The scan of the siblings for a primary: `follow_node_id`.
unfoldable pub find_new_primary : ℤ → (ℤ → Option RecoveryType) → List Peer → Option ℤ
find_new_primary local_id sibling [] = none
find_new_primary local_id sibling (p ∷ ps) =
    let rest = find_new_primary local_id sibling ps in
    if eqb_ℤ p.info.node_id local_id || is_witness p.info.type
    then rest
    else if is_up_primary (sibling p.info.node_id)
    then some p.info.node_id
    else rest

-- The result of following the node is not read.
unfoldable pub follow_found : MonitorOptions → DegradedView → StandbyState → Option ℤ → StandbyPart
follow_found mo v s none = standby_part falls s []
follow_found mo v s (some id) =
    let r = follow_new_primary mo.failover_options (v.follow id) id s.daemon in
    standby_part falls (with_daemon s r.daemon) (map failover_action r.log)

-- Another primary is looked for if failover is automatic and not paused.
unfoldable pub look_for_primary : MonitorOptions → DegradedView → StandbyState → StandbyPart
unfolding find_new_primary follow_found
look_for_primary mo v s =
    let d = s.daemon in
    let siblings =
      get_active_sibling_node_records d.local.node_id d.local.upstream_node_id v.nodes in
    if not (is_manual mo.failover_options.failover)
      && not (d.local_conn_ok && repmgrd_is_paused d.shared)
    then follow_found mo v s (find_new_primary d.local.node_id v.sibling siblings)
    else standby_part falls s []

abbrev pub is_promotion_failed : FailoverState → Bool
is_promotion_failed promotion_failed = true
is_promotion_failed _ = false

-- The promote command failed, and the local node was promoted all the same: the siblings of the
-- former upstream node are told.
unfoldable pub promoted_late : (ℤ → Bool) → DegradedView → StandbyState → StandbyPart
promoted_late reconnects v s =
    let d = s.daemon in
    let local = get_node_record v.own_record d.local in
    let siblings = get_active_sibling_node_records local.node_id d.local.upstream_node_id v.nodes in
    standby_part leaves (with_daemon s (record d { local = local; monitoring_state = ms_normal })) (
      set_primary
      ∷ event "repmgrd_failover_promote" true
      ∷ map failover_action (notify_followers reconnects (map untouched siblings) local.node_id))

-- The local node is a primary now.
unfoldable pub local_promoted :
    MonitorOptions → (ℤ → Bool) → DegradedView → StandbyState → StandbyPart
unfolding promoted_late look_for_primary
local_promoted mo reconnects v s =
    let d = record s.daemon { local = refresh_node_record v.own_refreshed s.daemon.local } in
    if is_promotion_failed s.daemon.failover_state
    then promoted_late reconnects v s
    else if is_primary_type d.local.type
    then standby_part leaves (with_daemon s (record d { monitoring_state = ms_normal })) []
    else look_for_primary mo v (with_daemon s d)

-- The upstream node does not answer.
unfoldable pub upstream_gone :
    MonitorOptions → (ℤ → Bool) → DegradedView → StandbyState → StandbyPart
unfolding local_promoted look_for_primary
upstream_gone mo reconnects v s =
    if is_up_primary (if s.daemon.local_conn_ok then some v.local_type else none)
    then local_promoted mo reconnects v s
    else look_for_primary mo v s

-- `DEGRADED_LABEL`; `reconnects` tells which siblings a notice reaches.
unfoldable pub standby_degraded :
    MonitorOptions → (ℤ → Bool) → DegradedView → StandbyState → StandbyPart
unfolding upstream_back upstream_gone
standby_degraded mo reconnects v s =
    let elapsed = v.now - s.degraded_start in
    let timeout = mo.degraded_monitoring_timeout in
    if not (is_degraded s.daemon.monitoring_state)
    then standby_part falls s []
    else if ltb_ℤ (pos 0) timeout && ltb_ℤ timeout (pos elapsed)
    then standby_part (exits err_monitoring_timeout) (with_daemon s (terminate s.daemon))
        (event "repmgrd_shutdown" true ∷ [])
    else if upstream_answers mo v.check
    then upstream_back v s
    else upstream_gone mo reconnects v s
