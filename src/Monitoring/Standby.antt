-- ===== src/Monitoring/Standby.antt =====
-- repmgrd-physical.c `monitor_streaming_standby`: the loop of a repmgrd on a standby, up to its
-- check of the upstream node. Connections to other nodes are not variables here: what the code asks
-- of one is in what the turn finds.
pub mod Degraded
pub mod Local
pub mod Turn
pub mod Start
pub mod Quiet
pub mod Causes
pub mod Paused
pub mod Stuck
pub mod Outage
use hg_repmgr.Base.{
  ℤ, pos, ℕ, suc, Bool, true, false, ◌&&◌, not, List, [], ◌∷◌, ◌++◌, Option, none, some, map,
  if◌then◌else◌, leb, String,
}
use hg_repmgr.Node.{
  NodeInfo, NodeStatus, status_unknown, status_up, MonitoringState, ms_normal, ms_degraded,
  ServerType, primary, standby, RecoveryType, rectype_standby,
}
use hg_repmgr.SharedState.{Shared, set_upstream_last_seen, unknown_node_id, repmgrd_is_paused}
use hg_repmgr.Daemon.{Options, Daemon, degrade}
use hg_repmgr.Failover.{ConnView, check_connection}
use hg_repmgr.Failover.Steps.{reconnects_within}
use hg_repmgr.Failover.Primary.{World, Ending, do_primary_failover}
use hg_repmgr.Failover.Cascade.{CascadeView, Pair, Cascaded, do_upstream_standby_failover}
use hg_repmgr.Reconnect.{Attempt, try_reconnect, Round, check_upstream_connection}
use hg_repmgr.Monitoring.{
  Deed, event, node_rejoin, failover_action, MonitorOptions, Flow, falls, jumps, leaves, exits,
  err_bad_config, is_status_up, is_degraded,
}
use hg_repmgr.Monitoring.Rejoin.{StatusOption, clean_up}

-- The variables of the loop: the process', the primary's shared memory, the times in seconds, the
-- state of the local node, `last_known_upstream_node_id` and the count in the local record.
pub record StandbyState : Type 0 where
  pub daemon : Daemon
  pub primary_shared : Shared
  pub degraded_start : ℕ
  pub local_monitoring_state : MonitoringState
  pub last_known_upstream_node_id : ℤ
  pub failed_connect_times : ℕ

pub record StandbyPart : Type 0 where
  pub flow : Flow
  pub after : StandbyState
  pub log : List Deed

abbrev pub standby_part : Flow → StandbyState → List Deed → StandbyPart
standby_part f s log = record { flow = f; after = s; log = log }

abbrev pub with_daemon : StandbyState → Daemon → StandbyState
with_daemon s d = record s { daemon = d }

abbrev pub with_upstream_status : NodeStatus → Daemon → Daemon
with_upstream_status st d = record d { upstream = record d.upstream { node_status = st } }

-- What a check of the upstream node finds.
pub record UpstreamCheck : Type 0 where
  pub ping : Bool
  pub connects : Bool
  pub rounds : ℕ → Round

-- Two rounds are enough fuel for the query check.
unfoldable pub upstream_answers : MonitorOptions → UpstreamCheck → Bool
upstream_answers mo c =
    answered (check_upstream_connection 2 mo.connection_check_type c.ping c.connects c.rounds)
  where
    answered : Option Bool → Bool
    answered none = false
    answered (some b) = b

-- What the first parts of a turn find: is the local server there, and the options of its status
-- command; the check of the upstream node, the time; the local connection's check, the attempts to
-- reconnect, what the upstream node is after them; a ping over the local connection, and when the
-- local node answers; and what the two failovers find.
pub record UpstreamView : Type 0 where
  pub local_there : Bool
  pub node_status : Option (List StatusOption)
  pub rejoin_status : ℤ
  pub check : UpstreamCheck
  pub now : ℕ
  pub conn : ConnView
  pub attempts : ℕ → Attempt
  pub recovered_type : RecoveryType
  pub ping_ok : Bool
  pub answers_at : ℕ → Bool
  pub world : World
  pub cascade : CascadeView

-- The local server is looked at; one that is gone for long enough is rejoined to the upstream node.
unfoldable pub rejoin_part : MonitorOptions → UpstreamView → StandbyState → StandbyPart
rejoin_part mo v s =
    if v.local_there
    then standby_part falls (record s { failed_connect_times = 0 }) []
    else standby_part falls (record s { failed_connect_times = suc s.failed_connect_times })
        (clean_up v.node_status
          ++ (if leb mo.reconnect_attempts s.failed_connect_times
              then node_rejoin s.daemon.upstream.node_id ∷ []
              else []))

-- The upstream node has become a standby: monitoring starts again with no upstream node.
unfoldable pub restart_unknown :
    MonitorOptions → UpstreamView → StandbyState → List Deed → StandbyPart
restart_unknown mo v s log =
    let timeout = mo.failover_options.repmgrd_standby_startup_timeout in
    let d = s.daemon in
    standby_part leaves
      (with_daemon s (record d {
        local = record d.local { upstream_node_id = unknown_node_id };
        local_conn_ok =
            if d.local_conn_ok && v.ping_ok then true else reconnects_within timeout v.answers_at 0;
      }))
      log

abbrev pub is_primary_type : ServerType → Bool
is_primary_type primary = true
is_primary_type _ = false

abbrev pub is_standby_type : ServerType → Bool
is_standby_type standby = true
is_standby_type _ = false

abbrev pub is_standby : RecoveryType → Bool
is_standby rectype_standby = true
is_standby _ = false

unfoldable pub upstream_recovered :
    MonitorOptions → UpstreamView → StandbyState → List Deed → StandbyPart
unfolding restart_unknown
upstream_recovered mo v s log =
    if is_primary_type s.daemon.upstream.type && is_standby v.recovered_type
    then restart_unknown mo v s log
    else standby_part jumps s (log ++ event "repmgrd_upstream_reconnect" true ∷ [])

-- Where the failover leaves monitoring degraded, it has set `degraded_monitoring_start`.
after_primary_failover : UpstreamView → StandbyState → List Deed → Ending → StandbyPart
after_primary_failover v s log e =
    standby_part (if e.result then leaves else falls)
      (record s {
        daemon = e.daemon;
        degraded_start = if is_degraded e.daemon.monitoring_state then v.now else s.degraded_start;
      })
      (log ++ map failover_action e.log)

after_standby_failover : UpstreamView → StandbyState → List Deed → Cascaded → StandbyPart
after_standby_failover v s log c =
    let t = record s { daemon = c.after.daemon; primary_shared = c.after.primary } in
    let done = log ++ map failover_action c.log in
    if c.terminated
    then standby_part (exits err_bad_config) t done
    else if c.result
    then standby_part leaves t done
    else standby_part falls (record t { daemon = degrade t.daemon; degraded_start = v.now }) done

-- The upstream node is still down. A pause is seen over the local connection only.
unfoldable pub upstream_down :
    MonitorOptions → UpstreamView → StandbyState → List Deed → StandbyPart
unfolding after_primary_failover after_standby_failover
upstream_down mo v s log =
    let e = do_primary_failover mo.failover_options v.world s.daemon in
    let c =
      do_upstream_standby_failover mo.failover_options v.cascade
        (record { primary = s.primary_shared; daemon = s.daemon }) in
    if s.daemon.local_conn_ok && repmgrd_is_paused s.daemon.shared
    then standby_part falls (record s { daemon = degrade s.daemon; degraded_start = v.now }) log
    else if is_primary_type s.daemon.upstream.type
    then after_primary_failover v s log e
    else if is_standby_type s.daemon.upstream.type
    then after_standby_failover v s log c
    else standby_part falls s log

-- The upstream node was up and does not answer: the local connection is checked, and the upstream
-- node's connection tried again.
unfoldable pub upstream_lost : MonitorOptions → UpstreamView → StandbyState → StandbyPart
unfolding upstream_recovered upstream_down
upstream_lost mo v s =
    let lost = event "repmgrd_upstream_disconnect" true ∷ [] in
    let d = with_upstream_status status_unknown s.daemon in
    let e = if d.local_conn_ok then d else check_connection mo.failover_options v.conn d in
    let status = (try_reconnect mo.reconnect_attempts v.attempts).node_status in
    let t = with_daemon s (with_upstream_status status e) in
    if is_status_up status then upstream_recovered mo v t lost else upstream_down mo v t lost

unfoldable pub upstream_part : MonitorOptions → UpstreamView → StandbyState → StandbyPart
unfolding upstream_answers upstream_lost
upstream_part mo v s =
    let d = s.daemon in
    if upstream_answers mo v.check
    then standby_part falls
        (if d.local_conn_ok
          then with_daemon s (record d { shared = set_upstream_last_seen v.now d.shared })
          else s)
        []
    else if is_status_up d.upstream.node_status
    then upstream_lost mo v s
    else standby_part falls s []
