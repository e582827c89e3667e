-- ===== src/Monitoring/Primary.antt =====
-- repmgrd-physical.c `monitor_streaming_primary`: one turn of the loop of a repmgrd on a primary.
-- SIGHUP is in the options, which each turn has as its argument; lines that only log are left out.
pub mod Isolation
pub mod Healthy
use hg_repmgr.Base.{
  ℤ, pos, ℕ, ◌-◌, Bool, true, false, ◌&&◌, ◌||◌, not, List, [], ◌∷◌, ◌++◌, Option, none, some, map,
  if◌then◌else◌, ltb_ℤ, String,
}
use hg_repmgr.Node.{
  NodeInfo, NodeStatus, status_unknown, status_up, MonitoringState, ms_normal, ms_degraded,
}
use hg_repmgr.SharedState.{Shared}
use hg_repmgr.Daemon.{Options, Daemon, reset_node_voting_status}
use hg_repmgr.Failover.{ConnView, check_connection, register}
use hg_repmgr.Reconnect.{Attempt, try_reconnect}
use hg_repmgr.SyncMode.{Mode, Check, check_sync_async}
use hg_repmgr.BrainSplit.{BsAction, do_nothing, do_rejoin, do_stop, Other, check_bs}
use hg_repmgr.Monitoring.{
  jumps, exits, leaves, goes_on, is_degraded, is_status_up, with_status, Flow, falls, landed, Deed,
  event, unbind_virtual_ip, stop_fast, stop_service, kill_service, sync_command, ExitCode,
  err_bad_config, err_monitoring_timeout, err_brain_split, MonitorOptions, terminate,
}
use hg_repmgr.Monitoring.Rejoin.{
  Touch, DiskAlarm, DiskCheck, check_disk, check_network_card_status, RejoinView,
  exec_node_rejoin_primary,
}
use hg_repmgr.Monitoring.Status.{
  StatusView, Verdict, stays, becomes_standby, terminated, Checked, check_primary_status,
}

-- The variables of the loop: the process', the static ones of the synchronous mode,
-- `degraded_monitoring_start` in seconds, and the label and the alarm of the disk check.
pub record PrimaryState : Type 0 where
  pub daemon : Daemon
  pub mode : Mode
  pub degraded_start : ℕ
  pub disk_alarm : DiskAlarm

-- What a turn finds, in the order of the turn: the connection check and a ping's loss of the
-- connection do not differ; whether an alarm that is pending goes off before the disk check; the
-- touches of the data directory; the network card; the attempts to
-- reconnect; the status checks of the three places; times; the rejoin commands of the two places;
-- the synchronous mode; the server in the degraded part; and the nodes of the brain split check.
pub record PrimaryView : Type 0 where
  pub conn : ConnView
  pub late_alarm : Bool
  pub touches : ℕ → Touch
  pub card : Option String
  pub carrier : Option ℤ
  pub attempts : ℕ → Attempt
  pub after_reconnect : StatusView
  pub lost_at : ℕ
  pub rejoin : RejoinView
  pub sync : Check
  pub now : ℕ
  pub back : Bool
  pub back_opens : Bool
  pub after_degraded : StatusView
  pub at_loop : StatusView
  pub answers : Bool
  pub local_timeline : ℕ
  pub others : List Other
  pub split_at : ℕ
  pub split_rejoin : RejoinView

pub record Part : Type 0 where
  pub flow : Flow
  pub after : PrimaryState
  pub log : List Deed

abbrev pub part : Flow → PrimaryState → List Deed → Part
part f s log = record { flow = f; after = s; log = log }

abbrev pub with_daemon : PrimaryState → Daemon → PrimaryState
with_daemon s d = record s { daemon = d }

-- A part that ran after `log`.
abbrev pub after_log : List Deed → Part → Part
after_log log p = record p { log = log ++ p.log }

-- A status check that goes on with `flow` if the node stays a primary.
verdict_flow : Flow → Verdict → Flow
verdict_flow f stays = f
verdict_flow f becomes_standby = leaves
verdict_flow f terminated = exits err_bad_config

unfoldable pub status_part : Flow → Option ℕ → StatusView → PrimaryState → List Deed → Part
unfolding verdict_flow
status_part f elapsed v s log =
    let c = check_primary_status elapsed v s.daemon in
    part (verdict_flow f c.verdict) (with_daemon s c.daemon) (log ++ c.log)

-- Degraded monitoring begins: the connection is closed, the virtual IP taken down, the server
-- stopped, and a rejoin tried.
unfoldable pub isolate : RejoinView → ℕ → PrimaryState → List Deed → Part
isolate v at s log =
    part falls
      (record s {
        daemon = record s.daemon { monitoring_state = ms_degraded; local_conn_ok = false };
        degraded_start = at;
      })
      (log ++ unbind_virtual_ip ∷ stop_fast ∷ exec_node_rejoin_primary v)

-- `try_reconnect`, if it is the connection that is lost.
unfoldable pub reconnect_local : MonitorOptions → PrimaryView → Daemon → Daemon
reconnect_local mo v d =
    let status = (try_reconnect mo.reconnect_attempts v.attempts).node_status in
    if d.local_conn_ok
    then d
    else with_status status (record d { local_conn_ok = is_status_up status })

-- After the attempts to reconnect: a server that is back may have been restarted.
unfoldable pub local_settled : MonitorOptions → PrimaryView → PrimaryState → List Deed → Part
unfolding status_part isolate
local_settled mo v s log =
    let shared = register mo.failover_options v.conn s.daemon.shared in
    if is_status_up s.daemon.local.node_status
    then status_part jumps none v.after_reconnect
        (with_daemon s (record s.daemon { shared = shared }))
        (log ++ event "repmgrd_local_reconnect" true ∷ [])
    else isolate v.rejoin v.lost_at s log

-- The node was up and is not.
unfoldable pub local_lost : MonitorOptions → PrimaryView → PrimaryState → List Deed → Part
unfolding reconnect_local local_settled
local_lost mo v s log =
    local_settled mo v (with_daemon s (reconnect_local mo v (with_status status_unknown s.daemon)))
      (log ++ event "repmgrd_local_disconnect" true ∷ [])

unfoldable pub sync_part : PrimaryView → PrimaryState → List Deed → Part
sync_part v s log =
    let r = check_sync_async v.sync s.mode in
    part falls (record s { mode = r.mode }) (log ++ map sync_command r.commands)

abbrev pub disk_check : MonitorOptions → PrimaryView → PrimaryState → DiskCheck
disk_check mo v s = check_disk mo.device_check_times v.touches v.late_alarm s.disk_alarm

-- After the connection check and the disk check, which closes the connection if it kills the server.
unfoldable pub probe_local : MonitorOptions → PrimaryView → PrimaryState → PrimaryState
probe_local mo v s =
    let c = check_connection mo.failover_options v.conn s.daemon in
    let k = disk_check mo v s in
    record s {
      daemon = record c { local_conn_ok = c.local_conn_ok && not k.kills };
      disk_alarm = k.alarm;
    }

-- Is the node lost: its connection, or its network card?
unfoldable pub is_lost : PrimaryView → Daemon → Bool
is_lost v d =
    not d.local_conn_ok || not (check_network_card_status d.local_conn_ok v.card v.carrier)

unfoldable pub respond : MonitorOptions → PrimaryView → PrimaryState → List Deed → Part
unfolding local_lost sync_part is_lost
respond mo v s log =
    if is_lost v s.daemon
    then (if is_status_up s.daemon.local.node_status
        then local_lost mo v s log
        else part falls s (log ++ exec_node_rejoin_primary v.rejoin))
    else sync_part v s log

-- The disk, the connection and the network card.
unfoldable pub check_local : MonitorOptions → PrimaryView → PrimaryState → Part
unfolding respond probe_local
check_local mo v s =
    respond mo v (probe_local mo v s) (if (disk_check mo v s).kills then kill_service ∷ [] else [])

unfoldable pub degraded_part : MonitorOptions → PrimaryView → PrimaryState → Part
unfolding status_part
degraded_part mo v s =
    let elapsed = v.now - s.degraded_start in
    let timeout = mo.degraded_monitoring_timeout in
    let reopened = record s.daemon { local_conn_ok = true } in
    if not (is_degraded s.daemon.monitoring_state)
    then part falls s []
    else if ltb_ℤ (pos 0) timeout && ltb_ℤ timeout (pos elapsed)
    then part (exits err_monitoring_timeout) (with_daemon s (terminate s.daemon))
        (event "repmgrd_shutdown" true ∷ [])
    else if not v.back
    then part falls s []
    else if not v.back_opens
    then part falls (with_daemon s (record s.daemon { local_conn_ok = false })) []
    else status_part jumps (some elapsed) v.after_degraded
        (with_daemon s (with_status status_up reopened)) []

split_part : PrimaryView → PrimaryState → BsAction → Part
unfolding isolate
split_part v s do_nothing = part falls s []
split_part v s do_stop = part (exits err_brain_split) s (unbind_virtual_ip ∷ stop_service ∷ [])
split_part v s do_rejoin = isolate v.split_rejoin v.split_at s []

-- The end of the turn, from `loop`, after the status check.
unfoldable pub brain_split_part : MonitorOptions → PrimaryView → PrimaryState → Part
unfolding split_part
brain_split_part mo v s =
    if v.answers && is_status_up s.daemon.local.node_status && mo.check_brain_split
    then split_part v s (check_bs s.daemon.local v.local_timeline v.others)
    else part falls s []

on_fall : (PrimaryState → Part) → PrimaryState → List Deed → Flow → Part
on_fall next s log falls = after_log log (next s)
on_fall next s log f = part f s log

-- The next part, if this one falls through.
unfoldable pub then_part : (PrimaryState → Part) → Part → Part
unfolding on_fall
then_part next p = on_fall next p.after p.log p.flow

-- A jump has arrived at `loop`.
abbrev pub at_loop_label : Part → Part
at_loop_label p = record p { flow = landed p.flow }

-- What is done before the loop: `startup_event_logged` is set by the first start of a monitoring.
unfoldable pub primary_start : Bool → PrimaryState → PrimaryState × List Deed
primary_start startup_event_logged s = (
  with_daemon s (with_status status_up (reset_node_voting_status s.daemon)),
  event (if startup_event_logged then "repmgrd_reload" else "repmgrd_start") true ∷ [],
)

-- One turn. It ends with `falls` where the loop goes on.
unfoldable pub primary_turn : MonitorOptions → PrimaryView → PrimaryState → Part
unfolding then_part check_local degraded_part status_part brain_split_part
primary_turn mo v s = then_part (brain_split_part mo v) (
    then_part (λ t. status_part falls none v.at_loop t [])
      (at_loop_label (then_part (degraded_part mo v) (check_local mo v s))))

-- The log of turns one after another, up to one that does not end with `falls`, and the state after
-- them.
unfoldable pub primary_run :
    List (MonitorOptions × PrimaryView) → PrimaryState → PrimaryState × List Deed
unfolding primary_turn
primary_run [] s = (s, [])
primary_run ((mo, v) ∷ vs) s =
    let p = primary_turn mo v s in
    let rest = primary_run vs p.after in
    if goes_on p.flow then (rest.0, p.log ++ rest.1) else (p.after, p.log)
