-- ===== src/Failover.antt =====
-- repmgrd-physical.c: the steps of a failover on a standby. What they find outside is an argument;
-- what they do to other servers, commands and interfaces is a log of actions.
pub mod Steps
pub mod Primary
pub mod Waiting
pub mod Cascade
pub mod Witness
pub mod Cluster
use hg_repmgr.Base.{
  ℤ, pos, negsuc, ℕ, zero, suc, ◌+◌, Bool, true, false, ◌&&◌, not, List, [], ◌∷◌, ◌++◌, Option,
  none, some, if◌then◌else◌, eqb_ℤ, ltb_ℤ, String, ◌||◌,
}
use hg_repmgr.Node.{NodeInfo, RecoveryType, rectype_primary}
use hg_repmgr.SharedState.{
  unknown_node_id, unknown_pid, Shared, get_local_node_id, set_local_node_id, set_repmgrd_pid,
}
use hg_repmgr.Template.{parse_follow_command}
use hg_repmgr.Daemon.{
  Options, Daemon, FailoverState, promoted, promotion_failed, primary_reappeared,
  local_node_failure, follow_fail, followed_new_primary, degrade,
}
use hg_repmgr.Election.{Cell}

-- What a failover does outside the process. An event is written to the node that it names where
-- one is connected.
pub data Action : Type 0 where
  disable_wal_receiver enable_wal_receiver : Action
  run_promote_command increment_current_term : Action
  run_follow_command : List ℕ → Action
  notify_follower : ℤ → ℤ → Action
  bind_virtual_ip : Action
  event_failover_abort event_promote_error event_failover_promote : Action
  event_failover_aborted event_failover_follow event_disconnect_manual : Action
  event_follow_failed update_upstream_record copy_node_records : Action

-- A step's failover state, the variables after it, and what it did, in order.
pub record Step : Type 0 where
  pub state : FailoverState
  pub daemon : Daemon
  pub log : List Action

abbrev pub finish : FailoverState → Daemon → List Action → Step
finish f d log = record { state = f; daemon = d; log = log }

-- Is the server there, can a connection be made, what does the state file hold, and this process'
-- pid and pid file.
pub record ConnView : Type 0 where
  pub available : Bool
  pub reconnects : Bool
  pub state_file : ℤ × ℤ
  pub pid : ℤ
  pub pid_file : String

unfoldable pub register : Options → ConnView → Shared → Shared
register opts v s =
    if eqb_ℤ (get_local_node_id s) unknown_node_id
    then set_repmgrd_pid (some v.pid) (some v.pid_file)
        (set_local_node_id v.state_file (some opts.node_id) s)
    else s

-- `check_connection` of the local node.
unfoldable pub check_connection : Options → ConnView → Daemon → Daemon
unfolding register
check_connection opts v d =
    if d.local_conn_ok && v.available
    then d
    else if v.reconnects
    then record d { local_conn_ok = true; shared = register opts v d.shared }
    else record d { local_conn_ok = false }

-- One second of the loop that waits for the siblings' WAL receivers: the pids that they report.
abbrev pub any_connected : List ℤ → Bool → Bool
any_connected [] connected = connected
any_connected (pid ∷ pids) connected =
    any_connected pids (if ltb_ℤ (pos 0) pid then true else connected)

-- The loop: how many seconds it sleeps, and whether it ends with a receiver connected. The flag is
-- set outside the loop and is not reset.
unfoldable pub wait_wal_receivers : ℕ → (ℕ → List ℤ) → ℕ → Bool → ℕ × Bool
wait_wal_receivers zero pids i connected = (0, connected)
wait_wal_receivers (suc left) pids i connected =
    let now = any_connected (pids i) connected in
    let rest = wait_wal_receivers left pids (suc i) now in
    if now then (suc rest.0, rest.1) else (0, false)

-- What `promote_self` finds: the failed primary's record, the promote command's exit status, the
-- local connection after it, the primary that can be reached if the command failed, and the local
-- node's record after a promotion.
pub record PromoteView : Type 0 where
  pub failed_primary : Option ℤ
  pub promote_status : ℤ
  pub conn_kept : Bool
  pub conn_restored : Bool
  pub primary_reached : Option ℤ
  pub own_record : Option NodeInfo

abbrev pub refresh : Option NodeInfo → Daemon → Daemon
refresh none d = d
refresh (some n) d = record d { local = n }

is_back : ℤ → Option ℤ → Bool
is_back failed_id none = false
is_back failed_id (some id) = eqb_ℤ id failed_id

promotion_result : PromoteView → ℤ → Daemon → Step
unfolding is_back
promotion_result v failed_id d =
    if not (eqb_ℤ v.promote_status (pos 0))
    then (if is_back failed_id v.primary_reached
        then finish primary_reappeared d (run_promote_command ∷ event_failover_abort ∷ [])
        else finish promotion_failed d (run_promote_command ∷ event_promote_error ∷ []))
    else finish promoted (refresh v.own_record d)
        (run_promote_command ∷ increment_current_term ∷ event_failover_promote ∷ [])

promote_failed_primary : PromoteView → Daemon → Option ℤ → Step
unfolding promotion_result
promote_failed_primary v d none = finish promotion_failed d []
promote_failed_primary v d (some failed_id) =
    let e = record d { local_conn_ok = v.conn_kept || v.conn_restored } in
    if v.conn_kept || v.conn_restored
    then promotion_result v failed_id e
    else finish local_node_failure e (run_promote_command ∷ [])

unfoldable pub promote_self : PromoteView → Daemon → Step
unfolding promote_failed_primary
promote_self v d = promote_failed_primary v d v.failed_primary

-- `reconnects` tells which siblings can be connected to again.
unfoldable pub notify_followers : (ℤ → Bool) → List Cell → ℤ → List Action
notify_followers reconnects [] follow_node_id = []
notify_followers reconnects (c ∷ cs) follow_node_id =
    let rest = notify_followers reconnects cs follow_node_id in
    if c.connected || reconnects c.info.node_id
    then notify_follower c.info.node_id follow_node_id ∷ rest
    else rest

-- dbutils.c `get_new_primary`: `none` where the query fails or returns NULL.
unfoldable pub query_new_primary : Option ℤ → Bool × ℤ
query_new_primary none = (false, unknown_node_id)
query_new_primary (some id) = (not (eqb_ℤ id unknown_node_id), id)

-- The loop of `wait_primary_notification`, with what each second's query returns.
unfoldable pub poll_new_primary : ℕ → (ℕ → Option ℤ) → ℕ → Option ℤ
poll_new_primary zero answers i = none
poll_new_primary (suc left) answers i =
    let rest = poll_new_primary left answers (suc i) in
    let (ok, id) = query_new_primary (answers i) in if ok then some id else rest
