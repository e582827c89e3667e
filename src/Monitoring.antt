-- ===== src/Monitoring.antt =====
-- repmgrd-physical.c: the monitoring loops. A turn of a loop is a function of what it finds outside
-- the process; what it does there is a log of deeds.
pub mod Rejoin
pub mod Status
pub mod Primary
pub mod Deeds
pub mod Standby
pub mod Witness
use hg_repmgr.Base.{
  ℤ, ℕ, Bool, true, false, List, [], ◌∷◌, Option, none, some, String, if◌then◌else◌,
}
use hg_repmgr.Node.{
  ms_normal, ms_degraded, status_up, MonitoringState, NodeInfo, RecoveryType, rectype_unknown,
  rectype_primary, rectype_standby, NodeStatus, status_unknown, invalid_lsn,
}
use hg_repmgr.SharedState.{unknown_node_id, unknown_pid, set_repmgrd_pid}
use hg_repmgr.Daemon.{Daemon, Options}
use hg_repmgr.SyncMode.{Command}
use hg_repmgr.Failover.{Action}
use hg_repmgr.Reconnect.{ConnectionCheckType}

-- What a loop does outside the process. An event has its name and whether it is a success.
pub data Deed : Type 0 where
  event : String → Bool → Deed
  unbind_virtual_ip stop_fast stop_service start_and_stop kill_service : Deed
  node_rejoin : ℤ → Deed
  set_active_standby set_active set_inactive set_primary : Deed
  sync_command : Command → Deed
  failover_action : Action → Deed

-- `RecordStatus`, with the record that was read.
pub data RecordStatus : Type 0 where
  record_error record_not_found : RecordStatus
  record_found : NodeInfo → RecordStatus

-- The exit codes of the loops.
pub data ExitCode : Type 0 where
  err_bad_config err_db_conn err_monitoring_timeout err_brain_split : ExitCode

-- The options that the loops read beside those of a failover.
pub record MonitorOptions : Type 0 where
  pub failover_options : Options
  pub reconnect_attempts : ℕ
  pub degraded_monitoring_timeout : ℤ
  pub device_check_times : ℕ
  pub check_brain_split : Bool
  pub standby_wait_timeout : ℕ
  pub connection_check_type : ConnectionCheckType
  pub witness_sync_interval : ℕ

-- `_populate_node_record` with defaults: fields that the table does not have.
unfoldable pub populate : NodeInfo → NodeInfo
populate n = record n { node_status = status_unknown; last_wal_receive_lsn = invalid_lsn }

-- A row of the query for active nodes: the node, and what it says that it is if it can be
-- connected to.
pub record Candidate : Type 0 where
  pub node_id : ℤ
  pub recovery_type : Option RecoveryType

-- The loop of `_get_primary_connection`: the primary that it is connected to.
unfoldable pub first_primary : List Candidate → Option ℤ
first_primary [] = none
first_primary (c ∷ cs) = primary_or (first_primary cs) c.node_id c.recovery_type
  where
    primary_or : Option ℤ → ℤ → Option RecoveryType → Option ℤ
    primary_or rest id (some rectype_primary) = some id
    primary_or rest id _ = rest

-- dbutils.c `_get_primary_connection`; `none` is a query that fails.
unfoldable pub get_primary_connection : Option (List Candidate) → Option ℤ
unfolding first_primary
get_primary_connection none = none
get_primary_connection (some rows) = first_primary rows

-- repmgrd.c `terminate`: what it leaves in the shared memory.
unfoldable pub terminate : Daemon → Daemon
terminate d =
    if d.local_conn_ok
    then record d { shared = set_repmgrd_pid (some unknown_pid) none d.shared }
    else d

-- How a part of the turn ends: it goes on to the next part, jumps to `loop`, returns to start
-- monitoring again, or ends the process.
pub data Flow : Type 0 where
  falls jumps leaves : Flow
  exits : ExitCode → Flow

abbrev pub landed : Flow → Flow
landed jumps = falls
landed f = f

abbrev pub goes_on : Flow → Bool
goes_on falls = true
goes_on _ = false

abbrev pub with_status : NodeStatus → Daemon → Daemon
with_status st d = record d { local = record d.local { node_status = st } }

abbrev pub is_status_up : NodeStatus → Bool
is_status_up status_up = true
is_status_up _ = false

abbrev pub is_degraded : MonitoringState → Bool
is_degraded ms_degraded = true
is_degraded ms_normal = false

-- `get_node_record` and `refresh_node_record` into a record: where none is read it is unchanged. A
-- refresh keeps the fields that the table does not have.
unfoldable pub get_node_record : RecordStatus → NodeInfo → NodeInfo
unfolding populate
get_node_record (record_found n) old = populate n
get_node_record _ old = old

unfoldable pub refresh_node_record : RecordStatus → NodeInfo → NodeInfo
refresh_node_record (record_found n) old = record n {
  node_status = old.node_status;
  last_wal_receive_lsn = old.last_wal_receive_lsn;
}
refresh_node_record _ old = old
