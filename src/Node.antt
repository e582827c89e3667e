-- ===== src/Node.antt =====
-- dbutils.h, repmgr.h: node records and what a query reports of a node's replication.
use hg_repmgr.Base.{ℤ, ℕ, String, str_eq, Bool, if◌then◌else◌}

-- `t_server_type`
pub data ServerType : Type 0 where
  unknown primary standby witness bdr : ServerType

pub data RecoveryType : Type 0 where
  rectype_unknown rectype_primary rectype_standby : RecoveryType

pub data NodeStatus : Type 0 where
  status_unknown status_up status_shutting_down status_down status_unclean_shutdown
        status_rejected :
      NodeStatus

pub data MonitoringState : Type 0 where
  ms_normal ms_degraded : MonitoringState

-- `InvalidXLogRecPtr`
abbrev pub invalid_lsn : ℕ
invalid_lsn = 0

-- `t_node_info`: the fields that failover reads. Texts are shorter than their arrays, so
-- `strncmp(…, MAXLEN)` compares them whole.
pub record NodeInfo : Type 0 where
  pub node_id : ℤ
  pub upstream_node_id : ℤ
  pub type : ServerType
  pub node_name : String
  pub location : String
  pub priority : ℤ
  pub active : Bool
  pub last_wal_receive_lsn : ℕ
  pub node_status : NodeStatus

-- `ReplInfo`: the fields that failover reads. LSNs are 64-bit values.
pub record ReplInfo : Type 0 where
  pub in_recovery : Bool
  pub last_wal_receive_lsn : ℕ
  pub last_wal_replay_lsn : ℕ
  pub wal_replay_paused : Bool
  pub upstream_last_seen : ℤ

unfoldable pub parse_node_type : String → ServerType
parse_node_type type =
    if str_eq type "primary"
    then primary
    else if str_eq type "standby"
    then standby
    else if str_eq type "witness"
    then witness
    else if str_eq type "bdr"
    then bdr
    else unknown

unfoldable pub get_node_type_string : ServerType → String
get_node_type_string primary = "primary"
get_node_type_string standby = "standby"
get_node_type_string witness = "witness"
get_node_type_string bdr = "bdr"
get_node_type_string unknown = "unknown"
