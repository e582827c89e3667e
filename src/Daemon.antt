-- ===== src/Daemon.antt =====
-- repmgrd.c, repmgrd-physical.c: the state and the options of a repmgrd that monitors a standby.
use hg_repmgr.Base.{ℤ, ℕ, Bool, List, if◌then◌else◌}
use hg_repmgr.Node.{NodeInfo, MonitoringState, ms_degraded}
use hg_repmgr.SharedState.{Shared, reset_voting_status}

pub data FailoverState : Type 0 where
  state_unknown state_none promoted promotion_failed primary_reappeared local_node_failure
        waiting_new_primary follow_new_primary requires_manual_failover followed_new_primary
        following_original_primary no_new_primary follow_fail node_notification_error
        rerun_election :
      FailoverState

pub data ElectionResult : Type 0 where
  not_candidate won lost cancelled rerun : ElectionResult

pub data FailoverMode : Type 0 where
  manual automatic : FailoverMode

-- `config_file_options`: those that failover reads. Integers are C's `int`, in a range where
-- doubling the interval does not overflow.
pub record Options : Type 0 where
  pub node_id : ℤ
  pub failover : FailoverMode
  pub monitor_interval_secs : ℤ
  pub primary_visibility_consensus : Bool
  pub failover_validation_command : List ℕ
  pub primary_notification_timeout : ℕ
  pub sibling_nodes_disconnect_timeout : ℕ
  pub follow_command : List ℕ
  pub repmgrd_standby_startup_timeout : ℕ
  pub standby_disconnect_on_failover : Bool
  pub virtual_ip : List ℕ
  pub network_card : List ℕ

-- The variables of the process: the records of the local and the upstream node, the two states
-- (`degraded_monitoring_start`, a time, is left out), whether the local connection is up, and the
-- shared memory of the local server.
pub record Daemon : Type 0 where
  pub local : NodeInfo
  pub upstream : NodeInfo
  pub monitoring_state : MonitoringState
  pub failover_state : FailoverState
  pub local_conn_ok : Bool
  pub shared : Shared

unfoldable pub degrade : Daemon → Daemon
degrade d = record d { monitoring_state = ms_degraded }

unfoldable pub reset_node_voting_status : Daemon → Daemon
reset_node_voting_status d =
    let e = record d { failover_state = state_none } in
    if d.local_conn_ok then record e { shared = reset_voting_status d.shared } else e
