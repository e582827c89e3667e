-- ===== src/Monitoring/Status.antt =====
-- repmgrd-physical.c `check_primary_status`: is the node that is monitored as a primary still one?
use hg_repmgr.Base.{ℤ, ℕ, Bool, true, false, List, [], ◌∷◌, ◌++◌, Option, none, some, if◌then◌else◌}
use hg_repmgr.Node.{
  ServerType, primary, RecoveryType, rectype_unknown, rectype_primary, rectype_standby, ms_normal,
}
use hg_repmgr.Daemon.{Daemon}
use hg_repmgr.Monitoring.{
  Deed, event, set_active_standby, RecordStatus, record_error, record_not_found, record_found,
  Candidate, get_primary_connection, populate, terminate,
}

-- What the check finds: the local node's recovery type, the active nodes, the record of the local
-- node on the new primary, whether it can be changed, and the record after that.
pub record StatusView : Type 0 where
  pub recovery_type : RecoveryType
  pub candidates : Option (List Candidate)
  pub own_record : RecordStatus
  pub update_ok : Bool
  pub refreshed : RecordStatus

-- "true" and "false" of the function, and the end of the process.
pub data Verdict : Type 0 where
  stays becomes_standby terminated : Verdict

pub record Checked : Type 0 where
  pub verdict : Verdict
  pub daemon : Daemon
  pub log : List Deed

-- Degraded monitoring ends; `elapsed` is `none` for NO_DEGRADED_MONITORING_ELAPSED.
resume : Option ℕ → Daemon → Daemon
resume none d = d
resume (some elapsed) d = record d { monitoring_state = ms_normal }

still_primary : Option ℕ → Daemon → Checked
unfolding resume
still_primary none d = record { verdict = stays; daemon = d; log = [] }
still_primary (some elapsed) d = record {
  verdict = stays;
  daemon = resume (some elapsed) d;
  log = event "repmgrd_local_reconnect" true ∷ [];
}

restart_as_standby : Option ℕ → Daemon → List Deed → Checked
unfolding resume
restart_as_standby elapsed d log = record {
  verdict = becomes_standby;
  daemon = resume elapsed d;
  log = log ++ event "repmgrd_standby_reconnect" true ∷ [];
}

-- After the record was set to standby, it is read again.
refreshed_standby : Option ℕ → Daemon → RecordStatus → Checked
unfolding restart_as_standby populate
refreshed_standby elapsed d (record_found n) =
    restart_as_standby elapsed (record d { local = populate n }) (set_active_standby ∷ [])
refreshed_standby elapsed d _ = record {
  verdict = stays;
  daemon = d;
  log = set_active_standby ∷ [];
}

is_primary_type : ServerType → Bool
is_primary_type primary = true
is_primary_type _ = false

registered : Option ℕ → StatusView → Daemon → Checked
unfolding refreshed_standby is_primary_type
registered elapsed v d =
    if is_primary_type d.local.type
    then (if v.update_ok
        then refreshed_standby elapsed d v.refreshed
        else record { verdict = stays; daemon = d; log = set_active_standby ∷ [] })
    else restart_as_standby elapsed d []

-- Only a missing record ends the process: after an error the old record is used.
on_record : Option ℕ → StatusView → Daemon → RecordStatus → Checked
unfolding registered terminate
on_record elapsed v d record_not_found = record {
  verdict = terminated;
  daemon = terminate d;
  log = event "repmgrd_shutdown" false ∷ [];
}
on_record elapsed v d record_error = registered elapsed v d
on_record elapsed v d (record_found n) = registered elapsed v (record d { local = populate n })

now_standby : Option ℕ → StatusView → Daemon → Option ℤ → Checked
unfolding on_record
now_standby elapsed v d none = record { verdict = stays; daemon = d; log = [] }
now_standby elapsed v d (some primary_node_id) = on_record elapsed v d v.own_record

by_type : Option ℕ → StatusView → Daemon → RecoveryType → Checked
unfolding now_standby still_primary
by_type elapsed v d rectype_unknown = record { verdict = stays; daemon = d; log = [] }
by_type elapsed v d rectype_primary = still_primary elapsed d
by_type elapsed v d rectype_standby = now_standby elapsed v d (get_primary_connection v.candidates)

-- A query over a connection that is not open finds an unknown type.
unfoldable pub check_primary_status : Option ℕ → StatusView → Daemon → Checked
unfolding by_type
check_primary_status elapsed v d =
    by_type elapsed v d (if d.local_conn_ok then v.recovery_type else rectype_unknown)
