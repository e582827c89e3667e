-- ===== src/Monitoring/Witness/Turn.antt =====
-- repmgrd-physical.c `monitor_streaming_witness`: the end of a turn, and a whole turn.
use hg_repmgr.Base.{◌-◌, true, false, ◌&&◌, ◌||◌, not, [], ◌∷◌, ◌++◌, if◌then◌else◌, leb}
use hg_repmgr.Failover.{copy_node_records, check_connection, register}
use hg_repmgr.Monitoring.{
  event, set_active, set_inactive, failover_action, MonitorOptions, Flow, falls, leaves, landed,
}
use hg_repmgr.Monitoring.Witness.{
  WitnessState, WitnessPart, witness_part, with_witness_daemon, WitnessTurn, is_primary,
  witness_upstream, witness_degraded,
}

-- The local connection is down: the node is marked as inactive, once.
unfoldable pub witness_inactive : WitnessTurn → WitnessState → WitnessPart
witness_inactive v s =
    let d = s.daemon in
    if d.local.active
    then witness_part falls
        (with_witness_daemon s (record d { local = record d.local { active = false } }))
        ((if v.primary_ok then set_inactive ∷ [] else [])
          ++ event "standby_failure" (not v.primary_ok || v.update_ok) ∷ [])
    else witness_part falls s []

-- It is up after an outage: the node is marked as active, and the shared memory set again.
unfoldable pub witness_active : MonitorOptions → WitnessTurn → WitnessState → WitnessPart
witness_active mo v s =
    let d = record s.daemon { shared = register mo.failover_options v.conn s.daemon.shared } in
    if s.daemon.local.active
    then witness_part falls s []
    else if not v.primary_ok
    then witness_part falls (with_witness_daemon s d) []
    else if v.update_ok
    then witness_part falls
        (with_witness_daemon s (record d { local = record d.local { active = true } }))
        (set_active ∷ event "standby_recovery" true ∷ [])
    else witness_part falls (with_witness_daemon s d) (set_active ∷ [])

unfoldable pub witness_local : MonitorOptions → WitnessTurn → WitnessState → WitnessPart
unfolding witness_inactive witness_active
witness_local mo v s =
    let t = with_witness_daemon s (check_connection mo.failover_options v.conn s.daemon) in
    if t.daemon.local_conn_ok then witness_active mo v t else witness_inactive v t

-- The node table is copied again after the interval, if the node is still a primary.
unfoldable pub witness_sync : MonitorOptions → WitnessTurn → WitnessState → WitnessPart
witness_sync mo v s =
    if v.primary_ok && leb mo.witness_sync_interval (v.sync_now - s.sync_start)
    then (if is_primary v.sync_type
        then witness_part falls (record s { sync_start = v.sync_now })
            (failover_action copy_node_records ∷ [])
        else witness_part leaves s [])
    else witness_part falls s []

on_fall : (WitnessState → WitnessPart) → WitnessPart → Flow → WitnessPart
on_fall next p falls = record (next p.after) { log = p.log ++ (next p.after).log }
on_fall next p f = p

-- The next part, if this one falls through.
unfoldable pub then_part : (WitnessState → WitnessPart) → WitnessPart → WitnessPart
unfolding on_fall
then_part next p = on_fall next p p.flow

abbrev pub at_loop_label : WitnessPart → WitnessPart
at_loop_label p = record p { flow = landed p.flow }

unfoldable pub witness_turn : MonitorOptions → WitnessTurn → WitnessState → WitnessPart
unfolding then_part witness_local witness_sync
witness_turn mo v s = then_part (witness_sync mo v) (
    then_part (witness_local mo v)
      (at_loop_label (then_part (witness_degraded mo v) (witness_upstream mo v s))))
