-- ===== src/Monitoring/Standby/Start.antt =====
-- repmgrd-physical.c `monitor_streaming_standby`: what comes before the loop.
pub mod Entries
use hg_repmgr.Base.{
  ℤ, ℕ, zero, suc, ◌*◌, Bool, true, false, ◌&&◌, not, List, [], ◌∷◌, ◌++◌, Option, none, some,
  if◌then◌else◌, eqb_ℤ,
}
use hg_repmgr.Node.{NodeInfo, status_up, status_down, ms_normal, ms_degraded}
use hg_repmgr.SharedState.{unknown_node_id}
use hg_repmgr.Daemon.{Daemon, reset_node_voting_status}
use hg_repmgr.Failover.Steps.{reconnects_within}
use hg_repmgr.Monitoring.{
  Deed, event, set_active, ExitCode, err_bad_config, err_db_conn, MonitorOptions, RecordStatus,
  record_found, get_node_record, terminate, Candidate, get_primary_connection,
}
use hg_repmgr.Monitoring.Standby.{StandbyState, with_daemon, with_upstream_status, is_standby_type}

-- What the start finds: the nodes that could be the primary; the upstream node's record as the
-- local node has it, and as the upstream node has it; whether the upstream node is connected at
-- once, or at one of the attempts every ten seconds; the local record there; whether the primary
-- above a standby is connected; whether the local record could be changed; and whether a start was
-- logged before.
pub record StartView : Type 0 where
  pub candidates : Option (List Candidate)
  pub upstream_record : RecordStatus
  pub connects : Bool
  pub connects_later : ℕ → Bool
  pub own_record : RecordStatus
  pub upstream_on_upstream : RecordStatus
  pub primary_connects : Bool
  pub update_ok : Bool
  pub startup_event_logged : Bool

-- Where the start leads: into the loop, to the label in the middle of it, back, or to the end of
-- the process.
pub data Entry : Type 0 where
  enters_loop enters_degraded returns : Entry
  dies : ExitCode → Entry

pub record Started : Type 0 where
  pub entry : Entry
  pub after : StandbyState
  pub log : List Deed

abbrev pub started : Entry → StandbyState → List Deed → Started
started e s log = record { entry = e; after = s; log = log }

abbrev pub start_dies : ExitCode → StandbyState → Started
start_dies c s = started (dies c) (with_daemon s (terminate s.daemon)) []

-- The node was not marked as active.
unfoldable pub activate : StartView → StandbyState → StandbyState × List Deed
activate v s =
    let d = s.daemon in
    if d.local.active
    then (s, [])
    else if v.update_ok
    then (with_daemon s (record d { local = record d.local { active = true } }), set_active ∷ [])
    else (s, set_active ∷ [])

enter : StartView → StandbyState → Started
unfolding activate
enter v s =
    let (t, log) = activate v s in
    started enters_loop
      (with_daemon t
        (with_upstream_status status_up (record t.daemon { monitoring_state = ms_normal })))
      (log ++ (if v.startup_event_logged then [] else event "repmgrd_start" true ∷ []))

-- The upstream node is connected: both records are read from it.
unfoldable pub with_upstream : StartView → StandbyState → Started
unfolding enter
with_upstream v s =
    let d = record s.daemon { local = get_node_record v.own_record s.daemon.local } in
    let t = record s {
      daemon = record d { upstream = get_node_record v.upstream_on_upstream d.upstream };
      last_known_upstream_node_id = d.local.upstream_node_id;
    } in
    if eqb_ℤ d.upstream.node_id d.local.node_id
    then started returns (with_daemon s d) []
    else if is_standby_type t.daemon.upstream.type && not v.primary_connects
    then start_dies err_db_conn t
    else enter v t

-- The upstream node could not be connected for the whole time.
unfoldable pub without_upstream : StandbyState → Started
without_upstream s =
    let d = s.daemon in
    let t = record s { last_known_upstream_node_id = d.local.upstream_node_id } in
    if is_standby_type d.upstream.type
    then started enters_degraded
        (with_daemon t
          (with_upstream_status status_down (record d { monitoring_state = ms_degraded })))
        []
    else started enters_loop
        (with_daemon t (with_upstream_status status_up (record d { monitoring_state = ms_normal })))
        []

-- The local record names its upstream node.
unfoldable pub known_upstream : MonitorOptions → StartView → StandbyState → RecordStatus → Started
unfolding with_upstream without_upstream
known_upstream mo v s (record_found n) =
    let t =
      with_daemon s
        (record s.daemon { upstream = get_node_record (record_found n) s.daemon.upstream }) in
    if v.connects
    then with_upstream v t
    else if reconnects_within (mo.standby_wait_timeout * 6) v.connects_later 0
    then with_upstream v t
    else without_upstream t
known_upstream mo v s _ = start_dies err_db_conn s

-- It does not: the primary is taken.
unfoldable pub unknown_upstream : StartView → StandbyState → Option ℤ → Started
unfolding with_upstream
unknown_upstream v s none = start_dies err_bad_config s
unknown_upstream v s (some id) =
    let d = record s.daemon { local = record s.daemon.local { upstream_node_id = id } } in
    let t = with_daemon s (record d { upstream = get_node_record v.upstream_record d.upstream }) in
    if v.connects then with_upstream v t else start_dies err_db_conn t

unfoldable pub standby_start : MonitorOptions → StartView → StandbyState → Started
unfolding known_upstream unknown_upstream
standby_start mo v s =
    let t = with_daemon s (reset_node_voting_status s.daemon) in
    if eqb_ℤ t.daemon.local.upstream_node_id unknown_node_id
    then unknown_upstream v t (get_primary_connection v.candidates)
    else known_upstream mo v t v.upstream_record
