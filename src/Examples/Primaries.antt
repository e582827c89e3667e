-- ===== src/Examples/Primaries.antt =====
-- Turns of the monitoring loop of a primary.
use hg_repmgr.Base.{
  pos, negsuc, ℕ, Bool, true, false, List, [], ◌∷◌, none, some, ◌≡◌, ◌⊎◌, ◌↔◌, refl, arith, ltb,
}
use hg_repmgr.Node.{NodeInfo, primary, status_up, rectype_primary}
use hg_repmgr.Failover.{check_connection}
use hg_repmgr.BrainSplit.{do_nothing, check_bs, Other, count_primaries, find_primary}
use hg_repmgr.BrainSplit.Duel.{Faces, Prevails}
use hg_repmgr.Reconnect.{check_ping, reconnect_loop, try_reconnect}
use hg_repmgr.SyncMode.Switch.{started}
use hg_repmgr.SyncMode.{check_sync_async, Check}
use hg_repmgr.Monitoring.{record_error, MonitorOptions, is_degraded}
use hg_repmgr.Monitoring.Rejoin.{
  finish_check, calm, check_disk, exec_node_rejoin_primary, Touch, RejoinView, touch_loop,
  check_network_card_status,
}
use hg_repmgr.Monitoring.Rejoin.Disk.{IsClear, Works, check_disk_iff}
use hg_repmgr.Monitoring.Status.{check_primary_status, StatusView}
use hg_repmgr.Monitoring.Primary.{
  then_part, status_part, brain_split_part, degraded_part, sync_part, isolate, reconnect_local,
  local_settled, is_lost, respond, probe_local, PrimaryState, PrimaryView, primary_run,
  primary_turn, check_local, local_lost,
}
use hg_repmgr.Monitoring.Primary.Isolation.{isolated, primary_run-isolated}
use hg_repmgr.Monitoring.Primary.Healthy.{Healthy, Checks, Stands, GivesWay, brain_split_turns}
use hg_repmgr.Examples.Data.{node, options, daemon_of, conn_view}
use hg_repmgr.Examples.Checks.{primary_at}

abbrev pub monitor_options : MonitorOptions
monitor_options = record {
  failover_options = options;
  reconnect_attempts = 3;
  degraded_monitoring_timeout = pos 60;
  device_check_times = 3;
  check_brain_split = true;
  standby_wait_timeout = 1;
  connection_check_type = check_ping;
  witness_sync_interval = 15;
}

-- The second touch succeeds.
abbrev touches : ℕ → Touch
touches i = record { succeeds = ltb 0 i; alarmed = false }

check_disk_iff_example :
    (((check_disk 3 touches false calm).kills ≡ false) ↔ (IsClear false calm × Works 3 touches 0))
    × ((check_disk 3 touches false calm).alarm.touch_label ≡ false)
    × ((check_disk 3 touches false calm).kills ≡ false
        → (check_disk 3 touches false calm).alarm ≡ calm)
check_disk_iff_example = check_disk_iff 3 touches false calm

abbrev status_view : StatusView
status_view = record {
  recovery_type = rectype_primary;
  candidates = none;
  own_record = record_error;
  update_ok = true;
  refreshed = record_error;
}

abbrev rejoin_view : RejoinView
rejoin_view = record { node_status = none; nodes = pos 1 ∷ pos 2 ∷ []; rejoin_status = λ id. id }

abbrev sync_check : Check
sync_check = record { records = 1; sync_names = []; now = 0; primary_lsn = 900; nodes = [] }

-- A turn that finds the given nodes; no attempt to reconnect succeeds.
abbrev view_of : Bool → ℕ → List Other → PrimaryView
view_of there tli others = record {
  conn = record conn_view { available = there; reconnects = there };
  late_alarm = false;
  touches = touches;
  card = some "eth0";
  carrier = some (pos b'1');
  attempts = λ i. record { available = false; opens = false; original_bad = true; ping_ok = false };
  after_reconnect = status_view;
  lost_at = 100;
  rejoin = rejoin_view;
  sync = sync_check;
  now = 110;
  back = false;
  back_opens = false;
  after_degraded = status_view;
  at_loop = status_view;
  answers = true;
  local_timeline = tli;
  others = others;
  split_at = 120;
  split_rejoin = rejoin_view;
}

abbrev up_node : ℕ → NodeInfo
up_node id = record (node id primary (negsuc 0)) { node_status = status_up }

abbrev primary_state : ℕ → PrimaryState
primary_state id = record {
  daemon = record (daemon_of id) { local = up_node id };
  mode = started;
  degraded_start = 0;
  disk_alarm = calm;
}

-- The server goes away in the second turn.
abbrev views : List (MonitorOptions × PrimaryView)
views = (monitor_options, view_of true 4 []) ∷ (monitor_options, view_of false 4 []) ∷ []

ends_degraded : is_degraded (primary_run views (primary_state 1)).0.daemon.monitoring_state ≡ true
unfolding primary_run primary_turn check_local probe_local respond is_lost local_lost local_settled
    reconnect_local isolate sync_part degraded_part brain_split_part status_part then_part
    check_connection check_disk finish_check touch_loop check_network_card_status try_reconnect
    reconnect_loop check_primary_status check_sync_async check_bs count_primaries
    exec_node_rejoin_primary
ends_degraded = refl

primary_run-isolated_example : isolated (primary_run views (primary_state 1)).1 ≡ true
primary_run-isolated_example = primary_run-isolated views (primary_state 1) refl ends_degraded

abbrev both : List Other
both = primary_at 1 4 ∷ primary_at 2 5 ∷ []

card_up : check_network_card_status true (some "eth0") (some (pos b'1')) ≡ true
unfolding check_network_card_status
card_up = refl

disk_works : (check_disk 3 touches false calm).kills ≡ false
unfolding check_disk finish_check touch_loop
disk_works = refl

healthy :
    (id tli : ℕ) (others : List Other)
    → Healthy monitor_options (view_of true tli others) (primary_state id)
healthy id tli others = record {
  connected = refl;
  available = refl;
  disk = disk_works;
  card = card_up;
  is_primary = refl;
}

finds_none : check_bs (up_node 1) 4 [] ≡ do_nothing
unfolding check_bs count_primaries
finds_none = refl

checks :
    (id tli : ℕ) (others : List Other)
    → Checks monitor_options (view_of true tli others) (primary_state id)
checks id tli others = record { up = refl; asks = refl; answers = refl }

Faces-two : Faces (up_node 1) both (up_node 2) 5
unfolding count_primaries find_primary
Faces-two = record {
  other = primary_at 2 5;
  system = record { system_identifier = 77; timeline = 5 };
  finds = record { counted = refl; searched = refl; answers = refl; identified = refl };
  same_id = refl;
  same_priority = refl;
  same_tli = refl;
}

Faces-one : Faces (up_node 2) both (up_node 1) 4
unfolding count_primaries find_primary
Faces-one = record {
  other = primary_at 1 4;
  system = record { system_identifier = 77; timeline = 4 };
  finds = record { counted = refl; searched = refl; answers = refl; identified = refl };
  same_id = refl;
  same_priority = refl;
  same_tli = refl;
}

brain_split_turns_example :
    Stands monitor_options (view_of true 4 both) (primary_state 1)
      × GivesWay monitor_options (view_of true 5 both) (primary_state 2)
      × Prevails (up_node 1) 4 (up_node 2) 5
    ⊎ GivesWay monitor_options (view_of true 4 both) (primary_state 1)
      × Stands monitor_options (view_of true 5 both) (primary_state 2)
      × Prevails (up_node 2) 5 (up_node 1) 4
brain_split_turns_example =
    brain_split_turns monitor_options monitor_options (view_of true 4 both) (view_of true 5 both)
      (primary_state 1) (primary_state 2) (healthy 1 4 both) (healthy 2 5 both) refl refl
      (checks 1 4 both) (checks 2 5 both) Faces-two Faces-one (ground arith)
