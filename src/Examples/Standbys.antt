-- ===== src/Examples/Standbys.antt =====
-- Turns of the monitoring loop of a standby, node 2, whose upstream node is the primary, node 1.
use hg_repmgr.Base.{pos, negsuc, ℕ, Bool, true, false, [], ◌∷◌, none, some, ◌≡◌, refl}
use hg_repmgr.Node.{standby, primary, status_up, ms_normal, rectype_standby, rectype_primary}
use hg_repmgr.SharedState.{repmgrd_is_paused}
use hg_repmgr.Daemon.{reset_node_voting_status}
use hg_repmgr.Failover.{promote_self, check_connection}
use hg_repmgr.Failover.Primary.{do_primary_failover}
use hg_repmgr.Reconnect.{Round, try_reconnect, reconnect_loop, check_upstream_connection}
use hg_repmgr.Reconnect.Handles.{Store}
use hg_repmgr.Monitoring.{get_node_record, is_status_up, record_error, record_found}
use hg_repmgr.Monitoring.Deeds.{does}
use hg_repmgr.Failover.Primary.Safety.{is_promote}
use hg_repmgr.Monitoring.Standby.{
  upstream_down, upstream_lost, upstream_part, rejoin_part, StandbyState, UpstreamView,
  UpstreamCheck, upstream_answers,
}
use hg_repmgr.Monitoring.Standby.Degraded.{DegradedView}
use hg_repmgr.Monitoring.Standby.Local.{LocalView}
use hg_repmgr.Monitoring.Standby.Turn.{
  then_part, local_half, upstream_half, StandbyView, standby_turn, standby_run, with_memory,
}
use hg_repmgr.Monitoring.Standby.Start.{
  known_upstream, without_upstream, StartView, enters_degraded, standby_start,
}
use hg_repmgr.Monitoring.Standby.Causes.{Cause, promote_turn}
use hg_repmgr.Monitoring.Standby.Paused.{SeesPause, is_command, paused_turn}
use hg_repmgr.Monitoring.Standby.Stuck.{Silent}
use hg_repmgr.Monitoring.Standby.Outage.{outage_in_pause}
use hg_repmgr.Examples.Data.{node, daemon_of, conn_view, shared_of, follow_view}
use hg_repmgr.Examples.Primaries.{monitor_options}
use hg_repmgr.Examples.Failovers.{winning, cascade}
use hg_repmgr.Failover.Steps.{reconnects_within}
use hg_repmgr.Election.{visit, better, get_active_sibling_node_records}
use hg_repmgr.Election.Vote.{visit_all, decide, conclude, poll, with_siblings, do_election}

abbrev no_round : ℕ → Round
no_round i = record {
  status_ok = false;
  cancelled = false;
  free = false;
  sent = false;
  answered = false;
}

abbrev pub no_answer : UpstreamCheck
no_answer = record { ping = false; connects = false; rounds = no_round }

-- The primary is gone, and no attempt to reconnect succeeds.
abbrev upstream_view : UpstreamView
upstream_view = record {
  local_there = true;
  node_status = none;
  rejoin_status = pos 0;
  check = no_answer;
  now = 100;
  conn = conn_view;
  attempts = λ i. record { available = false; opens = false; original_bad = true; ping_ok = false };
  recovered_type = rectype_primary;
  ping_ok = true;
  answers_at = λ i. true;
  world = winning;
  cascade = cascade;
}

abbrev degraded_view : DegradedView
degraded_view = record {
  now = 100;
  check = no_answer;
  conn_ok = false;
  local_type = rectype_standby;
  own_record = record_error;
  own_refreshed = record_error;
  nodes = winning.election.nodes;
  sibling = λ id. some rectype_standby;
  follow = λ id. follow_view;
}

abbrev local_view : LocalView
local_view = record {
  conn = conn_view;
  primary_ok = false;
  update_ok = true;
  primary_type = rectype_primary;
  after_outage = record_error;
  refreshed = record_error;
  on_primary = record_error;
}

-- `paused` is what the turn finds in the shared memory.
abbrev turn_with : Bool → StandbyView
turn_with paused = record {
  memory = λ m. record m { repmgrd_paused = paused };
  options = monitor_options;
  upstream = upstream_view;
  degraded = degraded_view;
  local = local_view;
}

abbrev standby_state : StandbyState
standby_state = record {
  daemon = record (daemon_of 2) {
    upstream = record (node 1 primary (negsuc 0)) { node_status = status_up };
  };
  primary_shared = shared_of (pos 1);
  degraded_start = 0;
  local_monitoring_state = ms_normal;
  last_known_upstream_node_id = pos 1;
  failed_connect_times = 0;
}

promotes_unpaused : does is_promote (standby_turn (turn_with false) standby_state).log ≡ true
unfolding standby_turn upstream_half local_half then_part rejoin_part upstream_part upstream_answers
    check_upstream_connection upstream_lost upstream_down try_reconnect reconnect_loop
    check_connection do_primary_failover do_election with_siblings poll conclude decide visit_all
    visit better get_active_sibling_node_records promote_self repmgrd_is_paused
promotes_unpaused = refl

promote_turn_example :
    Cause monitor_options upstream_view (with_memory (turn_with false) standby_state).daemon
promote_turn_example = promote_turn (turn_with false) standby_state promotes_unpaused

sees_pause : SeesPause (with_memory (turn_with true) standby_state).daemon
unfolding repmgrd_is_paused
sees_pause = (refl, refl)

paused_turn_example : does is_command (standby_turn (turn_with true) standby_state).log ≡ false
paused_turn_example = paused_turn (turn_with true) standby_state sees_pause

silent : (paused : Bool) → Silent (turn_with paused)
unfolding upstream_answers check_upstream_connection
silent paused = record {
  silent = refl;
  silent_later = refl;
  not_promoted = refl;
  no_sibling = λ id. refl;
}

stays_down : is_status_up (try_reconnect 3 upstream_view.attempts).node_status ≡ false
unfolding try_reconnect reconnect_loop
stays_down = refl

-- The pause ends after the first turn.
outage_in_pause_example :
    does is_command
      (standby_run (turn_with true ∷ turn_with false ∷ turn_with false ∷ []) standby_state).log
    ≡ false
outage_in_pause_example =
    outage_in_pause is_command (turn_with true) (turn_with false ∷ turn_with false ∷ [])
      standby_state (silent true, (silent false, (silent false, tt))) sees_pause refl stays_down

-- The upstream node of node 2 is the standby 3, which does not come up.
abbrev start_view : StartView
start_view = record {
  candidates = none;
  upstream_record = record_found (node 3 standby (pos 1));
  connects = false;
  connects_later = λ i. false;
  own_record = record_error;
  upstream_on_upstream = record_error;
  primary_connects = false;
  update_ok = false;
  startup_event_logged = false;
}

starts_degraded : (standby_start monitor_options start_view standby_state).entry ≡ enters_degraded
unfolding get_node_record standby_start reconnects_within without_upstream known_upstream
    reset_node_voting_status
starts_degraded = refl

abbrev store : Store
store = record { upstream_conn = some 4; primary_conn = none; finished = []; opened = 5 }
