-- ===== src/Examples/Clusters.antt =====
-- A BDR cluster of nodes 1 and 2, and a witness.
use hg_repmgr.Base.{pos, negsuc, ℕ, Bool, true, false, List, [], ◌∷◌, none, some, ◌≡◌, refl}
use hg_repmgr.Node.{
  primary, witness, status_up, status_down, ms_normal, ms_degraded, rectype_primary,
}
use hg_repmgr.SharedState.{am_bdr_failover_handler, unknown_node_id}
use hg_repmgr.Reconnect.{try_reconnect, reconnect_loop, check_upstream_connection}
use hg_repmgr.Bdr.{
  find_next_node, BdrNode, Database, BdrView, do_bdr_failover, on_next_node, ask_next_node,
  handle_failover,
}
use hg_repmgr.Bdr.Turn.{BdrOptions, BdrTurn, bdr_lost, check_bdr_node, bdr_run}
use hg_repmgr.Bdr.Handover.{reused, sets_inactive, reappeared_forgotten, handed_over_once}
use hg_repmgr.Monitoring.Standby.{upstream_answers, UpstreamCheck}
use hg_repmgr.Monitoring.Standby.Degraded.{find_new_primary}
use hg_repmgr.Monitoring.Witness.{WitnessState, WitnessTurn}
use hg_repmgr.Monitoring.Witness.Turn.{witness_turn}
use hg_repmgr.Monitoring.Witness.Adopts.{witness_recovers}
use hg_repmgr.Election.{get_active_sibling_node_records}
use hg_repmgr.Examples.Data.{peer_at, replication_at, node, daemon_of, conn_view, shared_of}
use hg_repmgr.Examples.Failovers.{witness_view}
use hg_repmgr.Examples.Standbys.{no_answer}
use hg_repmgr.Examples.Primaries.{monitor_options}

abbrev bdr_node : ℕ → BdrNode
bdr_node id = record {
  info = record (node id primary unknown_node_id) { node_status = status_up };
  monitoring_state = ms_normal;
}

abbrev bdr_view : Bool → BdrView
bdr_view back = record {
  connects = λ i. true;
  has_record = λ i. true;
  reappears = back;
  update_ok = true;
}

abbrev database : Database
database = record { shared = shared_of (pos 2); active = λ i. some true }

abbrev bdr_nodes : List BdrNode
bdr_nodes = bdr_node 1 ∷ bdr_node 2 ∷ []

abbrev bdr_turn : Bool → BdrTurn
bdr_turn back = record {
  available = false;
  attempts = λ i. record { available = false; opens = false; original_bad = true; ping_ok = false };
  failover = bdr_view back;
  database = database;
  recovery = record {
    node_connects = false;
    local_conn_ok = true;
    local_reconnects = false;
    slot_active = λ i. false;
  };
}

abbrev bdr_options : BdrOptions
bdr_options = record { reconnect_attempts = 2; bdr_recovery_timeout = 3; local_node_id = pos 2 }

sets :
    sets_inactive (do_bdr_failover (bdr_view false) (pos 2) bdr_nodes (bdr_node 1) database).log
    ≡ true
unfolding do_bdr_failover find_next_node on_next_node ask_next_node handle_failover
    am_bdr_failover_handler
sets = refl

handed_over_once_example :
    (do_bdr_failover
      (bdr_view false)
      (pos 1)
      bdr_nodes
      (bdr_node 1)
      (do_bdr_failover (bdr_view false) (pos 2) bdr_nodes (bdr_node 1) database).database).log
    ≡ []
handed_over_once_example =
    handed_over_once (bdr_view false) (bdr_view false) (pos 2) (pos 1) bdr_nodes bdr_nodes
      (bdr_node 1) (bdr_node 1) database refl refl refl sets

reuses : reused (check_bdr_node bdr_options (bdr_turn true) bdr_nodes (bdr_node 1)).log ≡ true
unfolding check_bdr_node bdr_lost try_reconnect reconnect_loop do_bdr_failover find_next_node
    on_next_node ask_next_node handle_failover am_bdr_failover_handler
reuses = refl

reappeared_forgotten_example :
    (bdr_run bdr_options
      (bdr_turn false ∷ bdr_turn true ∷ [])
      bdr_nodes
      (check_bdr_node bdr_options (bdr_turn true) bdr_nodes (bdr_node 1)).node).log
    ≡ []
reappeared_forgotten_example =
    reappeared_forgotten bdr_options (bdr_turn true) (bdr_turn false ∷ bdr_turn true ∷ []) bdr_nodes
      (bdr_node 1) reuses

-- A witness, node 2, in degraded monitoring: node 1 is down, and node 3 is a primary now.
abbrev witness_state : WitnessState
witness_state = record {
  daemon = record (daemon_of 2) {
    upstream = record (node 1 primary (negsuc 0)) { node_status = status_down };
    monitoring_state = ms_degraded;
  };
  degraded_start = 100;
  sync_start = 90;
}

abbrev answering : Bool → UpstreamCheck
answering b = record no_answer { ping = b }

abbrev witness_turn_view : Bool → WitnessTurn
witness_turn_view back = record {
  check = answering back;
  now = 110;
  attempts = λ i. record { available = false; opens = false; original_bad = true; ping_ok = false };
  recovered_type = rectype_primary;
  notified = λ i. none;
  view = witness_view;
  later_check = answering back;
  conn_ok = true;
  later_type = rectype_primary;
  nodes = peer_at 3 true (replication_at false 900) ∷ [];
  sibling = λ id. some rectype_primary;
  conn = conn_view;
  primary_ok = true;
  update_ok = true;
  sync_now = 111;
  sync_type = rectype_primary;
}

silent : upstream_answers monitor_options no_answer ≡ false
unfolding upstream_answers check_upstream_connection
silent = refl

answers : upstream_answers monitor_options (answering true) ≡ true
unfolding upstream_answers check_upstream_connection
answers = refl

finds_3 :
    find_new_primary
      (pos 2)
      (λ id. some rectype_primary)
      (get_active_sibling_node_records
        (pos 2)
        witness_state.daemon.local.upstream_node_id
        (peer_at 3 true (replication_at false 900) ∷ []))
    ≡ some (pos 3)
unfolding find_new_primary get_active_sibling_node_records
finds_3 = refl

witness_recovers_example :
    ((witness_turn monitor_options (witness_turn_view false) witness_state).after.daemon.upstream
      ≡ node 3 primary (negsuc 0))
    × ((witness_turn monitor_options
          (witness_turn_view true)
          (witness_turn monitor_options
            (witness_turn_view false)
            witness_state).after).after.daemon.monitoring_state
        ≡ ms_normal)
witness_recovers_example =
    witness_recovers monitor_options (witness_turn_view false) (witness_turn_view true)
      witness_state (pos 3) (node 3 primary (negsuc 0)) (node 2 witness (pos 3))
      (record {
        silent = silent;
        silent_later = silent;
        found = finds_3;
        recorded = refl;
        primary = refl;
        upstream_read = refl;
        own_read = refl;
      })
      refl refl
      (record {
        answers = answers;
        answers_later = answers;
        connected = refl;
        later_primary = refl;
      })
