-- ===== src/Examples/Failovers.antt =====
-- Failovers of node 2.
use hg_repmgr.Base.{
  ◌↔◌, ℤ, pos, negsuc, ℕ, true, false, List, [], ◌∷◌, Option, none, some, ◌≡◌, ◌⊎◌, inl, refl,
  arith, eqb_ℤ, zero, suc,
}
use hg_repmgr.SharedState.{unknown_node_id, get_new_primary, notify_follow_primary}
use hg_repmgr.Daemon.{won, lost, promoted}
use hg_repmgr.Election.{better, visit, get_active_sibling_node_records}
use hg_repmgr.Election.Vote.{visit_all, decide, conclude, poll, with_siblings, do_election}
use hg_repmgr.Failover.{check_connection, promote_self, poll_new_primary, query_new_primary}
use hg_repmgr.Failover.Steps.{wait_primary_notification}
use hg_repmgr.Failover.Primary.{World, do_primary_failover}
use hg_repmgr.Failover.Primary.Safety.{election_of, promotes}
use hg_repmgr.Failover.Primary.Endings.{promoter}
use hg_repmgr.Failover.Waiting.{answers_from, notification_heard}
use hg_repmgr.Node.{primary, witness, rectype_primary}
use hg_repmgr.SharedState.Run.{run, set_node_id}
use hg_repmgr.Failover.Cascade.{
  CascadeView, Pair, check_primary_connection, do_upstream_standby_failover,
}
use hg_repmgr.Failover.Cascade.Upstream.{Attempts, follow_failure_reported, primary_id_taken}
use hg_repmgr.Failover.Witness.{WitnessView, do_witness_failover}
use hg_repmgr.Failover.Witness.Resumes.{Followable, do_witness_failover_iff}
use hg_repmgr.Examples.Data.{node, options, daemon_of, view_of, ahead, behind, world_of, shared_of}

abbrev pub winning : World
winning = world_of (view_of ahead ahead behind) (λ second. none)

election_won : (election_of options winning (daemon_of 2)).result ≡ won
unfolding do_election with_siblings poll conclude decide visit_all visit better
    get_active_sibling_node_records check_connection
election_won = refl

promoted_won :
    (promote_self winning.promote (promoter options winning (daemon_of 2))).state ≡ promoted
unfolding promote_self
promoted_won = refl

promotes-winning : promotes (do_primary_failover options winning (daemon_of 2)).log ≡ true
unfolding do_primary_failover do_election with_siblings poll conclude decide visit_all visit better
    get_active_sibling_node_records check_connection promote_self
promotes-winning = refl

-- Node 3 is ahead, and node 2 is told to be the primary in the third second.
abbrev asked : World
asked = world_of (view_of behind behind ahead) (answers_from 2 (shared_of (pos 2)) (pos 2))

election_lost :
    (notified : ℕ → Option ℤ)
    → (election_of options (world_of (view_of behind behind ahead) notified) (daemon_of 2)).result
      ≡ lost
unfolding do_election with_siblings poll conclude decide visit_all visit better
    get_active_sibling_node_records check_connection
election_lost notified = refl

told_asked :
    poll_new_primary options.primary_notification_timeout asked.notified 0
    ≡ some (election_of options asked (daemon_of 2)).daemon.local.node_id
unfolding poll_new_primary query_new_primary get_new_primary notify_follow_primary do_election
    with_siblings poll conclude decide visit_all visit better get_active_sibling_node_records
    check_connection
told_asked = refl

apart_asked :
    eqb_ℤ
      (election_of options asked (daemon_of 2)).daemon.local.node_id
      (election_of options asked (daemon_of 2)).daemon.upstream.node_id
    ≡ false
unfolding do_election with_siblings poll conclude decide visit_all visit better
    get_active_sibling_node_records check_connection
apart_asked = refl

promoted_asked :
    (promote_self asked.promote (promoter options asked (daemon_of 2))).state ≡ promoted
unfolding promote_self
promoted_asked = refl

abbrev left_alone : World
left_alone = world_of (view_of behind behind ahead) (λ second. some unknown_node_id)

silence : poll_new_primary options.primary_notification_timeout left_alone.notified 0 ≡ none
unfolding poll_new_primary query_new_primary
silence = refl

quiet_two : get_new_primary (shared_of (pos 2)) ≡ unknown_node_id
unfolding get_new_primary
quiet_two = refl

notification_heard_example :
    wait_primary_notification options (answers_from 2 (shared_of (pos 2)) (pos 3)) (daemon_of 2)
    ≡ (some (pos 3), daemon_of 2)
notification_heard_example =
    notification_heard options (daemon_of 2) (shared_of (pos 2)) (pos 3) 2 (ground arith) quiet_two
      (ground arith) (omega arith)

-- A sibling whose WAL receiver stops after the first second.
abbrev pids : ℕ → List ℤ
pids zero = pos 5000 ∷ []
pids (suc n) = negsuc 0 ∷ []

-- A cascaded standby, node 2, whose primary was restarted.
abbrev pub cascade : CascadeView
cascade = record {
  primary_record = some (node 1 primary (negsuc 0));
  primary_conn_ok = true;
  conn = record {
    available = false;
    reconnects = true;
    state_file = (negsuc 0, negsuc 0);
    pid = pos 4000;
    pid_file = "/run/repmgrd.pid";
  };
  primary_type = rectype_primary;
  follow_status = pos 1;
  answers_at = λ second. true;
  shared_after = shared_of (negsuc 0);
  state_file = (negsuc 0, negsuc 0);
  updated = true;
  own_record = none;
}

abbrev restarted_pair : Pair
restarted_pair = record { primary = shared_of unknown_node_id; daemon = daemon_of 2 }

Attempts-cascade : Attempts options cascade restarted_pair (node 1 primary (negsuc 0))
unfolding check_primary_connection
Attempts-cascade = record {
  automatic_failover = refl;
  known = refl;
  connected = refl;
  is_primary = refl;
}

follow_failure_reported_example :
    ((do_upstream_standby_failover options cascade restarted_pair).result ≡ true)
    × ((do_upstream_standby_failover options cascade restarted_pair).after.daemon.local
        ≡ (daemon_of 2).local)
follow_failure_reported_example =
    follow_failure_reported options cascade restarted_pair (node 1 primary (negsuc 0))
      Attempts-cascade (inl refl)

primary_id_taken_example :
    (run
      (check_primary_connection options cascade.conn true restarted_pair).1.primary
      (set_node_id (negsuc 0, negsuc 0) (some (pos 1)) ∷ [])).local_node_id
    ≡ pos 2
primary_id_taken_example =
    primary_id_taken options cascade.conn true restarted_pair
      (set_node_id (negsuc 0, negsuc 0) (some (pos 1)) ∷ []) refl (ground arith) refl refl

-- A witness that can follow any node.
abbrev pub witness_view : ℤ → WitnessView
witness_view id = record {
  new_record = true;
  new_primary = some rectype_primary;
  upstream_record = some (node 3 primary (negsuc 0));
  own_record = some (node 2 witness (pos 3));
}

do_witness_failover_iff_example :
    ((do_witness_failover options
        (answers_from 2 (shared_of (pos 2)) (pos 3))
        witness_view
        (daemon_of 2)).result
      ≡ true)
    ↔ ((id : ℤ) × (poll_new_primary options.primary_notification_timeout
            (answers_from 2 (shared_of (pos 2)) (pos 3))
            0
          ≡ some id)
        × ((id ≡ pos 1) ⊎ Followable (witness_view id)))
do_witness_failover_iff_example =
    do_witness_failover_iff options (answers_from 2 (shared_of (pos 2)) (pos 3)) witness_view
      (daemon_of 2)
