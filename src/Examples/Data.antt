-- ===== src/Examples/Data.antt =====
-- Nodes, views and states for the examples.
use hg_repmgr.Base.{
  ◌≡◌, refl, arith, ℤ, pos, negsuc, ℕ, Bool, true, false, [], ◌∷◌, Option, none, some, codes,
}
use hg_repmgr.Node.{
  NodeInfo, ReplInfo, ServerType, primary, standby, status_unknown, ms_normal, invalid_lsn,
}
use hg_repmgr.SharedState.{Shared, vs_no_vote, postgres_epoch_jdate}
use hg_repmgr.Follow.{Target, LocalSystem, Scan, three_fields}
use hg_repmgr.Daemon.{Options, Daemon, automatic, state_none}
use hg_repmgr.Election.{Peer, View}
use hg_repmgr.Election.Loop.{IsRival}
use hg_repmgr.Failover.{ConnView, PromoteView}
use hg_repmgr.Failover.Steps.{FollowView}
use hg_repmgr.Failover.Primary.{World}

abbrev pub node : ℕ → ServerType → ℤ → NodeInfo
node id type upstream = record {
  node_id = pos id;
  upstream_node_id = upstream;
  type = type;
  node_name = "node";
  location = "default";
  priority = pos 100;
  active = true;
  last_wal_receive_lsn = invalid_lsn;
  node_status = status_unknown;
}

abbrev pub replication_at : Bool → ℕ → ReplInfo
replication_at in_recovery lsn = record {
  in_recovery = in_recovery;
  last_wal_receive_lsn = lsn;
  last_wal_replay_lsn = lsn;
  wal_replay_paused = false;
  upstream_last_seen = pos 60;
}

abbrev pub no_scan : Scan
no_scan = record { file_tli = 7; switchpoint_hi = 7; switchpoint_lo = 7 }

-- A server on timeline 2, which left timeline 1 at 0/300.
abbrev pub forked : Target
forked = record {
  repl_conn_ok = true;
  identification = some (record { system_identifier = 77; timeline = 2 });
  current_lsn = 900;
  history = some (three_fields 1 0 300 ∷ []);
  garbage = no_scan;
}

abbrev pub local_system : LocalSystem
local_system = record {
  repl_conn_ok = true;
  identification = some (record { system_identifier = 77; timeline = 1 });
}

abbrev pub peer_at : ℕ → Bool → ReplInfo → Peer
peer_at id reachable r = record {
  info = node id standby (pos 1);
  reachable = reachable;
  repmgrd_pid = pos 4000;
  replication = some r;
  target = forked;
}

-- A sibling that is up counts as a rival.
pub rival_at : (id : ℕ) (r : ReplInfo) → r.in_recovery ≡ true → IsRival (peer_at id true r) r
rival_at id r h = record {
  connects = refl;
  runs = ground arith;
  reports = refl;
  recovers = h;
  stores = λ e. cc;
  eligible = ground arith;
}

abbrev pub failed : Peer
failed = record {
  info = node 1 primary (negsuc 0);
  reachable = false;
  repmgrd_pid = negsuc 0;
  replication = none;
  target = forked;
}

-- The table as a standby at `own` sees it, with the replication that nodes 2 and 3 report to it.
abbrev pub view_of : ReplInfo → ReplInfo → ReplInfo → View
view_of own second third = record {
  electoral_term = pos 1;
  nodes = failed ∷ peer_at 2 true second ∷ peer_at 3 true third ∷ [];
  replication = some own;
  resumed = false;
  system = local_system;
  run_command = λ command. pos 0;
}

abbrev pub ahead : ReplInfo
ahead = replication_at true 200

abbrev pub behind : ReplInfo
behind = replication_at true 100

abbrev pub options : Options
options = record {
  node_id = pos 2;
  failover = automatic;
  monitor_interval_secs = pos 2;
  primary_visibility_consensus = true;
  failover_validation_command = [];
  primary_notification_timeout = 5;
  sibling_nodes_disconnect_timeout = 30;
  follow_command = codes "follow %n";
  repmgrd_standby_startup_timeout = 3;
  standby_disconnect_on_failover = true;
  virtual_ip = codes "10.0.0.9";
  network_card = codes "eth0";
}

abbrev pub shared_of : ℤ → Shared
shared_of id = record {
  last_updated = 0;
  local_node_id = id;
  repmgrd_pid = pos 4000;
  repmgrd_pidfile = "/run/repmgrd.pid";
  repmgrd_paused = false;
  upstream_last_seen = postgres_epoch_jdate;
  voting_status = vs_no_vote;
  current_electoral_term = 0;
  candidate_node_id = negsuc 0;
  follow_new_primary = false;
  bdr_failover_handler = negsuc 0;
}

abbrev pub daemon_of : ℕ → Daemon
daemon_of id = record {
  local = node id standby (pos 1);
  upstream = node 1 primary (negsuc 0);
  monitoring_state = ms_normal;
  failover_state = state_none;
  local_conn_ok = true;
  shared = shared_of (pos id);
}

abbrev pub conn_view : ConnView
conn_view = record {
  available = true;
  reconnects = true;
  state_file = (negsuc 0, negsuc 0);
  pid = pos 4000;
  pid_file = "/run/repmgrd.pid";
}

abbrev pub promote_view : PromoteView
promote_view = record {
  failed_primary = some (pos 1);
  promote_status = pos 0;
  conn_kept = true;
  conn_restored = true;
  primary_reached = none;
  own_record = some (node 2 primary (negsuc 0));
}

abbrev pub follow_view : FollowView
follow_view = record {
  new_record = true;
  failed_record = true;
  new_primary = none;
  follow_status = pos 0;
  old_primary = none;
  upstream_record = none;
  own_record = none;
  answers_at = λ second. true;
  shared_after = shared_of (negsuc 0);
  state_file = (negsuc 0, negsuc 0);
  pid = pos 4000;
  pid_file = "/run/repmgrd.pid";
}

-- Node 2's failover, with what it sees in the election and the notifications that it gets.
abbrev pub world_of : View → (ℕ → Option ℤ) → World
world_of view notified = record {
  conn = conn_view;
  version_ok = true;
  election = view;
  promote = promote_view;
  follow = follow_view;
  notified = notified;
  later_nodes = view.nodes;
  reconnects = λ id. true;
  has_new_record = false;
}
