-- ===== src/SharedState/Run.antt =====
-- repmgr.c: the calls of the SQL functions that change the shared memory, one after another.
use hg_repmgr.Base.{ℤ, ℕ, String, Bool, Option, List, [], ◌∷◌}
use hg_repmgr.SharedState.{
  Shared, set_local_node_id, standby_set_last_updated, set_upstream_last_seen,
  notify_follow_primary, reset_voting_status, am_bdr_failover_handler, unset_bdr_failover_handler,
  set_repmgrd_pid, repmgrd_pause,
}

-- A call with its arguments, and what it reads from the clock or the file system.
pub data Call : Type 0 where
  set_node_id : ℤ × ℤ → Option ℤ → Call
  set_updated : ℕ → Call
  set_seen : ℕ → Call
  notify : Option ℤ → Call
  reset : Call
  ask_handler : Option ℤ → Call
  unset_handler : Call
  set_pid : Option ℤ → Option String → Call
  pause : Option Bool → Bool → Call

unfoldable pub step : Shared → Call → Shared
unfolding set_local_node_id standby_set_last_updated set_upstream_last_seen notify_follow_primary
    reset_voting_status am_bdr_failover_handler unset_bdr_failover_handler set_repmgrd_pid
    repmgrd_pause
step s (set_node_id file id) = set_local_node_id file id s
step s (set_updated now) = (standby_set_last_updated now s).0
step s (set_seen now) = set_upstream_last_seen now s
step s (notify id) = notify_follow_primary id s
step s reset = reset_voting_status s
step s (ask_handler id) = (am_bdr_failover_handler id s).0
step s unset_handler = unset_bdr_failover_handler s
step s (set_pid pid file) = set_repmgrd_pid pid file s
step s (pause flag opened) = (repmgrd_pause flag opened s).0

unfoldable pub run : Shared → List Call → Shared
run s [] = s
run s (c ∷ cs) = run (step s c) cs
