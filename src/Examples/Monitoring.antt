-- ===== src/Examples/Monitoring.antt =====
-- Reconnection, and the switch of a primary between its replication modes.
use hg_repmgr.Base.{ℕ, true, false, ◌||◌, List, [], ◌∷◌, some, ◌≡◌, refl, arith, codes, ltb}
use hg_repmgr.Node.{status_up, rectype_standby}
use hg_repmgr.SyncMode.{Check}
use hg_repmgr.SyncMode.Switch.{started, hashes_of, run_checks, run_checks-hashes}
use hg_repmgr.Reconnect.{Attempt, try_reconnect, check_query, Round, check_upstream_connection}
use hg_repmgr.Reconnect.Attempts.{try_reconnect_up, is_usable, check_upstream_connection-two}

-- No standby for 40 seconds, then one that has caught up.
abbrev gone_at : ℕ → Check
gone_at now = record {
  records = 0;
  sync_names = codes "FIRST 1 (s1)";
  now = now;
  primary_lsn = 900;
  nodes = [];
}

abbrev back : Check
back = record {
  records = 1;
  sync_names = [];
  now = 60;
  primary_lsn = 900;
  nodes = record { recovery_type = rectype_standby; last_wal_receive_lsn = 800 } ∷ [];
}

abbrev checks : List Check
checks = gone_at 0 ∷ gone_at 20 ∷ gone_at 40 ∷ []

run_checks-hashes_example :
    (run_checks started 0 checks).1 ≡ hashes_of (run_checks started 0 checks).0.switch_async_mode
run_checks-hashes_example = run_checks-hashes started 0 checks refl

-- The server is back at the third attempt.
abbrev attempt_at : ℕ → Attempt
attempt_at i = record { available = ltb 1 i; opens = true; original_bad = true; ping_ok = false }

try_reconnect_up_example :
    ((try_reconnect 6 attempt_at).node_status ≡ status_up)
    × ((try_reconnect 6 attempt_at).sleeps ≡ 2)
try_reconnect_up_example =
    try_reconnect_up 6 attempt_at 2 (omega arith, omega arith, refl, λ j p q. ground arith)

-- A connection that was lost, and is good after it is made again.
abbrev round_at : ℕ → Round
round_at i = record {
  status_ok = ltb 0 i;
  cancelled = true;
  free = true;
  sent = true;
  answered = true;
}

check_upstream_connection-two_example :
    check_upstream_connection 2 check_query false false round_at
    ≡ some (is_usable (round_at 0) || is_usable (round_at 1))
check_upstream_connection-two_example = check_upstream_connection-two 0 false false round_at
