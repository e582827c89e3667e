-- ===== src/Examples/Memory.antt =====
-- The shared memory of node 2.
use hg_repmgr.Base.{ℤ, pos, negsuc, true, List, [], ◌∷◌, some, ◌≡◌, ◌≢◌, refl, arith}
use hg_repmgr.SharedState.{
  Shared, unknown_node_id, am_bdr_failover_handler, get_new_primary, repmgrd_is_paused,
}
use hg_repmgr.SharedState.Run.{Call, run, notify, reset, set_updated, set_node_id}
use hg_repmgr.SharedState.Mailbox.{latest, get_new_primary-run}
use hg_repmgr.SharedState.Pause.{StateFile, state_file, restarted, pause_survives_restart}
use hg_repmgr.SharedState.Handler.{System, Reach, entered, returned, handler_race}
use hg_repmgr.Examples.Data.{shared_of}

abbrev two : Shared
two = shared_of (pos 2)

abbrev calls : List Call
calls =
    notify (some (pos 3))
    ∷ reset
    ∷ set_node_id (negsuc 0, negsuc 0) (some (pos 5))
    ∷ notify (some (pos 4))
    ∷ set_updated 9
    ∷ []

known : two.local_node_id ≢ unknown_node_id
known e = ground arith

get_new_primary-run_example : get_new_primary (run two calls) ≡ latest (get_new_primary two) calls
get_new_primary-run_example = get_new_primary-run two calls known

-- A file that holds the two numbers.
abbrev pair_file : StateFile
pair_file = record {
  Contents = ℤ × ℤ;
  print = λ a b. (a, b);
  scan = λ file. file;
  scan-print = λ a b. refl;
}

pause_survives_restart_example :
    (repmgrd_is_paused
        (restarted pair_file 7 (state_file pair_file (pos 2, pos 0) true true two) (pos 2))
      ≡ true)
    × ((restarted pair_file 7
          (state_file pair_file (pos 2, pos 0) true true two)
          (pos 2)).local_node_id
        ≡ pos 2)
pause_survives_restart_example = pause_survives_restart pair_file (pos 2, pos 0) true 7 two known

told : (am_bdr_failover_handler (some (pos 2)) two).1 ≡ some true
unfolding am_bdr_failover_handler
told = refl

handler_race_example :
    (t : System) × Reach (pos 2) (pos 3) (entered two) t
    × (t.first ≡ returned true)
    × (t.second ≡ returned true)
    × (t.shared.bdr_failover_handler ≡ pos 3)
handler_race_example = handler_race (pos 2) (pos 3) two refl
