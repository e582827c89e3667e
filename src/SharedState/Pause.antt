-- ===== src/SharedState/Pause.antt =====
-- repmgr.c: `repmgrd_pause` writes a state file, and `set_local_node_id` reads it after a restart.
use hg_repmgr.Base.{ℤ, ℕ, Bool, true, false, some, ◌≡◌, ◌≢◌, arith, Option, none}
use hg_repmgr.SharedState.{
  Shared, unknown_node_id, repmgr_shmem_startup, set_local_node_id, repmgrd_pause,
  repmgrd_is_paused,
}

-- The C library's printing and scanning with "%i:%i". `scan` gives what it leaves in two variables
-- that start at -1; of a text that `print` made it reads both numbers back.
pub record StateFile : Type 1 where
  pub Contents : Type 0
  pub print : ℤ → ℤ → Contents
  pub scan : Contents → ℤ × ℤ
  pub scan-print : (a b : ℤ) → scan (print a b) ≡ (a, b)

module _ (F : StateFile) where
  open F use {Contents, print, scan, scan-print}

  -- What stands in the file after a call that printed `o`, over what stood there before.
  abbrev pub written : Contents → Option (ℤ × ℤ) → Contents
  written old none = old
  written old (some (id, paused)) = print id paused

  -- The file that `repmgrd_pause` leaves.
  pub state_file : Contents → Bool → Bool → Shared → Contents
  state_file old flag opened s = written old (repmgrd_pause (some flag) opened s).1

  -- The state after a server restart and the first call of `set_local_node_id`.
  pub restarted : ℕ → Contents → ℤ → Shared
  restarted garbage file id = set_local_node_id (scan file) (some id) (repmgr_shmem_startup garbage)

  -- If a node whose ID is set is paused or unpaused and the state file can be written, then after a
  -- restart of the server under the same node ID it is paused exactly if it was, and has its ID.
  pub pause_survives_restart :
      (old : Contents) (flag : Bool) (garbage : ℕ) (s : Shared)
      → s.local_node_id ≢ unknown_node_id
      → (repmgrd_is_paused (restarted garbage (state_file old flag true s) s.local_node_id) ≡ flag)
        × ((restarted garbage (state_file old flag true s) s.local_node_id).local_node_id
            ≡ s.local_node_id)
  unfolding restarted state_file repmgrd_pause set_local_node_id repmgr_shmem_startup
      repmgrd_is_paused
  pause_survives_restart old true garbage s h = rw scan-print (ground arith, ground arith)
  pause_survives_restart old false garbage s h = rw scan-print (ground arith, ground arith)

  -- A pause that is requested before the local node ID is set, and is written to the state file, is
  -- forgotten at the restart, under whatever node ID (other than the unknown one) repmgrd then
  -- starts.
  pub early_pause_lost :
      (old : Contents) (garbage : ℕ) (s : Shared) (id : ℤ)
      → s.local_node_id ≡ unknown_node_id
      → id ≢ unknown_node_id
      → repmgrd_is_paused (restarted garbage (state_file old true true s) id) ≡ false
  unfolding restarted state_file repmgrd_pause set_local_node_id repmgr_shmem_startup
      repmgrd_is_paused
  early_pause_lost old garbage s id h k = rw scan-print (ground arith)
