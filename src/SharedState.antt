-- ===== src/SharedState.antt =====
-- repmgr.c: the shared memory that the extension keeps on a node, and the SQL functions over it.
-- `none` for the whole state is the null pointer `shared_state`; a function that returns SQL NULL
-- or VOID returns `none`.
pub mod Run
pub mod Mailbox
pub mod Pause
pub mod Handler
use hg_repmgr.Base.{
  ℤ, pos, negsuc, eqb_ℤ, ℕ, String, str_eq, Bool, true, false, Option, none, some, ◌-◌, ◌/◌,
  if◌then◌else◌, ◌==◌,
}

abbrev pub unknown_node_id : ℤ
unknown_node_id = negsuc 0

abbrev pub election_rerun_notification : ℤ
election_rerun_notification = negsuc 1

abbrev pub unknown_pid : ℤ
unknown_pid = negsuc 0

-- POSTGRES_EPOCH_JDATE, the value that marks a time which was never set.
abbrev pub postgres_epoch_jdate : ℕ
postgres_epoch_jdate = 2451545

pub data NodeVotingStatus : Type 0 where
  vs_unknown vs_no_vote vs_vote_request_received vs_vote_initiated : NodeVotingStatus

-- `repmgrdSharedState`; the lock is in the steps of `Handler`.
pub record Shared : Type 0 where
  pub last_updated : ℕ
  pub local_node_id : ℤ
  pub repmgrd_pid : ℤ
  pub repmgrd_pidfile : String
  pub repmgrd_paused : Bool
  pub upstream_last_seen : ℕ
  pub voting_status : NodeVotingStatus
  pub current_electoral_term : ℕ
  pub candidate_node_id : ℤ
  pub follow_new_primary : Bool
  pub bdr_failover_handler : ℤ

-- The fresh shared memory segment. `last_updated` is not initialised by the code: it holds what
-- the segment held.
unfoldable pub repmgr_shmem_startup : ℕ → Shared
repmgr_shmem_startup last_updated = record {
  last_updated = last_updated;
  local_node_id = unknown_node_id;
  repmgrd_pid = unknown_pid;
  repmgrd_pidfile = "";
  repmgrd_paused = false;
  upstream_last_seen = postgres_epoch_jdate;
  voting_status = vs_no_vote;
  current_electoral_term = 0;
  candidate_node_id = unknown_node_id;
  follow_new_primary = false;
  bdr_failover_handler = unknown_node_id;
}

-- The node ID is written once.
claim_local_node_id : ℤ → Shared → Shared
claim_local_node_id id s =
    if eqb_ℤ s.local_node_id unknown_node_id then record s { local_node_id = id } else s

restore_paused : ℤ → ℤ → Shared → Shared
restore_paused stored paused s =
    if eqb_ℤ stored s.local_node_id
    then (if eqb_ℤ paused (pos 0)
        then record s { repmgrd_paused = false }
        else if eqb_ℤ paused (pos 1)
        then record s { repmgrd_paused = true }
        else s)
    else s

-- `stored` and `paused` are what reading the state file left in the two variables, which start
-- at -1.
unfoldable pub set_local_node_id : ℤ × ℤ → Option ℤ → Shared → Shared
unfolding claim_local_node_id restore_paused
set_local_node_id file none s = s
set_local_node_id (stored, paused) (some id) s =
    restore_paused stored paused (claim_local_node_id id s)

unfoldable pub get_local_node_id : Shared → ℤ
get_local_node_id s = s.local_node_id

unfoldable pub standby_set_last_updated : ℕ → Shared → Shared × ℕ
standby_set_last_updated now s = (record s { last_updated = now }, now)

unfoldable pub standby_get_last_updated : Shared → ℕ
standby_get_last_updated s = s.last_updated

unfoldable pub set_upstream_last_seen : ℕ → Shared → Shared
set_upstream_last_seen now s = record s { upstream_last_seen = now }

-- Whole seconds of `TimestampDifference`, which is 0 if the clock went back; times are in
-- microseconds.
unfoldable pub get_upstream_last_seen : ℕ → Shared → ℤ
get_upstream_last_seen now s =
    if s.upstream_last_seen == postgres_epoch_jdate
    then negsuc 0
    else pos ((now - s.upstream_last_seen) / 1000000)

unfoldable pub notify_follow_primary : Option ℤ → Shared → Shared
notify_follow_primary none s = s
notify_follow_primary (some id) s =
    if eqb_ℤ s.local_node_id unknown_node_id
    then s
    else record s { candidate_node_id = id; follow_new_primary = true }

unfoldable pub get_new_primary : Shared → ℤ
get_new_primary s = if s.follow_new_primary then s.candidate_node_id else unknown_node_id

unfoldable pub reset_voting_status : Shared → Shared
reset_voting_status s = if eqb_ℤ s.local_node_id unknown_node_id then s else record s {
  voting_status = vs_no_vote;
  candidate_node_id = unknown_node_id;
  follow_new_primary = false;
}

unfoldable pub am_bdr_failover_handler : Option ℤ → Shared → Shared × Option Bool
am_bdr_failover_handler none s = (s, none)
am_bdr_failover_handler (some id) s =
    if eqb_ℤ s.bdr_failover_handler unknown_node_id
    then (record s { bdr_failover_handler = id }, some true)
    else (s, some (eqb_ℤ s.bdr_failover_handler id))

unfoldable pub unset_bdr_failover_handler : Shared → Shared
unset_bdr_failover_handler s =
    if eqb_ℤ s.local_node_id unknown_node_id
    then s
    else record s { bdr_failover_handler = unknown_node_id }

unfoldable pub get_repmgrd_pid : Shared → ℤ
get_repmgrd_pid s = s.repmgrd_pid

-- SQL NULL where no pid file is set.
unfoldable pub get_repmgrd_pidfile : Shared → Option String
get_repmgrd_pidfile s = if str_eq s.repmgrd_pidfile "" then none else some s.repmgrd_pidfile

-- The file path is kept only beside a real pid. Paths are shorter than MAXPGPATH.
pidfile_for : ℤ → Option String → String
pidfile_for pid none = ""
pidfile_for pid (some file) = if eqb_ℤ pid unknown_pid then "" else file

pid_or_unknown : Option ℤ → ℤ
pid_or_unknown none = unknown_pid
pid_or_unknown (some pid) = pid

unfoldable pub set_repmgrd_pid : Option ℤ → Option String → Shared → Shared
unfolding pidfile_for pid_or_unknown
set_repmgrd_pid pid file s = record s {
  repmgrd_pid = pid_or_unknown pid;
  repmgrd_pidfile = pidfile_for (pid_or_unknown pid) file;
}

-- `alive pid` is `kill(pid, 0) == 0`.
unfoldable pub repmgrd_is_running : (ℤ → Bool) → Shared → Bool
repmgrd_is_running alive s = if eqb_ℤ s.repmgrd_pid unknown_pid then false else alive s.repmgrd_pid

-- `opened` tells whether the state file could be opened; the second result is what is printed into
-- it as "%i:%i".
unfoldable pub repmgrd_pause : Option Bool → Bool → Shared → Shared × Option (ℤ × ℤ)
repmgrd_pause none opened s = (s, none)
repmgrd_pause (some pause) opened s = (
  record s { repmgrd_paused = pause },
  if opened then some (s.local_node_id, if pause then pos 1 else pos 0) else none,
)

unfoldable pub repmgrd_is_paused : Shared → Bool
repmgrd_is_paused s = s.repmgrd_paused
