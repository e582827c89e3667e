-- ===== src/Failover/Cascade.antt =====
-- repmgrd-physical.c `do_upstream_standby_failover`: a cascaded standby whose upstream, another
-- standby, is gone, and `check_connection` of the primary, which that failover calls.
pub mod Upstream
use hg_repmgr.Base.{
  ℤ, pos, ℕ, Bool, true, false, ◌&&◌, not, List, [], ◌∷◌, ◌++◌, Option, none, some, if◌then◌else◌,
  eqb_ℤ,
}
use hg_repmgr.Node.{NodeInfo, RecoveryType, rectype_primary}
use hg_repmgr.SharedState.{
  unknown_node_id, Shared, get_local_node_id, set_local_node_id, set_repmgrd_pid,
}
use hg_repmgr.Template.{parse_follow_command}
use hg_repmgr.Daemon.{
  Options, Daemon, FailoverMode, manual, automatic, FailoverState, state_none, follow_fail, degrade,
}
use hg_repmgr.Failover.{
  Action, run_follow_command, event_follow_failed, event_failover_follow, update_upstream_record,
  ConnView,
}
use hg_repmgr.Failover.Steps.{reconnects_within}

-- What the failover finds: the primary's record, whether the connection to it is up before the
-- check, what the check finds, the primary's recovery type, the follow command's exit status, when
-- the local node answers, its shared memory then, whether its record could be changed, and the
-- record after it.
pub record CascadeView : Type 0 where
  pub primary_record : Option NodeInfo
  pub primary_conn_ok : Bool
  pub conn : ConnView
  pub primary_type : RecoveryType
  pub follow_status : ℤ
  pub answers_at : ℕ → Bool
  pub shared_after : Shared
  pub state_file : ℤ × ℤ
  pub updated : Bool
  pub own_record : Option NodeInfo

-- The primary's shared memory beside the process' own variables.
pub record Pair : Type 0 where
  pub primary : Shared
  pub daemon : Daemon

-- A connection that is made again: the node ID is set in the primary's memory, the pid in the local
-- one.
register_primary : Options → ConnView → Pair → Pair
register_primary opts v p =
    if eqb_ℤ (get_local_node_id p.primary) unknown_node_id
    then record {
      primary = set_local_node_id v.state_file (some opts.node_id) p.primary;
      daemon = record p.daemon {
        shared = set_repmgrd_pid (some v.pid) (some v.pid_file) p.daemon.shared;
      };
    }
    else p

-- `check_connection` of the primary: is it up after the check?
unfoldable pub check_primary_connection : Options → ConnView → Bool → Pair → Bool × Pair
unfolding register_primary
check_primary_connection opts v conn_ok p =
    if conn_ok && v.available
    then (true, p)
    else if v.reconnects
    then (true, register_primary opts v p)
    else (false, p)

-- The end: the result, the variables, the log, and whether the process ends with ERR_BAD_CONFIG.
pub record Cascaded : Type 0 where
  pub result : Bool
  pub after : Pair
  pub log : List Action
  pub terminated : Bool

abbrev pub cascaded : Bool → Pair → List Action → Cascaded
cascaded result p log = record { result = result; after = p; log = log; terminated = false }

-- A failover state that is returned as a `bool`: only FAILOVER_STATE_NONE is 0.
abbrev pub as_bool : FailoverState → Bool
as_bool state_none = false
as_bool _ = true

abbrev pub with_daemon : Pair → Daemon → Pair
with_daemon p d = record p { daemon = d }

own_or_primary : Option NodeInfo → ℤ → NodeInfo → NodeInfo
own_or_primary none primary_id n = record n { upstream_node_id = primary_id }
own_or_primary (some own) primary_id n = own

-- After a follow command that succeeded.
record_upstream : CascadeView → ℤ → Pair → List Action → Cascaded
unfolding own_or_primary
record_upstream v primary_id p log =
    if v.updated
    then cascaded true
        (with_daemon p
          (record p.daemon { local = own_or_primary v.own_record primary_id p.daemon.local }))
        (log ++ update_upstream_record ∷ event_failover_follow ∷ [])
    else record {
      result = false;
      after = p;
      log = log ++ update_upstream_record ∷ event_follow_failed ∷ [];
      terminated = true;
    }

-- After the follow command: the local node is polled, and its shared memory set again.
rejoin_local : Options → CascadeView → ℤ → Pair → List Action → Cascaded
unfolding record_upstream
rejoin_local opts v primary_id p log =
    let d = record p.daemon {
      local_conn_ok = true;
      shared =
          set_repmgrd_pid (some v.conn.pid) (some v.conn.pid_file)
            (set_local_node_id v.state_file (some opts.node_id) v.shared_after);
    } in
    if not (reconnects_within opts.repmgrd_standby_startup_timeout v.answers_at 0)
    then cascaded (as_bool follow_fail) p log
    else if not (eqb_ℤ v.follow_status (pos 0))
    then cascaded (as_bool follow_fail) (with_daemon p (degrade d)) log
    else record_upstream v primary_id (with_daemon p d) log

-- With a connection to the primary: the local connection is closed and the follow command run.
unfoldable pub follow_primary : Options → CascadeView → ℤ → Pair → Cascaded
unfolding rejoin_local
follow_primary opts v primary_id p =
    let command = run_follow_command (parse_follow_command opts.follow_command primary_id) in
    let q = with_daemon p (record p.daemon { local_conn_ok = false }) in
    rejoin_local opts v primary_id q
      (if eqb_ℤ v.follow_status (pos 0) then command ∷ [] else command ∷ event_follow_failed ∷ [])

is_rectype_primary : RecoveryType → Bool
is_rectype_primary rectype_primary = true
is_rectype_primary _ = false

with_primary : Options → CascadeView → Pair → Option NodeInfo → Cascaded
unfolding follow_primary is_rectype_primary
with_primary opts v p none = cascaded false p []
with_primary opts v p (some n) =
    let (ok, q) = check_primary_connection opts v.conn v.primary_conn_ok p in
    if not ok
    then cascaded false (with_daemon q (degrade q.daemon)) []
    else if not (is_rectype_primary v.primary_type)
    then cascaded false (with_daemon q (degrade q.daemon)) []
    else follow_primary opts v n.node_id q

abbrev pub is_manual_mode : FailoverMode → Bool
is_manual_mode manual = true
is_manual_mode automatic = false

unfoldable pub do_upstream_standby_failover : Options → CascadeView → Pair → Cascaded
unfolding with_primary
do_upstream_standby_failover opts v p =
    if is_manual_mode opts.failover
    then cascaded false p []
    else with_primary opts v p v.primary_record
