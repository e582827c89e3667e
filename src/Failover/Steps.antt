-- ===== src/Failover/Steps.antt =====
-- repmgrd-physical.c: `wait_primary_notification` and `follow_new_primary`.
use hg_repmgr.Base.{
  ℤ, pos, ℕ, zero, suc, Bool, true, false, not, List, [], ◌∷◌, ◌++◌, Option, none, some,
  if◌then◌else◌, eqb_ℤ, String,
}
use hg_repmgr.Node.{NodeInfo, RecoveryType, rectype_primary}
use hg_repmgr.SharedState.{Shared, set_local_node_id, set_repmgrd_pid}
use hg_repmgr.Template.{parse_follow_command}
use hg_repmgr.Daemon.{
  Options, Daemon, primary_reappeared, follow_fail, followed_new_primary, degrade,
}
use hg_repmgr.Failover.{
  Action, run_follow_command, event_failover_aborted, event_failover_follow, Step, finish,
  poll_new_primary,
}

waited : Daemon → Option ℤ → Option ℤ × Daemon
waited d none = (none, degrade d)
waited d (some id) = (some id, d)

-- The node ID of the notification, `none` after the time is up.
unfoldable pub wait_primary_notification : Options → (ℕ → Option ℤ) → Daemon → Option ℤ × Daemon
unfolding waited
wait_primary_notification opts answers d =
    waited d (poll_new_primary opts.primary_notification_timeout answers 0)

-- What `follow_new_primary` finds: the records of the new and the failed primary; what the new
-- primary is, if it can be connected to; the follow command's exit status; what the old primary is
-- after a failed command; the records read from the new primary; in which second the local node
-- answers, and its shared memory then, which a restart has reset; and the state file, and this
-- process' pid and pid file.
pub record FollowView : Type 0 where
  pub new_record : Bool
  pub failed_record : Bool
  pub new_primary : Option RecoveryType
  pub follow_status : ℤ
  pub old_primary : Option RecoveryType
  pub upstream_record : Option NodeInfo
  pub own_record : Option NodeInfo
  pub answers_at : ℕ → Bool
  pub shared_after : Shared
  pub state_file : ℤ × ℤ
  pub pid : ℤ
  pub pid_file : String

abbrev pub is_up_primary : Option RecoveryType → Bool
is_up_primary (some rectype_primary) = true
is_up_primary _ = false

-- The loop that polls the local node.
unfoldable pub reconnects_within : ℕ → (ℕ → Bool) → ℕ → Bool
reconnects_within zero answers i = false
reconnects_within (suc left) answers i =
    let rest = reconnects_within left answers (suc i) in if answers i then true else rest

follow_restarted : Options → FollowView → Daemon → List Action → Step
follow_restarted opts v d log =
    if reconnects_within opts.repmgrd_standby_startup_timeout v.answers_at 0
    then finish followed_new_primary
        (record d {
          local_conn_ok = true;
          shared =
              set_repmgrd_pid (some v.pid) (some v.pid_file)
                (set_local_node_id v.state_file (some opts.node_id) v.shared_after);
        })
        (log ++ event_failover_follow ∷ [])
    else finish follow_fail d log

follow_own_record : Options → FollowView → Daemon → List Action → Option NodeInfo → Step
unfolding follow_restarted
follow_own_record opts v d log none = finish follow_fail d log
follow_own_record opts v d log (some n) = follow_restarted opts v (record d { local = n }) log

follow_records : Options → FollowView → Daemon → List Action → Option NodeInfo → Step
unfolding follow_own_record
follow_records opts v d log none = finish follow_fail d log
follow_records opts v d log (some n) =
    follow_own_record opts v (record d { upstream = n }) log v.own_record

unfoldable pub follow_new_primary : Options → FollowView → ℤ → Daemon → Step
unfolding follow_records
follow_new_primary opts v new_primary_id d =
    let command = parse_follow_command opts.follow_command new_primary_id in
    let e = record d { local_conn_ok = false } in
    if not v.new_record
    then finish follow_fail d []
    else if not v.failed_record
    then finish follow_fail d []
    else if not (is_up_primary v.new_primary)
    then finish follow_fail d []
    else if not (eqb_ℤ v.follow_status (pos 0))
    then (if is_up_primary v.old_primary
        then finish primary_reappeared e (run_follow_command command ∷ event_failover_aborted ∷ [])
        else finish follow_fail e (run_follow_command command ∷ []))
    else follow_records opts v e (run_follow_command command ∷ []) v.upstream_record
