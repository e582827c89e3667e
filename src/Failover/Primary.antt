-- ===== src/Failover/Primary.antt =====
-- repmgrd-physical.c `do_primary_failover`: what a standby does when its primary is gone.
pub mod Safety
pub mod Endings
pub mod Kept
pub mod Notices
use hg_repmgr.Base.{
  ℤ, pos, negsuc, ℕ, zero, suc, Bool, true, false, ◌&&◌, not, List, [], ◌∷◌, ◌++◌, Option, none,
  some, if◌then◌else◌, eqb_ℤ, map, ltb,
}
use hg_repmgr.Node.{NodeInfo, status_up}
use hg_repmgr.SharedState.{unknown_node_id, election_rerun_notification}
use hg_repmgr.Daemon.{
  Options, Daemon, FailoverState, state_unknown, state_none, promoted, promotion_failed,
  primary_reappeared, local_node_failure, waiting_new_primary, follow_new_primary,
  requires_manual_failover, followed_new_primary, following_original_primary, no_new_primary,
  follow_fail, node_notification_error, rerun_election, ElectionResult, won, lost, cancelled, rerun,
  not_candidate, degrade,
}
use hg_repmgr.Election.{Peer, View, Cell, get_active_sibling_node_records}
use hg_repmgr.Election.Vote.{Outcome, do_election, untouched, is_empty, is_manual}
use hg_repmgr.Failover.{
  Action, disable_wal_receiver, enable_wal_receiver, bind_virtual_ip, event_disconnect_manual, Step,
  finish, ConnView, check_connection, PromoteView, promote_self, notify_followers,
}
use hg_repmgr.Failover.Steps.{FollowView, wait_primary_notification}
use hg_repmgr.Failover.Steps

-- All that a failover finds outside the process. `later_nodes` is the node table as it is read
-- again after a promotion that a notification asked for. What the siblings' WAL receivers do has no
-- place here: the loop that waits for them, `wait_wal_receivers`, only sleeps and logs.
pub record World : Type 0 where
  pub conn : ConnView
  pub version_ok : Bool
  pub election : View
  pub promote : PromoteView
  pub follow : FollowView
  pub notified : ℕ → Option ℤ
  pub later_nodes : List Peer
  pub reconnects : ℤ → Bool
  pub has_new_record : Bool

-- dbutils.c `check_vip_conf`
unfoldable pub check_vip_conf : List ℕ → List ℕ → Bool
check_vip_conf vip network_card =
    if is_empty vip then false else if is_empty network_card then false else true

-- The state of the failover, its variables and its log, with the siblings and the node ID that it
-- may have changed.
pub record Phase : Type 0 where
  pub step : Step
  pub siblings : List Cell
  pub new_primary_id : ℤ

bind_if_promoted : Options → FailoverState → List Action
bind_if_promoted opts promoted =
    if check_vip_conf opts.virtual_ip opts.network_card then bind_virtual_ip ∷ [] else []
bind_if_promoted opts _ = []

-- What the election's result leads to. A rerun is announced to the siblings.
after_election : Options → World → Outcome → Daemon → ElectionResult → Phase
unfolding bind_if_promoted check_vip_conf
after_election opts w o d won =
    let s = promote_self w.promote d in
    record {
      step = finish s.state s.daemon (s.log ++ bind_if_promoted opts s.state);
      siblings = o.siblings;
      new_primary_id = o.new_primary_id;
    }
after_election opts w o d lost = record {
  step = finish waiting_new_primary d [];
  siblings = o.siblings;
  new_primary_id = o.new_primary_id;
}
after_election opts w o d not_candidate = record {
  step = finish waiting_new_primary d [];
  siblings = o.siblings;
  new_primary_id = o.new_primary_id;
}
after_election opts w o d rerun = record {
  step =
      finish rerun_election d
        (notify_followers w.reconnects o.siblings election_rerun_notification);
  siblings = o.siblings;
  new_primary_id = o.new_primary_id;
}
after_election opts w o d cancelled = record {
  step = finish follow_new_primary d [];
  siblings = o.siblings;
  new_primary_id = o.new_primary_id;
}

-- A step after which the siblings are those that were known.
abbrev pub then_step : Phase → Step → Phase
then_step ph s = record ph { step = finish s.state s.daemon (ph.step.log ++ s.log) }

-- What a notification leads to.
on_notification : Options → World → Phase → ℤ → Daemon → Phase
on_notification opts w ph id d =
    let s = promote_self w.promote d in
    if eqb_ℤ id d.upstream.node_id
    then then_step ph (finish following_original_primary d [])
    else if eqb_ℤ id d.local.node_id
    then record (then_step ph s) {
      siblings = map untouched (
          get_active_sibling_node_records s.daemon.local.node_id s.daemon.upstream.node_id
            w.later_nodes);
    }
    else if eqb_ℤ id election_rerun_notification
    then then_step ph (finish rerun_election d [])
    else if is_manual opts.failover
    then then_step ph (
        finish requires_manual_failover d
          (if w.has_new_record then event_disconnect_manual ∷ [] else []))
    else then_step ph (Steps.follow_new_primary opts w.follow id d)

on_wait : Options → World → Phase → Option ℤ × Daemon → Phase
unfolding on_notification
on_wait opts w ph (none, d) = then_step ph (finish no_new_primary d [])
on_wait opts w ph (some id, d) = on_notification opts w ph id d

-- The second part: follow the primary that was found, or wait to be told.
follow_or_wait : Options → World → Phase → FailoverState → Phase
unfolding on_wait
follow_or_wait opts w ph follow_new_primary =
    then_step ph (Steps.follow_new_primary opts w.follow ph.new_primary_id ph.step.daemon)
follow_or_wait opts w ph waiting_new_primary =
    on_wait opts w ph (wait_primary_notification opts w.notified ph.step.daemon)
follow_or_wait opts w ph _ = ph

-- The result, the variables at the end, and the log.
pub record Ending : Type 0 where
  pub result : Bool
  pub daemon : Daemon
  pub log : List Action

abbrev pub in_state : FailoverState → Daemon → Daemon
in_state f d = record d { failover_state = f }

-- The `switch` at the end.
settle : World → Phase → Daemon → List Action → FailoverState → Ending
settle w ph d log promoted = record {
  result = true;
  daemon = in_state state_none d;
  log = log ++ notify_followers w.reconnects ph.siblings d.local.node_id;
}
settle w ph d log rerun_election = record {
  result = false;
  daemon = record (in_state state_none d) {
    upstream = record d.upstream { node_status = status_up };
  };
  log = log;
}
settle w ph d log primary_reappeared = record {
  result = true;
  daemon = in_state state_none d;
  log = log ++ notify_followers w.reconnects ph.siblings d.upstream.node_id;
}
settle w ph d log followed_new_primary = record {
  result = true;
  daemon = in_state state_none d;
  log = log;
}
settle w ph d log following_original_primary = record {
  result = true;
  daemon = in_state state_none d;
  log = log;
}
settle w ph d log promotion_failed = record {
  result = false;
  daemon = degrade (in_state promotion_failed d);
  log = log;
}
settle w ph d log follow_fail = record {
  result = false;
  daemon = degrade (in_state follow_fail d);
  log = log;
}
settle w ph d log requires_manual_failover = record {
  result = false;
  daemon = degrade (in_state requires_manual_failover d);
  log = log;
}
settle w ph d log f = record { result = false; daemon = in_state f d; log = log }

abbrev pub disables : Options → World → Bool
disables opts w = opts.standby_disconnect_on_failover && w.version_ok

before_election : Options → World → List Action
before_election opts w = if disables opts w then disable_wal_receiver ∷ [] else []

reenable : Options → List Action
reenable opts = if opts.standby_disconnect_on_failover then enable_wal_receiver ∷ [] else []

conclude_phase : World → List Action → Phase → Ending
unfolding settle
conclude_phase w log ph = settle w ph ph.step.daemon (log ++ ph.step.log) ph.step.state

proceed : Options → World → Outcome → List Action → Ending
unfolding after_election follow_or_wait conclude_phase
proceed opts w o log =
    let ph = after_election opts w o (in_state state_unknown o.daemon) o.result in
    conclude_phase w log (follow_or_wait opts w ph ph.step.state)

is_called_off : ElectionResult → ℤ → Bool
is_called_off cancelled id = eqb_ℤ id unknown_node_id
is_called_off _ id = false

conclude_election : Options → World → List Action → Outcome → Ending
unfolding proceed is_called_off
conclude_election opts w log o =
    if is_called_off o.result o.new_primary_id
    then record { result = false; daemon = in_state state_unknown o.daemon; log = log }
    else proceed opts w o log

unfoldable pub do_primary_failover : Options → World → Daemon → Ending
unfolding conclude_election before_election reenable
do_primary_failover opts w d =
    conclude_election opts w (before_election opts w ++ reenable opts)
      (do_election opts w.election (check_connection opts w.conn d))
