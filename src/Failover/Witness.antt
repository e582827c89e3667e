-- ===== src/Failover/Witness.antt =====
-- repmgrd-physical.c `do_witness_failover` and `witness_follow_new_primary`: a witness whose primary
-- is gone waits to be told of the new one.
pub mod Resumes
use hg_repmgr.Base.{
  ℤ, pos, ℕ, Bool, true, false, not, List, [], ◌∷◌, Option, none, some, ◌≡◌, ◌≢◌, ◌↔◌, ◌⊎◌, inl,
  inr, arith, if◌then◌else◌, eqb_ℤ, eqb_ℤ→eq, eqb_ℤ_refl, refl, Option-cases,
}
use hg_repmgr.Node.{NodeInfo, RecoveryType, rectype_primary, rectype_unknown, rectype_standby}
use hg_repmgr.Daemon.{
  Options, Daemon, FailoverState, state_unknown, state_none, primary_reappeared,
  followed_new_primary, following_original_primary, no_new_primary, follow_fail, degrade,
}
use hg_repmgr.Failover.{
  Action, update_upstream_record, copy_node_records, event_failover_follow, Step, finish,
  poll_new_primary,
}
use hg_repmgr.Failover.Steps.{wait_primary_notification, is_up_primary}

-- What `witness_follow_new_primary` finds: the record of the new primary, what that node is, if it
-- can be connected to, and the records read from it.
pub record WitnessView : Type 0 where
  pub new_record : Bool
  pub new_primary : Option RecoveryType
  pub upstream_record : Option NodeInfo
  pub own_record : Option NodeInfo

abbrev pub copied : List Action
copied = update_upstream_record ∷ copy_node_records ∷ []

witness_own_record : Daemon → Option NodeInfo → Step
witness_own_record d none = finish follow_fail d copied
witness_own_record d (some n) =
    finish followed_new_primary (record d { local = n })
      (update_upstream_record ∷ copy_node_records ∷ event_failover_follow ∷ [])

witness_records : WitnessView → Daemon → Option NodeInfo → Step
unfolding witness_own_record
witness_records v d none = finish follow_fail d copied
witness_records v d (some n) = witness_own_record (record d { upstream = n }) v.own_record

-- The ID of the new primary is in the view: its record and its answers are that node's.
unfoldable pub witness_follow_new_primary : WitnessView → Daemon → Step
unfolding witness_records
witness_follow_new_primary v d =
    if not v.new_record
    then finish follow_fail d []
    else if not (is_up_primary v.new_primary)
    then finish follow_fail d []
    else witness_records v d v.upstream_record

abbrev pub with_state : FailoverState → Daemon → Daemon
with_state f d = record d { failover_state = f }

-- The result, the variables at the end, and the log.
pub record WitnessEnding : Type 0 where
  pub result : Bool
  pub daemon : Daemon
  pub log : List Action

abbrev pub resumed : Step → WitnessEnding
resumed s = record { result = true; daemon = with_state state_none s.daemon; log = s.log }

-- The `switch`.
witness_settle : Step → FailoverState → WitnessEnding
witness_settle s primary_reappeared = resumed s
witness_settle s followed_new_primary = resumed s
witness_settle s following_original_primary = resumed s
witness_settle s f = record {
  result = false;
  daemon = degrade (with_state f s.daemon);
  log = s.log;
}

-- What a notification leads to; `view id` is what following node `id` finds.
witness_notified : (ℤ → WitnessView) → Option ℤ × Daemon → Step
witness_notified view (none, d) = finish no_new_primary d []
witness_notified view (some id, d) =
    if eqb_ℤ id d.upstream.node_id
    then finish following_original_primary d []
    else witness_follow_new_primary (view id) d

unfoldable pub do_witness_failover :
    Options → (ℕ → Option ℤ) → (ℤ → WitnessView) → Daemon → WitnessEnding
unfolding witness_settle witness_notified
do_witness_failover opts answers view d =
    let s =
      witness_notified view (wait_primary_notification opts answers (with_state state_unknown d)) in
    witness_settle s s.state
