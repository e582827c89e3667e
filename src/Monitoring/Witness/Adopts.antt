-- ===== src/Monitoring/Witness/Adopts.antt =====
-- `monitor_streaming_witness`: a witness in degraded monitoring takes up a new primary.
use hg_repmgr.Base.{◌∙◌, if_elim, ℤ, true, false, some, ◌≡◌, arith, []}
use hg_repmgr.Node.{NodeInfo, rectype_primary}
use hg_repmgr.Election.{get_active_sibling_node_records}
use hg_repmgr.Failover.{ConnView, check_connection}
use hg_repmgr.Failover.Witness.{WitnessView, witness_follow_new_primary}
use hg_repmgr.Monitoring.{
  status_up, Daemon, ms_normal, MonitorOptions, is_degraded, is_status_up, falls,
}
use hg_repmgr.Monitoring.Standby.{with_upstream_status, upstream_answers}
use hg_repmgr.Monitoring.Standby.Degraded.{find_new_primary}
use hg_repmgr.Monitoring.Witness.{
  with_witness_daemon, witness_part, WitnessState, WitnessPart, WitnessTurn, is_primary,
  witness_upstream, witness_degraded, witness_found,
}
use hg_repmgr.Monitoring.Witness.Turn.{
  witness_local, witness_active, witness_inactive, witness_sync, then_part, witness_turn,
  at_loop_label,
}

-- The upstream node does not answer, and node `id` is found, which gives the record `n` of itself
-- and the record `m` of the witness.
pub record Finds (mo : MonitorOptions) (v : WitnessTurn) (s : WitnessState) (id : ℤ)
    (n m : NodeInfo) : Type 0 where
  pub silent : upstream_answers mo v.check ≡ false
  pub silent_later : upstream_answers mo v.later_check ≡ false
  pub found :
      find_new_primary s.daemon.local.node_id v.sibling (
        get_active_sibling_node_records s.daemon.local.node_id s.daemon.local.upstream_node_id
          v.nodes)
      ≡ some id
  pub recorded : (v.view id).new_record ≡ true
  pub primary : (v.view id).new_primary ≡ some rectype_primary
  pub upstream_read : (v.view id).upstream_record ≡ some n
  pub own_read : (v.view id).own_record ≡ some m

-- The upstream node's record and the state of the monitoring are those of `d`.
abbrev pub Kept : Daemon → WitnessPart → Type 0
Kept d p =
    (p.after.daemon.upstream ≡ d.upstream) × (p.after.daemon.monitoring_state ≡ d.monitoring_state)

check_connection-Kept :
    (mo : MonitorOptions) (v : ConnView) (d : Daemon)
    → ((check_connection mo.failover_options v d).upstream ≡ d.upstream)
      × ((check_connection mo.failover_options v d).monitoring_state ≡ d.monitoring_state)
unfolding check_connection
check_connection-Kept mo v d = (ground arith, ground arith)

witness_active-Kept :
    (mo : MonitorOptions) (v : WitnessTurn) (s : WitnessState)
    → Kept s.daemon (witness_active mo v s)
unfolding witness_active
witness_active-Kept mo v s = (ground arith, ground arith)

witness_inactive-Kept : (v : WitnessTurn) (s : WitnessState) → Kept s.daemon (witness_inactive v s)
unfolding witness_inactive
witness_inactive-Kept v s = (ground arith, ground arith)

witness_local-Kept :
    (mo : MonitorOptions) (v : WitnessTurn) (s : WitnessState)
    → Kept s.daemon (witness_local mo v s)
unfolding witness_local
witness_local-Kept mo v s =
    let d = check_connection mo.failover_options v.conn s.daemon in
    let t = with_witness_daemon s d in
    let (u, m) = check_connection-Kept mo v.conn s.daemon in
    let (u1, m1) = witness_active-Kept mo v t in
    let (u2, m2) = witness_inactive-Kept v t in
    if_elim (Kept s.daemon) d.local_conn_ok (u1 ∙ u, m1 ∙ m) (u2 ∙ u, m2 ∙ m)

witness_sync-Kept :
    (mo : MonitorOptions) (v : WitnessTurn) (s : WitnessState) → Kept s.daemon (witness_sync mo v s)
unfolding witness_sync
witness_sync-Kept mo v s = (ground arith, ground arith)

then_part-Kept :
    (next : WitnessState → WitnessPart) (p : WitnessPart) (d : Daemon)
    → Kept d p
    → ((t : WitnessState) → Kept t.daemon (next t))
    → Kept d (then_part next p)
unfolding then_part
then_part-Kept next p d (u, m) k =
    let (u1, m1) = k p.after in (ground (arith, u, u1), ground (arith, m, m1))

-- The end of a turn keeps what its first half leaves.
turn-Kept :
    (mo : MonitorOptions) (v : WitnessTurn) (s : WitnessState) (d : Daemon)
    → Kept d (then_part (witness_degraded mo v) (witness_upstream mo v s))
    → Kept d (witness_turn mo v s)
unfolding witness_turn
turn-Kept mo v s d k =
    let half = at_loop_label (then_part (witness_degraded mo v) (witness_upstream mo v s)) in
    then_part-Kept (witness_sync mo v) (then_part (witness_local mo v) half) d
      (then_part-Kept (witness_local mo v) half d k (witness_local-Kept mo v))
      (witness_sync-Kept mo v)

silent_upstream :
    (mo : MonitorOptions) (v : WitnessTurn) (s : WitnessState)
    → upstream_answers mo v.check ≡ false
    → is_status_up s.daemon.upstream.node_status ≡ false
    → witness_upstream mo v s ≡ witness_part falls s []
unfolding witness_upstream
silent_upstream mo v s h u = ground (arith, h, u)

follows :
    (v : WitnessView) (d : Daemon) (n m : NodeInfo)
    → v.new_record ≡ true
    → v.new_primary ≡ some rectype_primary
    → v.upstream_record ≡ some n
    → v.own_record ≡ some m
    → ((witness_follow_new_primary v d).daemon.upstream ≡ n)
      × ((witness_follow_new_primary v d).daemon.monitoring_state ≡ d.monitoring_state)
unfolding witness_follow_new_primary
follows v d n m r p u o = (ground (arith, r, p, u, o), ground (arith, r, p, u, o))

degraded-Finds :
    (mo : MonitorOptions) (v : WitnessTurn) (s : WitnessState) (id : ℤ) (n m : NodeInfo)
    → Finds mo v s id n m
    → is_degraded s.daemon.monitoring_state ≡ true
    → ((witness_degraded mo v s).after.daemon.upstream ≡ n)
      × ((witness_degraded mo v s).after.daemon.monitoring_state ≡ s.daemon.monitoring_state)
unfolding witness_degraded witness_found
degraded-Finds mo v s id n m f g =
    let (u, k) = follows (v.view id) s.daemon n m f.recorded f.primary f.upstream_read f.own_read in
    (ground (arith, f.silent_later, f.found, g, u), ground (arith, f.silent_later, f.found, g, k))

adopts_turn :
    (mo : MonitorOptions) (v : WitnessTurn) (s : WitnessState) (id : ℤ) (n m : NodeInfo)
    → Finds mo v s id n m
    → is_degraded s.daemon.monitoring_state ≡ true
    → is_status_up s.daemon.upstream.node_status ≡ false
    → ((witness_turn mo v s).after.daemon.upstream ≡ n)
      × ((witness_turn mo v s).after.daemon.monitoring_state ≡ s.daemon.monitoring_state)
unfolding then_part
adopts_turn mo v s id n m f g u =
    turn-Kept mo v s (record s.daemon { upstream = n })
      (rw (silent_upstream mo v s f.silent u) (degraded-Finds mo v s id n m f g))

-- The node answers, is connected, and is a primary.
pub record Answers (mo : MonitorOptions) (v : WitnessTurn) : Type 0 where
  pub answers : upstream_answers mo v.check ≡ true
  pub answers_later : upstream_answers mo v.later_check ≡ true
  pub connected : v.conn_ok ≡ true
  pub later_primary : is_primary v.later_type ≡ true

answered_upstream :
    (mo : MonitorOptions) (v : WitnessTurn) (s : WitnessState)
    → upstream_answers mo v.check ≡ true
    → ((witness_upstream mo v s).flow ≡ falls) × Kept s.daemon (witness_upstream mo v s)
unfolding witness_upstream
answered_upstream mo v s h = (ground (arith, h), (ground (arith, h), ground (arith, h)))

answered_degraded :
    (mo : MonitorOptions) (v : WitnessTurn) (s : WitnessState)
    → Answers mo v
    → is_degraded s.daemon.monitoring_state ≡ true
    → Kept
        (with_upstream_status status_up (record s.daemon { monitoring_state = ms_normal }))
        (witness_degraded mo v s)
unfolding witness_degraded
answered_degraded mo v s a g =
    let h = a.answers_later in
    let c = a.connected in
    let p = a.later_primary in (ground (arith, g, h, c, p), ground (arith, g, h, c, p))

resumes_part :
    (mo : MonitorOptions) (v : WitnessTurn) (s : WitnessState)
    → Answers mo v
    → is_degraded s.daemon.monitoring_state ≡ true
    → Kept
        (with_upstream_status status_up (record s.daemon { monitoring_state = ms_normal }))
        (then_part (witness_degraded mo v) (witness_upstream mo v s))
unfolding then_part
resumes_part mo v s a g =
    let (f, (u, m)) = answered_upstream mo v s a.answers in
    let (u1, m1) = answered_degraded mo v (witness_upstream mo v s).after a (rw m g) in
    (ground (arith, f, u, u1), ground (arith, f, m, m1))

-- A witness in degraded monitoring whose upstream node is down, and that finds another primary among
-- the siblings which gives both records, takes that node for its upstream node in the same turn; in
-- a next turn in which that node answers and is a primary, monitoring is normal again.
pub witness_recovers :
    (mo : MonitorOptions) (v v' : WitnessTurn) (s : WitnessState) (id : ℤ) (n m : NodeInfo)
    → Finds mo v s id n m
    → is_degraded s.daemon.monitoring_state ≡ true
    → is_status_up s.daemon.upstream.node_status ≡ false
    → Answers mo v'
    → ((witness_turn mo v s).after.daemon.upstream ≡ n)
      × ((witness_turn mo v' (witness_turn mo v s).after).after.daemon.monitoring_state ≡ ms_normal)
witness_recovers mo v v' s id n m f g u a =
    let (adopted, kept) = adopts_turn mo v s id n m f g u in
    let t = (witness_turn mo v s).after in
    (
      adopted,
      (turn-Kept mo v' t
          (with_upstream_status status_up (record t.daemon { monitoring_state = ms_normal }))
          (resumes_part mo v' t a (rw kept g))).1,
    )
