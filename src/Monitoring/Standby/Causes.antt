-- ===== src/Monitoring/Standby/Causes.antt =====
-- `monitor_streaming_standby`: when a turn runs the promote command.
use hg_repmgr.Base.{
  true, false, ◌&&◌, List, [], ◌∷◌, Option, none, some, map, ◌≡◌, ◌⊎◌, inl, inr, refl, arith, ℤ,
  if◌then◌else◌,
}
use hg_repmgr.Node.{status_unknown}
use hg_repmgr.Daemon.{Daemon, won}
use hg_repmgr.SharedState.{repmgrd_is_paused}
use hg_repmgr.Failover.Steps.{follow_new_primary}
use hg_repmgr.Failover.{notify_followers, check_connection}
use hg_repmgr.Failover.Primary.{do_primary_failover}
use hg_repmgr.Failover.Primary.Safety.{
  is_promote, promotes, election_of, IsAsked, promote_needs_cause, promotes-follow,
  promotes-notify_followers,
}
use hg_repmgr.Failover.Cascade.{do_upstream_standby_failover}
use hg_repmgr.Reconnect.{try_reconnect}
use hg_repmgr.Monitoring.{event, failover_action, Deed, MonitorOptions, is_status_up}
use hg_repmgr.Monitoring.Deeds.{does, does-append, does-promotes}
use hg_repmgr.Monitoring.Standby.{
  restart_unknown, StandbyState, UpstreamView, rejoin_part, upstream_part, upstream_lost,
  upstream_down, upstream_recovered, upstream_answers, with_upstream_status, with_daemon,
  is_primary_type,
}
use hg_repmgr.Monitoring.Standby.Degraded.{
  find_new_primary, follow_found, DegradedView, look_for_primary,
}
use hg_repmgr.Monitoring.Standby.Turn.{StandbyView, upstream_half, standby_turn, with_memory}
use hg_repmgr.Monitoring.Standby.Quiet.{
  standby_turn-does, at_upstream, rejoin_part-daemon, upstream_half-does, promotes-cascade,
  NotifiesQuietly, does-standby_degraded,
}
use hg_repmgr.Election.{get_active_sibling_node_records}

-- A failover's notices and the look for another primary do not promote.
promotes_notices : NotifiesQuietly is_promote
promotes_notices reconnects cs id = ground (
  arith,
  does-promotes (notify_followers reconnects cs id),
  promotes-notify_followers reconnects cs id,
)

promotes-follow_found :
    (mo : MonitorOptions) (v : DegradedView) (s : StandbyState) (found : Option ℤ)
    → does is_promote (follow_found mo v s found).log ≡ false
unfolding follow_found
promotes-follow_found mo v s none = refl
promotes-follow_found mo v s (some id) = ground (
  arith,
  does-promotes (follow_new_primary mo.failover_options (v.follow id) id s.daemon).log,
  promotes-follow mo.failover_options (v.follow id) id s.daemon,
)

promotes-look_for_primary :
    (mo : MonitorOptions) (v : DegradedView) (s : StandbyState)
    → does is_promote (look_for_primary mo v s).log ≡ false
unfolding look_for_primary
promotes-look_for_primary mo v s =
    let d = s.daemon in
    let siblings =
      get_active_sibling_node_records d.local.node_id d.local.upstream_node_id v.nodes in
    ground
      (arith, promotes-follow_found mo v s (find_new_primary d.local.node_id v.sibling siblings))

-- The daemon as it holds the failover of a turn: the upstream node is down, the local connection
-- checked.
abbrev pub at_failover : UpstreamView → MonitorOptions → Daemon → Daemon
at_failover v mo d =
    let e = with_upstream_status status_unknown d in
    with_upstream_status (try_reconnect mo.reconnect_attempts v.attempts).node_status
      (if e.local_conn_ok then e else check_connection mo.failover_options v.conn e)

-- What a turn that promotes has found.
pub record Cause (mo : MonitorOptions) (v : UpstreamView) (d : Daemon) : Type 0 where
  pub silent : upstream_answers mo v.check ≡ false
  pub was_up : is_status_up d.upstream.node_status ≡ true
  pub stays_down : is_status_up (try_reconnect mo.reconnect_attempts v.attempts).node_status ≡ false
  pub is_upstream_primary : is_primary_type d.upstream.type ≡ true
  pub not_paused :
      ((at_failover v mo d).local_conn_ok && repmgrd_is_paused (at_failover v mo d).shared) ≡ false
  pub elected :
      ((election_of mo.failover_options v.world (at_failover v mo d)).result ≡ won)
      ⊎ IsAsked mo.failover_options v.world
          (election_of mo.failover_options v.world (at_failover v mo d)).daemon.local.node_id

promotes-upstream_down :
    (mo : MonitorOptions) (v : UpstreamView) (s : StandbyState) (log : List Deed)
    → does is_promote log ≡ false
    → does is_promote (upstream_down mo v s log).log ≡ true
    → (is_primary_type s.daemon.upstream.type ≡ true)
      × ((s.daemon.local_conn_ok && repmgrd_is_paused s.daemon.shared) ≡ false)
      × (promotes (do_primary_failover mo.failover_options v.world s.daemon).log ≡ true)
unfolding upstream_down
promotes-upstream_down mo v s log n h =
    let e = do_primary_failover mo.failover_options v.world s.daemon in
    let c =
      do_upstream_standby_failover mo.failover_options v.cascade
        (record { primary = s.primary_shared; daemon = s.daemon }) in
    ground (
      arith,
      does-append is_promote log (map failover_action e.log),
      does-append is_promote log (map failover_action c.log),
      does-promotes e.log,
      does-promotes c.log,
      promotes-cascade mo v.cascade (record { primary = s.primary_shared; daemon = s.daemon }),
    )

at_failover-type :
    (v : UpstreamView) (mo : MonitorOptions) (d : Daemon)
    → (at_failover v mo d).upstream.type ≡ d.upstream.type
unfolding check_connection
at_failover-type v mo d = ground arith

promotes-upstream_part :
    (mo : MonitorOptions) (v : UpstreamView) (s : StandbyState)
    → does is_promote (upstream_part mo v s).log ≡ true
    → Cause mo v s.daemon
unfolding upstream_part upstream_lost upstream_recovered restart_unknown
promotes-upstream_part mo v s h =
    let t = with_daemon s (at_failover v mo s.daemon) in
    let lost = event "repmgrd_upstream_disconnect" true ∷ [] in
    let down = promotes-upstream_down mo v t lost refl in
    let told : does is_promote (upstream_down mo v t lost).log ≡ true = ground (arith, h) in
    record {
      silent = ground arith;
      was_up = ground arith;
      stays_down = ground arith;
      is_upstream_primary = rw (at_failover-type v mo s.daemon) at ((down told).0);
      not_paused = (down told).1;
      elected = promote_needs_cause mo.failover_options v.world t.daemon (down told).2;
    }

promotes-upstream_half :
    (v : StandbyView) (s : StandbyState)
    → does is_promote (upstream_half v s).log ≡ true
    → Cause v.options v.upstream s.daemon
promotes-upstream_half v s h = elim (upstream_half-does is_promote v s h) [
  | inl q ↦
      rw (rejoin_part-daemon v.options v.upstream s) at
        (promotes-upstream_part v.options v.upstream (rejoin_part v.options v.upstream s).after q)
  | inr (_, k) ↦ absurd (
      ground (
        arith,
        k,
        does-standby_degraded is_promote v.options v.upstream.world.reconnects v.degraded
            (at_upstream v s).after promotes_notices
            (λ n. promotes-look_for_primary v.options v.degraded (
              with_daemon (at_upstream v s).after
                (record (at_upstream v s).after.daemon { local = n }))),
      ))
]

-- A turn of the loop of a standby runs the promote command only if the upstream node was up and is
-- a primary by its record, does not answer the check, and cannot be reached by any attempt to
-- reconnect, repmgrd is not seen to be paused, and the standby won the election or was asked by a
-- notification within the timeout.
pub promote_turn :
    (v : StandbyView) (s : StandbyState)
    → does is_promote (standby_turn v s).log ≡ true
    → Cause v.options v.upstream (with_memory v s).daemon
promote_turn v s h = promotes-upstream_half v (with_memory v s) (standby_turn-does is_promote v s h)
