-- ===== src/Monitoring/Standby/Outage.antt =====
-- `monitor_streaming_standby`: an outage of the upstream node that begins during a pause.
use hg_repmgr.Base.{Bool, true, false, List, ◌∷◌, All, ◌≡◌, arith}
use hg_repmgr.Daemon.{degrade}
use hg_repmgr.Failover.{Action}
use hg_repmgr.Reconnect.{try_reconnect}
use hg_repmgr.Monitoring.{is_status_up}
use hg_repmgr.Monitoring.Deeds.{does, does-append}
use hg_repmgr.Monitoring.Standby.{
  StandbyState, upstream_part, upstream_lost, upstream_down, rejoin_part,
}
use hg_repmgr.Monitoring.Standby.Degraded.{standby_degraded}
use hg_repmgr.Monitoring.Standby.Turn.{
  StandbyView, then_part, upstream_half, local_half, standby_turn, standby_run, with_memory,
}
use hg_repmgr.Monitoring.Standby.Paused.{SeesPause}
use hg_repmgr.Monitoring.Standby.Stuck.{
  Silent, Idle, IsGivenUp, then_part-Idle, standby_degraded-Idle, local_half-Idle, standby_run-idle,
}
use hg_repmgr.Monitoring.Standby.Quiet.{rejoin_part-daemon, does-rejoin_part, rejoin_part-falls}

module _ (p : Action → Bool) where
  upstream_part-paused :
      (v : StandbyView) (s : StandbyState)
      → Silent v
      → SeesPause s.daemon
      → is_status_up s.daemon.upstream.node_status ≡ true
      → is_status_up (try_reconnect v.options.reconnect_attempts v.upstream.attempts).node_status
        ≡ false
      → Idle p (upstream_part v.options v.upstream s)
  unfolding upstream_part upstream_lost upstream_down Idle IsGivenUp degrade
  upstream_part-paused v s h (c, q) u d = ground (arith, h.silent, c, q, u, d)

  upstream_at_rejoin :
      (v : StandbyView) (s : StandbyState)
      → Idle p (upstream_part v.options v.upstream (rejoin_part v.options v.upstream s).after)
      → Idle p (then_part (upstream_part v.options v.upstream) (rejoin_part v.options v.upstream s))
  unfolding then_part Idle IsGivenUp
  upstream_at_rejoin v s i = ground (
    arith,
    i.0,
    i.1,
    rejoin_part-falls v.options v.upstream s,
    does-rejoin_part p v.options v.upstream s,
    does-append p (rejoin_part v.options v.upstream s).log
        (upstream_part v.options v.upstream (rejoin_part v.options v.upstream s).after).log,
  )

  paused_standby_turn :
      (v : StandbyView) (s : StandbyState)
      → Silent v
      → SeesPause (with_memory v s).daemon
      → is_status_up s.daemon.upstream.node_status ≡ true
      → is_status_up (try_reconnect v.options.reconnect_attempts v.upstream.attempts).node_status
        ≡ false
      → Idle p (standby_turn v s)
  unfolding standby_turn upstream_half Idle IsGivenUp
  paused_standby_turn v s h c u d =
      let m = with_memory v s in
      let r = rejoin_part v.options v.upstream m in
      let same = rejoin_part-daemon v.options v.upstream m in
      let seen = upstream_part-paused v r.after h (rw same c) (rw same u) d in
      let degraded = standby_degraded v.options v.upstream.world.reconnects v.degraded in
      then_part-Idle p (local_half v) (upstream_half v m)
        (then_part-Idle p degraded (then_part (upstream_part v.options v.upstream) r)
          (upstream_at_rejoin v m seen) (λ t k. standby_degraded-Idle p v t h k))
        (λ t k. local_half-Idle p v t k)

  -- If the upstream node is lost in a turn while repmgrd is paused, and the standby sees the pause,
  -- no later turn takes an action of a failover either, whether the pause has ended or not, as long
  -- as the upstream node does not answer, the local node is no primary, and none is found among the
  -- siblings.
  pub outage_in_pause :
      (v : StandbyView) (vs : List StandbyView) (s : StandbyState)
      → All Silent (v ∷ vs)
      → SeesPause (with_memory v s).daemon
      → is_status_up s.daemon.upstream.node_status ≡ true
      → is_status_up (try_reconnect v.options.reconnect_attempts v.upstream.attempts).node_status
        ≡ false
      → does p (standby_run (v ∷ vs) s).log ≡ false
  unfolding standby_run Idle IsGivenUp
  outage_in_pause v vs s (h, a) c u d =
      let turn = standby_turn v s in
      let (quiet, given_up) = paused_standby_turn v s h c u d in
      ground (
        arith,
        quiet,
        standby_run-idle p vs turn.after a given_up,
        does-append p turn.log (standby_run vs turn.after).log,
      )
