-- ===== src/Monitoring/Standby/Stuck.antt =====
-- `monitor_streaming_standby`: a primary that is lost while repmgrd is paused stays without a
-- failover after the pause has ended.
use hg_repmgr.Base.{All, ℤ, Bool, false, List, [], ◌∷◌, Option, none, some, ◌≡◌, refl, arith}
use hg_repmgr.Node.{RecoveryType}
use hg_repmgr.Daemon.{Daemon}
use hg_repmgr.Election.{Peer, get_active_sibling_node_records}
use hg_repmgr.Failover.{ConnView, check_connection, Action}
use hg_repmgr.Failover.Steps.{is_up_primary}
use hg_repmgr.Monitoring.{
  ms_normal, refresh_node_record, terminate, MonitorOptions, falls, is_status_up,
}
use hg_repmgr.Monitoring.Deeds.{does, does-append}
use hg_repmgr.Monitoring.Standby.{
  standby_part, StandbyState, StandbyPart, rejoin_part, upstream_part, with_daemon,
  upstream_answers,
}
use hg_repmgr.Monitoring.Standby.Degraded.{
  DegradedView, standby_degraded, look_for_primary, find_new_primary, upstream_gone,
}
use hg_repmgr.Monitoring.Standby.Turn.{
  StandbyView, then_part, upstream_half, local_half, standby_turn, standby_run, with_memory,
}
use hg_repmgr.Monitoring.Standby.Quiet.{rejoin_part-daemon, does-rejoin_part, does-local_half}
use hg_repmgr.Monitoring.Standby.Local.{
  mark_active, leave_demoted, mark_inactive, local_is_up, LocalView, local_node_part,
  upstream_change_part,
}

-- The upstream node does not answer, the local node is no primary, and none is among the siblings.
pub record Silent (v : StandbyView) : Type 0 where
  pub silent : upstream_answers v.options v.upstream.check ≡ false
  pub silent_later : upstream_answers v.options v.degraded.check ≡ false
  pub not_promoted : is_up_primary (some v.degraded.local_type) ≡ false
  pub no_sibling : (id : ℤ) → is_up_primary (v.degraded.sibling id) ≡ false

find_none :
    (id : ℤ) (sibling : ℤ → Option RecoveryType) (ps : List Peer)
    → ((i : ℤ) → is_up_primary (sibling i) ≡ false)
    → find_new_primary id sibling ps ≡ none
unfolding find_new_primary
find_none id sibling [] h = refl
find_none id sibling (p ∷ ps) h = ground (arith, find_none id sibling ps h, h p.info.node_id)

look_for_none :
    (mo : MonitorOptions) (v : DegradedView) (s : StandbyState)
    → ((i : ℤ) → is_up_primary (v.sibling i) ≡ false)
    → look_for_primary mo v s ≡ standby_part falls s []
unfolding look_for_primary
look_for_none mo v s h =
    let d = s.daemon in
    let siblings =
      get_active_sibling_node_records d.local.node_id d.local.upstream_node_id v.nodes in
    ground (arith, find_none d.local.node_id v.sibling siblings h)

-- The upstream node was given up.
unfoldable pub IsGivenUp : StandbyState → Type 0
IsGivenUp s = is_status_up s.daemon.upstream.node_status ≡ false

-- A part that takes no action, after which the upstream node is given up.
unfoldable pub Idle : (Action → Bool) → StandbyPart → Type 0
Idle p q = (does p q.log ≡ false) × IsGivenUp q.after

check_connection-upstream :
    (mo : MonitorOptions) (v : ConnView) (d : Daemon)
    → (check_connection mo.failover_options v d).upstream ≡ d.upstream
unfolding check_connection
check_connection-upstream mo v d = ground arith

mark_inactive-upstream :
    (v : LocalView) (s : StandbyState)
    → (mark_inactive v s).after.daemon.upstream ≡ s.daemon.upstream
unfolding mark_inactive
mark_inactive-upstream v s = ground arith

leave_demoted-upstream :
    (mo : MonitorOptions) (v : LocalView) (s : StandbyState)
    → (leave_demoted mo v s).after.daemon.upstream ≡ s.daemon.upstream
unfolding leave_demoted mark_active
leave_demoted-upstream mo v s = ground arith

local_is_up-upstream :
    (mo : MonitorOptions) (v : LocalView) (s : StandbyState)
    → (local_is_up mo v s).after.daemon.upstream ≡ s.daemon.upstream
unfolding local_is_up
local_is_up-upstream mo v s =
    let d = record s.daemon { local = refresh_node_record v.after_outage s.daemon.local } in
    ground (
      arith,
      leave_demoted-upstream mo v (record s { daemon = d; local_monitoring_state = ms_normal }),
      leave_demoted-upstream mo v s,
    )

local_node_part-upstream :
    (mo : MonitorOptions) (v : LocalView) (s : StandbyState)
    → (local_node_part mo v s).after.daemon.upstream ≡ s.daemon.upstream
unfolding local_node_part
local_node_part-upstream mo v s =
    let t = with_daemon s (check_connection mo.failover_options v.conn s.daemon) in
    ground (
      arith,
      mark_inactive-upstream v t,
      local_is_up-upstream mo v t,
      check_connection-upstream mo v.conn s.daemon,
    )

upstream_change_part-upstream :
    (v : LocalView) (s : StandbyState)
    → (upstream_change_part v s).after.daemon.upstream ≡ s.daemon.upstream
unfolding upstream_change_part
upstream_change_part-upstream v s = ground arith

local_half-upstream :
    (v : StandbyView) (s : StandbyState)
    → (local_half v s).after.daemon.upstream ≡ s.daemon.upstream
unfolding local_half then_part
local_half-upstream v s = ground (
  arith,
  local_node_part-upstream v.options v.local s,
  upstream_change_part-upstream v.local (local_node_part v.options v.local s).after,
)

module _ (p : Action → Bool) where
  pub then_part-Idle :
      (next : StandbyState → StandbyPart) (q : StandbyPart)
      → Idle p q
      → ((t : StandbyState) → IsGivenUp t → Idle p (next t))
      → Idle p (then_part next q)
  unfolding then_part Idle
  then_part-Idle next q i n =
      ground (arith, i, n q.after i.1, does-append p q.log (next q.after).log)

  rejoin_part-Idle :
      (v : StandbyView) (s : StandbyState)
      → IsGivenUp s
      → Idle p (rejoin_part v.options v.upstream s)
  unfolding Idle IsGivenUp
  rejoin_part-Idle v s g =
      (does-rejoin_part p v.options v.upstream s, rw (rejoin_part-daemon v.options v.upstream s) g)

  upstream_part-Idle :
      (v : StandbyView) (s : StandbyState)
      → Silent v
      → IsGivenUp s
      → Idle p (upstream_part v.options v.upstream s)
  unfolding Idle IsGivenUp upstream_part
  upstream_part-Idle v s h g = ground (arith, h.silent, g)

  pub standby_degraded-Idle :
      (v : StandbyView) (s : StandbyState)
      → Silent v
      → IsGivenUp s
      → Idle p (standby_degraded v.options v.upstream.world.reconnects v.degraded s)
  unfolding Idle IsGivenUp standby_degraded upstream_gone terminate
  standby_degraded-Idle v s h g =
      ground (
        arith,
        h.silent_later,
        h.not_promoted,
        g,
        look_for_none v.options v.degraded s h.no_sibling,
      )

  pub local_half-Idle : (v : StandbyView) (s : StandbyState) → IsGivenUp s → Idle p (local_half v s)
  unfolding Idle IsGivenUp
  local_half-Idle v s g = (does-local_half p v s, rw (local_half-upstream v s) g)

  standby_turn-Idle :
      (v : StandbyView) (s : StandbyState) → Silent v → IsGivenUp s → Idle p (standby_turn v s)
  unfolding standby_turn upstream_half IsGivenUp Idle
  standby_turn-Idle v s h g =
      let m = with_memory v s in
      let degraded = standby_degraded v.options v.upstream.world.reconnects v.degraded in
      let r = rejoin_part v.options v.upstream m in
      let u = then_part (upstream_part v.options v.upstream) r in
      then_part-Idle (local_half v) (upstream_half v m)
        (then_part-Idle degraded u
          (then_part-Idle (upstream_part v.options v.upstream) r (rejoin_part-Idle v m g)
            (λ t k. upstream_part-Idle v t h k))
          (λ t k. standby_degraded-Idle v t h k))
        (λ t k. local_half-Idle v t k)

  -- Once the loop of a standby has given its upstream node up, no turn takes an action of a
  -- failover, paused or not, as long as the upstream node does not answer, the local node is no
  -- primary, and none is found among the siblings.
  pub standby_run-idle :
      (vs : List StandbyView) (s : StandbyState)
      → All Silent vs
      → is_status_up s.daemon.upstream.node_status ≡ false
      → does p (standby_run vs s).log ≡ false
  unfolding standby_run Idle IsGivenUp
  standby_run-idle [] s a g = refl
  standby_run-idle (v ∷ vs) s a g =
      let (quiet, given_up) = standby_turn-Idle v s a.0 g in
      ground (
        arith,
        quiet,
        standby_run-idle vs (standby_turn v s).after a.1 given_up,
        does-append p (standby_turn v s).log (standby_run vs (standby_turn v s).after).log,
      )
