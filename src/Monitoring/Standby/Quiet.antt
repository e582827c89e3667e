-- ===== src/Monitoring/Standby/Quiet.antt =====
-- `monitor_streaming_standby`: the parts of a turn that take no action of a failover.
use hg_repmgr.Base.{ℤ, Bool, true, false, List, [], ◌∷◌, Option, map, ◌≡◌, ◌⊎◌, inl, inr, arith}
use hg_repmgr.Failover.{notify_followers, Action}
use hg_repmgr.Failover.Primary.Safety.{promotes}
use hg_repmgr.Failover.Cascade.{CascadeView, Pair, do_upstream_standby_failover, follow_primary}
use hg_repmgr.Monitoring.{
  failover_action, refresh_node_record, get_node_record, MonitorOptions, node_rejoin, falls,
}
use hg_repmgr.Monitoring.Deeds.{does, does-append}
use hg_repmgr.Monitoring.Rejoin.{StatusOption, clean_up}
use hg_repmgr.Monitoring.Standby.{
  upstream_part, with_daemon, StandbyState, StandbyPart, UpstreamView, rejoin_part,
}
use hg_repmgr.Monitoring.Standby.Local.{LocalView, local_node_part, upstream_change_part}
use hg_repmgr.Monitoring.Standby.Turn.{
  with_memory, standby_turn, upstream_half, StandbyView, then_part, local_half,
}
use hg_repmgr.Monitoring.Standby.Degraded.{
  upstream_back, look_for_primary, promoted_late, local_promoted, upstream_gone, standby_degraded,
  DegradedView,
}
use hg_repmgr.Election.{Cell, get_active_sibling_node_records}
use hg_repmgr.Election.Vote.{untouched}
use hg_repmgr.Node.{NodeInfo}

does-clean_up : (p : Action → Bool) (os : Option (List StatusOption)) → does p (clean_up os) ≡ false
unfolding clean_up
does-clean_up p os = ground arith

pub does-rejoin_part :
    (p : Action → Bool) (mo : MonitorOptions) (v : UpstreamView) (s : StandbyState)
    → does p (rejoin_part mo v s).log ≡ false
unfolding rejoin_part
does-rejoin_part p mo v s = ground (
  arith,
  does-clean_up p v.node_status,
  does-append p (clean_up v.node_status) (node_rejoin s.daemon.upstream.node_id ∷ []),
  does-append p (clean_up v.node_status) [],
)

-- What a part did, or the part after it.
pub then_part-does :
    (p : Action → Bool) (next : StandbyState → StandbyPart) (q : StandbyPart)
    → does p (then_part next q).log ≡ true
    → (does p q.log ≡ true) ⊎ (q.flow ≡ falls) × (does p (next q.after).log ≡ true)
unfolding then_part
then_part-does p next q h = ground (arith, does-append p q.log (next q.after).log)

does-local_node_part :
    (p : Action → Bool) (mo : MonitorOptions) (v : LocalView) (s : StandbyState)
    → does p (local_node_part mo v s).log ≡ false
unfolding local_node_part
does-local_node_part p mo v s = ground arith

does-upstream_change_part :
    (p : Action → Bool) (v : LocalView) (s : StandbyState)
    → does p (upstream_change_part v s).log ≡ false
unfolding upstream_change_part
does-upstream_change_part p v s = ground arith

pub does-local_half :
    (p : Action → Bool) (v : StandbyView) (s : StandbyState) → does p (local_half v s).log ≡ false
unfolding local_half
does-local_half p v s = ground (
  arith,
  does-local_node_part p v.options v.local s,
  then_part-does p (upstream_change_part v.local) (local_node_part v.options v.local s),
  does-upstream_change_part p v.local (local_node_part v.options v.local s).after,
)

promotes-follow_primary :
    (mo : MonitorOptions) (v : CascadeView) (id : ℤ) (p : Pair)
    → promotes (follow_primary mo.failover_options v id p).log ≡ false
unfolding follow_primary
promotes-follow_primary mo v id p = ground arith

-- The failover of a cascaded standby promotes no node.
pub promotes-cascade :
    (mo : MonitorOptions) (v : CascadeView) (p : Pair)
    → promotes (do_upstream_standby_failover mo.failover_options v p).log ≡ false
unfolding do_upstream_standby_failover
promotes-cascade mo v p = ground (arith, promotes-follow_primary mo v)

-- The look for another primary takes no such action, whatever the local record is.
abbrev pub LooksQuietly : (Action → Bool) → MonitorOptions → DegradedView → StandbyState → Type 0
LooksQuietly p mo v s =
    (n : NodeInfo)
    → does p (look_for_primary mo v (with_daemon s (record s.daemon { local = n }))).log ≡ false

-- No notice is such an action.
abbrev pub NotifiesQuietly : (Action → Bool) → Type 0
NotifiesQuietly p =
    (reconnects : ℤ → Bool) (cs : List Cell) (id : ℤ)
    → does p (map failover_action (notify_followers reconnects cs id)) ≡ false

module _ (p : Action → Bool) (mo : MonitorOptions) (reconnects : ℤ → Bool) (v : DegradedView) where
  does-local_promoted :
      (s : StandbyState)
      → NotifiesQuietly p
      → LooksQuietly p mo v s
      → does p (local_promoted mo reconnects v s).log ≡ false
  unfolding local_promoted promoted_late
  does-local_promoted s n l =
      let local = get_node_record v.own_record s.daemon.local in
      let siblings =
        get_active_sibling_node_records local.node_id s.daemon.local.upstream_node_id v.nodes in
      ground (
        arith,
        l (refresh_node_record v.own_refreshed s.daemon.local),
        n reconnects (map untouched siblings) local.node_id,
      )

  does-upstream_gone :
      (s : StandbyState)
      → NotifiesQuietly p
      → LooksQuietly p mo v s
      → does p (upstream_gone mo reconnects v s).log ≡ false
  unfolding upstream_gone
  does-upstream_gone s n l = ground (arith, does-local_promoted s n l, l s.daemon.local)

  pub does-standby_degraded :
      (s : StandbyState)
      → NotifiesQuietly p
      → LooksQuietly p mo v s
      → does p (standby_degraded mo reconnects v s).log ≡ false
  unfolding standby_degraded upstream_back
  does-standby_degraded s n l = ground (arith, does-upstream_gone s n l)

pub rejoin_part-falls :
    (mo : MonitorOptions) (v : UpstreamView) (s : StandbyState) → (rejoin_part mo v s).flow ≡ falls
unfolding rejoin_part
rejoin_part-falls mo v s = ground arith

pub rejoin_part-daemon :
    (mo : MonitorOptions) (v : UpstreamView) (s : StandbyState)
    → (rejoin_part mo v s).after.daemon ≡ s.daemon
unfolding rejoin_part
rejoin_part-daemon mo v s = ground arith

-- The state and the part at the check of the upstream node.
abbrev pub at_upstream : StandbyView → StandbyState → StandbyPart
at_upstream v s = upstream_part v.options v.upstream (rejoin_part v.options v.upstream s).after

then_part-falls :
    (next : StandbyState → StandbyPart) (q : StandbyPart)
    → q.flow ≡ falls
    → ((then_part next q).flow ≡ (next q.after).flow)
      × ((then_part next q).after ≡ (next q.after).after)
unfolding then_part
then_part-falls next q h = ground arith

-- An action is taken by the check of the upstream node, or in degraded monitoring after it.
pub upstream_half-does :
    (p : Action → Bool) (v : StandbyView) (s : StandbyState)
    → does p (upstream_half v s).log ≡ true
    → (does p (at_upstream v s).log ≡ true)
      ⊎ ((at_upstream v s).flow ≡ falls)
        × (does p
              (standby_degraded v.options v.upstream.world.reconnects v.degraded
                (at_upstream v s).after).log
            ≡ true)
unfolding upstream_half
upstream_half-does p v s h =
    let r = rejoin_part v.options v.upstream s in
    let q = then_part (upstream_part v.options v.upstream) r in
    let degraded = standby_degraded v.options v.upstream.world.reconnects v.degraded in
    let (flow, after) =
      then_part-falls (upstream_part v.options v.upstream) r
        (rejoin_part-falls v.options v.upstream s) in
    elim (then_part-does p degraded q h) [
      | inl k ↦ elim (then_part-does p (upstream_part v.options v.upstream) r k) [
        | inl n ↦ absurd (ground (arith, n, does-rejoin_part p v.options v.upstream s))
        | inr (_, n) ↦ inl n
      ]
      | inr (f, k) ↦ inr (rw flow at f, rw after at k)
    ]

-- No other part of a turn takes an action.
pub standby_turn-does :
    (p : Action → Bool) (v : StandbyView) (s : StandbyState)
    → does p (standby_turn v s).log ≡ true
    → does p (upstream_half v (with_memory v s)).log ≡ true
unfolding standby_turn
standby_turn-does p v s h =
    elim (then_part-does p (local_half v) (upstream_half v (with_memory v s)) h) [
      | inl k ↦ k
      | inr (_, k) ↦
          absurd (ground (arith, k, does-local_half p v (upstream_half v (with_memory v s)).after))
    ]
