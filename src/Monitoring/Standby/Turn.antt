-- ===== src/Monitoring/Standby/Turn.antt =====
-- repmgrd-physical.c `monitor_streaming_standby`: a whole turn of the loop, and turns one after
-- another. Lines that only log, and the monitoring statistics, are left out.
use hg_repmgr.Base.{List, [], ◌∷◌, ◌++◌, if◌then◌else◌}
use hg_repmgr.SharedState.{Shared}
use hg_repmgr.Monitoring.{Deed, MonitorOptions, Flow, falls, landed, goes_on}
use hg_repmgr.Monitoring.Standby.{
  StandbyState, StandbyPart, UpstreamView, rejoin_part, upstream_part, with_daemon,
}
use hg_repmgr.Monitoring.Standby.Degraded.{DegradedView, standby_degraded}
use hg_repmgr.Monitoring.Standby.Local.{LocalView, local_node_part, upstream_change_part}

-- What a turn finds; `memory` is what other processes did to the local server's shared memory since
-- the turn before, a pause or a restart.
pub record StandbyView : Type 0 where
  pub memory : Shared → Shared
  pub options : MonitorOptions
  pub upstream : UpstreamView
  pub degraded : DegradedView
  pub local : LocalView

abbrev pub after_log : List Deed → StandbyPart → StandbyPart
after_log log p = record p { log = log ++ p.log }

on_fall : (StandbyState → StandbyPart) → StandbyPart → Flow → StandbyPart
on_fall next p falls = after_log p.log (next p.after)
on_fall next p f = p

-- The next part, if this one falls through.
unfoldable pub then_part : (StandbyState → StandbyPart) → StandbyPart → StandbyPart
unfolding on_fall
then_part next p = on_fall next p p.flow

abbrev pub at_loop_label : StandbyPart → StandbyPart
at_loop_label p = record p { flow = landed p.flow }

abbrev pub with_memory : StandbyView → StandbyState → StandbyState
with_memory v s = with_daemon s (record s.daemon { shared = v.memory s.daemon.shared })

-- From the check of the upstream node to the label `loop`.
unfoldable pub upstream_half : StandbyView → StandbyState → StandbyPart
unfolding then_part
upstream_half v s = at_loop_label (
    then_part (standby_degraded v.options v.upstream.world.reconnects v.degraded)
      (then_part (upstream_part v.options v.upstream) (rejoin_part v.options v.upstream s)))

-- From `loop` to the end.
unfoldable pub local_half : StandbyView → StandbyState → StandbyPart
unfolding then_part
local_half v s = then_part (upstream_change_part v.local) (local_node_part v.options v.local s)

unfoldable pub standby_turn : StandbyView → StandbyState → StandbyPart
unfolding then_part upstream_half local_half
standby_turn v s = then_part (local_half v) (upstream_half v (with_memory v s))

-- Turns one after another, up to one that does not end with `falls`.
unfoldable pub standby_run : List StandbyView → StandbyState → StandbyPart
unfolding standby_turn
standby_run [] s = record { flow = falls; after = s; log = [] }
standby_run (v ∷ vs) s =
    let p = standby_turn v s in
    let rest = standby_run vs p.after in if goes_on p.flow then after_log p.log rest else p
