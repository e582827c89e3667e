-- ===== src/Bdr/Turn.antt =====
-- repmgrd-bdr.c `monitor_bdr`: one node in a turn of the loop.
use hg_repmgr.Base.{ℤ, ℕ, Bool, not, List, [], ◌∷◌, ◌++◌, if◌then◌else◌}
use hg_repmgr.Node.{MonitoringState, ms_normal, ms_degraded}
use hg_repmgr.Reconnect.{Attempt, try_reconnect}
use hg_repmgr.Monitoring.{is_status_up}
use hg_repmgr.Bdr.{
  BdrNode, BdrDeed, bdr_event, Database, BdrView, do_bdr_failover, RecoveryView, do_bdr_recovery,
}

-- What the turn finds of the node: does its server answer, the attempts to reconnect, and what the
-- failover and the recovery find.
pub record BdrTurn : Type 0 where
  pub available : Bool
  pub attempts : ℕ → Attempt
  pub failover : BdrView
  pub database : Database
  pub recovery : RecoveryView

pub record BdrOptions : Type 0 where
  pub reconnect_attempts : ℕ
  pub bdr_recovery_timeout : ℕ
  pub local_node_id : ℤ

pub record BdrStep : Type 0 where
  pub node : BdrNode
  pub log : List BdrDeed

abbrev pub bdr_step : BdrNode → List BdrDeed → BdrStep
bdr_step n log = record { node = n; log = log }

-- The node was up and is not.
unfoldable pub bdr_lost : BdrOptions → BdrTurn → List BdrNode → BdrNode → BdrStep
bdr_lost o t nodes n =
    let status = (try_reconnect o.reconnect_attempts t.attempts).node_status in
    let m = record n { info = record n.info { node_status = status } } in
    let f = do_bdr_failover t.failover o.local_node_id nodes m t.database in
    if is_status_up status
    then bdr_step m (bdr_event "bdr_reconnect" ∷ [])
    else bdr_step f.node f.log

-- The `switch`.
by_state : BdrOptions → BdrTurn → List BdrNode → BdrNode → MonitoringState → BdrStep
unfolding bdr_lost
by_state o t nodes n ms_normal =
    if not t.available
    then (if is_status_up n.info.node_status then bdr_lost o t nodes n else bdr_step n [])
    else bdr_step n []
by_state o t nodes n ms_degraded =
    let r = do_bdr_recovery o.bdr_recovery_timeout t.recovery o.local_node_id n in
    if t.available then bdr_step r.node r.log else bdr_step n []

unfoldable pub check_bdr_node : BdrOptions → BdrTurn → List BdrNode → BdrNode → BdrStep
unfolding by_state
check_bdr_node o t nodes n = by_state o t nodes n n.monitoring_state

-- The node in turns one after another, which other nodes do not change.
unfoldable pub bdr_run : BdrOptions → List BdrTurn → List BdrNode → BdrNode → BdrStep
unfolding check_bdr_node
bdr_run o [] nodes n = bdr_step n []
bdr_run o (t ∷ ts) nodes n =
    let s = check_bdr_node o t nodes n in
    let rest = bdr_run o ts nodes s.node in bdr_step rest.node (s.log ++ rest.log)
