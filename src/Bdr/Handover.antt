-- ===== src/Bdr/Handover.antt =====
-- `do_bdr_failover`: two repmgrds that see the same node fail, and a node that is back too early.
use mathlib.Core.Path.{subst}
use hg_repmgr.Base.{
  not, ℤ, Bool, true, false, List, [], ◌∷◌, Option, none, some, ◌≡◌, refl, arith, eqb_ℤ, eqb_ℤ_refl,
}
use hg_repmgr.Node.{ms_normal}
use hg_repmgr.SharedState.{am_bdr_failover_handler}
use hg_repmgr.Reconnect.{try_reconnect}
use hg_repmgr.Monitoring.{is_status_up}
use hg_repmgr.Bdr.{
  is_inactive, do_bdr_recovery, ms_degraded, BdrNode, BdrDeed, set_node_active,
  use_finished_connection, Database, BdrView, ask_next_node, do_bdr_failover, handle_failover,
  on_next_node, find_next_node,
}
use hg_repmgr.Bdr.Turn.{BdrOptions, BdrTurn, bdr_lost, check_bdr_node, bdr_run}

-- A node that is normal by its monitoring and down by its status.
IsForgotten : BdrNode → Type 0
IsForgotten n = (n.monitoring_state ≡ ms_normal) × (is_status_up n.info.node_status ≡ false)

check_bdr_node-IsForgotten :
    (o : BdrOptions) (t : BdrTurn) (nodes : List BdrNode) (n : BdrNode)
    → IsForgotten n
    → ((check_bdr_node o t nodes n).node ≡ n) × ((check_bdr_node o t nodes n).log ≡ [])
unfolding check_bdr_node IsForgotten
check_bdr_node-IsForgotten o t nodes n (m, u) = ground (arith, m, u)

bdr_run-IsForgotten :
    (o : BdrOptions) (ts : List BdrTurn) (nodes : List BdrNode) (n : BdrNode)
    → IsForgotten n
    → (bdr_run o ts nodes n).log ≡ []
unfolding bdr_run
bdr_run-IsForgotten o [] nodes n f = refl
bdr_run-IsForgotten o (t ∷ ts) nodes n f =
    let (same, quiet) = check_bdr_node-IsForgotten o t nodes n f in
    ground
      (arith, quiet, bdr_run-IsForgotten o ts nodes (check_bdr_node o t nodes n).node (rw same f))

-- A connection is used after it was finished.
abbrev pub reused : List BdrDeed → Bool
reused [] = false
reused (use_finished_connection ∷ ds) = true
reused (_ ∷ ds) = reused ds

reused-handle_failover :
    (v : BdrView) (n : BdrNode) (keeps : Bool) (db : Database)
    → reused (handle_failover v n keeps db).log ≡ true
    → ((handle_failover v n keeps db).node.monitoring_state ≡ ms_normal)
      × ((handle_failover v n keeps db).node.info ≡ n.info)
unfolding handle_failover
reused-handle_failover v n keeps db h = ground (arith, h)

reused-ask_next_node :
    (v : BdrView) (local_id : ℤ) (n : BdrNode) (keeps : Bool) (db : Database)
    → reused (ask_next_node v local_id n keeps db).log ≡ true
    → ((ask_next_node v local_id n keeps db).node.monitoring_state ≡ ms_normal)
      × ((ask_next_node v local_id n keeps db).node.info ≡ n.info)
unfolding ask_next_node
reused-ask_next_node v local_id n keeps db h =
    let shared = (am_bdr_failover_handler (some local_id) db.shared).0 in
    ground (arith, h, reused-handle_failover v n keeps (record db { shared = shared }))

reused-on_next_node :
    (v : BdrView) (local_id : ℤ) (n : BdrNode) (keeps : Bool) (db : Database) (next : Option ℤ)
    → reused (on_next_node v local_id n keeps db next).log ≡ true
    → ((on_next_node v local_id n keeps db next).node.monitoring_state ≡ ms_normal)
      × ((on_next_node v local_id n keeps db next).node.info ≡ n.info)
unfolding on_next_node
reused-on_next_node v local_id n keeps db none h = absurd (ground (arith, h))
reused-on_next_node v local_id n keeps db (some next) h =
    reused-ask_next_node v local_id n keeps db h

reused-check_bdr_node :
    (o : BdrOptions) (t : BdrTurn) (nodes : List BdrNode) (n : BdrNode)
    → reused (check_bdr_node o t nodes n).log ≡ true
    → IsForgotten (check_bdr_node o t nodes n).node
unfolding check_bdr_node bdr_lost do_bdr_failover do_bdr_recovery IsForgotten
reused-check_bdr_node o t nodes n h =
    let status = (try_reconnect o.reconnect_attempts t.attempts).node_status in
    let m = record n {
      info = record n.info { node_status = status };
      monitoring_state = ms_degraded;
    } in
    ground (
      arith,
      h,
      reused-on_next_node t.failover o.local_node_id m (not (eqb_ℤ m.info.node_id o.local_node_id))
          t.database (find_next_node t.failover m.info.node_id nodes),
    )

-- If a failover finds that the failed node is back, and so uses the connection that it has just
-- finished, then that node is never looked after again: no later turn does anything for it, whether
-- its server answers or not.
pub reappeared_forgotten :
    (o : BdrOptions) (t : BdrTurn) (ts : List BdrTurn) (nodes : List BdrNode) (n : BdrNode)
    → reused (check_bdr_node o t nodes n).log ≡ true
    → (bdr_run o ts nodes (check_bdr_node o t nodes n).node).log ≡ []
reappeared_forgotten o t ts nodes n h =
    bdr_run-IsForgotten o ts nodes (check_bdr_node o t nodes n).node
      (reused-check_bdr_node o t nodes n h)

-- The database says that the node is inactive.
abbrev pub is_done : ℤ → Database → Bool
is_done id db = is_inactive (db.active id)

abbrev pub sets_inactive : List BdrDeed → Bool
sets_inactive [] = false
sets_inactive (set_node_active id false ∷ ds) = true
sets_inactive (_ ∷ ds) = sets_inactive ds

handed-ask_next_node :
    (v : BdrView) (local_id : ℤ) (n : BdrNode) (keeps : Bool) (db : Database)
    → v.update_ok ≡ true
    → db.active n.info.node_id ≡ some true
    → sets_inactive (ask_next_node v local_id n keeps db).log ≡ true
    → is_done n.info.node_id (ask_next_node v local_id n keeps db).database ≡ true
unfolding ask_next_node handle_failover
handed-ask_next_node v local_id n keeps db u a h =
    ground (arith, h, u, a, eqb_ℤ_refl n.info.node_id)

handed-on_next_node :
    (v : BdrView) (local_id : ℤ) (n : BdrNode) (keeps : Bool) (db : Database) (next : Option ℤ)
    → v.update_ok ≡ true
    → db.active n.info.node_id ≡ some true
    → sets_inactive (on_next_node v local_id n keeps db next).log ≡ true
    → is_done n.info.node_id (on_next_node v local_id n keeps db next).database ≡ true
unfolding on_next_node
handed-on_next_node v local_id n keeps db none u a h = absurd (ground (arith, h))
handed-on_next_node v local_id n keeps db (some next) u a h =
    handed-ask_next_node v local_id n keeps db u a h

done-on_next_node :
    (v : BdrView) (local_id : ℤ) (n : BdrNode) (keeps : Bool) (db : Database) (next : Option ℤ)
    → is_done n.info.node_id db ≡ true
    → (on_next_node v local_id n keeps db next).log ≡ []
unfolding on_next_node ask_next_node
done-on_next_node v local_id n keeps db none h = refl
done-on_next_node v local_id n keeps db (some next) h = ground (arith, h)

-- Of two failovers of one node on the same database, in which the node is active and its record can
-- be updated, only the first does anything: once it has set the failed node inactive, the second, by
-- any repmgrd, sets nothing and writes no event.
pub handed_over_once :
    (v v' : BdrView) (a b : ℤ) (nodes nodes' : List BdrNode) (n n' : BdrNode) (db : Database)
    → n.info.node_id ≡ n'.info.node_id
    → v.update_ok ≡ true
    → db.active n.info.node_id ≡ some true
    → sets_inactive (do_bdr_failover v a nodes n db).log ≡ true
    → (do_bdr_failover v' b nodes' n' (do_bdr_failover v a nodes n db).database).log ≡ []
unfolding do_bdr_failover
handed_over_once v v' a b nodes nodes' n n' db e u k h =
    let m = record n { monitoring_state = ms_degraded } in
    let m' = record n' { monitoring_state = ms_degraded } in
    let keeps = not (eqb_ℤ n.info.node_id a) in
    let next = find_next_node v n.info.node_id nodes in
    done-on_next_node v' b m' (not (eqb_ℤ n'.info.node_id b))
      (on_next_node v a m keeps db next).database (find_next_node v' n'.info.node_id nodes')
      (subst (λ i. is_done i (on_next_node v a m keeps db next).database ≡ true) e
        (handed-on_next_node v a m keeps db next u k h))
