-- ===== src/Bdr.antt =====
-- repmgrd-bdr.c: what a repmgrd of a BDR cluster does when one of the nodes fails, and when it is
-- back.
pub mod Turn
pub mod Handover
use hg_repmgr.Base.{
  ℤ, ℕ, zero, suc, Bool, true, false, ◌&&◌, ◌||◌, not, List, [], ◌∷◌, ◌++◌, Option, none, some,
  eqb_ℤ, if◌then◌else◌, String,
}
use hg_repmgr.Node.{NodeInfo, NodeStatus, status_up, MonitoringState, ms_normal, ms_degraded}
use hg_repmgr.SharedState.{Shared, am_bdr_failover_handler, unset_bdr_failover_handler}

-- A node of the list, with `monitoring_state`, which only BDR uses.
pub record BdrNode : Type 0 where
  pub info : NodeInfo
  pub monitoring_state : MonitoringState

-- What is written to a node's database, and one step that has no meaning in C: the use of a
-- connection after PQfinish.
pub data BdrDeed : Type 0 where
  set_node_active : ℤ → Bool → BdrDeed
  bdr_event : String → BdrDeed
  use_finished_connection : BdrDeed

-- The other node: its shared memory, and its table of nodes, which has the records of the cluster
-- with their `active` flags.
pub record Database : Type 0 where
  pub shared : Shared
  pub active : ℤ → Option Bool

-- What a failover finds: which nodes can be connected to, which of them have their own record, and
-- whether the failed node answers at the end and its record can be updated.
pub record BdrView : Type 0 where
  pub connects : ℤ → Bool
  pub has_record : ℤ → Bool
  pub reappears : Bool
  pub update_ok : Bool

-- After it: the monitored node, whether the local connection is kept, the other node's database,
-- and what was done.
pub record BdrFailover : Type 0 where
  pub node : BdrNode
  pub keeps_local_conn : Bool
  pub database : Database
  pub log : List BdrDeed

-- The loop that looks for another node.
unfoldable pub find_next_node : BdrView → ℤ → List BdrNode → Option ℤ
find_next_node v failed [] = none
find_next_node v failed (n ∷ ns) =
    let rest = find_next_node v failed ns in
    let id = n.info.node_id in
    if eqb_ℤ id failed then rest else if v.connects id && v.has_record id then some id else rest

abbrev pub failed_over : BdrNode → Bool → Database → List BdrDeed → BdrFailover
failed_over n keeps db log = record { node = n; keeps_local_conn = keeps; database = db; log = log }

-- An UPDATE changes the record of the node, if there is one.
abbrev pub set_flag : Bool → Option Bool → Option Bool
set_flag b none = none
set_flag b (some old) = some b

abbrev pub set_active_flag : ℤ → Bool → Database → Database
set_active_flag id b db = record db {
  active = λ i. if eqb_ℤ i id then set_flag b (db.active i) else db.active i;
}

-- The handler goes on if the failed node has answered again, over a connection that it has
-- finished.
unfoldable pub handle_failover : BdrView → BdrNode → Bool → Database → BdrFailover
handle_failover v n keeps db =
    let id = n.info.node_id in
    let db' = if v.update_ok then set_active_flag id false db else db in
    if v.reappears
    then failed_over (record n { monitoring_state = ms_normal }) keeps db
        (use_finished_connection ∷ [])
    else failed_over n keeps (record db' { shared = unset_bdr_failover_handler db.shared })
        (set_node_active id false ∷ bdr_event "bdr_failover" ∷ [])

abbrev pub is_inactive : Option Bool → Bool
is_inactive (some false) = true
is_inactive _ = false

abbrev pub is_true : Option Bool → Bool
is_true (some true) = true
is_true _ = false

-- With another node: has it already been told, and is this repmgrd the handler?
unfoldable pub ask_next_node : BdrView → ℤ → BdrNode → Bool → Database → BdrFailover
unfolding handle_failover
ask_next_node v local_id n keeps db =
    let (shared, answer) = am_bdr_failover_handler (some local_id) db.shared in
    if is_inactive (db.active n.info.node_id)
    then failed_over n keeps db []
    else if not (is_true answer)
    then failed_over n keeps (record db { shared = shared }) []
    else handle_failover v n keeps (record db { shared = shared })

unfoldable pub on_next_node : BdrView → ℤ → BdrNode → Bool → Database → Option ℤ → BdrFailover
unfolding ask_next_node
on_next_node v local_id n keeps db none = failed_over n keeps db []
on_next_node v local_id n keeps db (some next) = ask_next_node v local_id n keeps db

-- `database` is that of the node that the loop finds.
unfoldable pub do_bdr_failover : BdrView → ℤ → List BdrNode → BdrNode → Database → BdrFailover
unfolding find_next_node on_next_node
do_bdr_failover v local_id nodes monitored database =
    let n = record monitored { monitoring_state = ms_degraded } in
    on_next_node v local_id n (not (eqb_ℤ n.info.node_id local_id)) database
      (find_next_node v n.info.node_id nodes)

-- What a recovery finds: is the node connected; is the local connection up, or made again; and in
-- which second its replication slot is active.
pub record RecoveryView : Type 0 where
  pub node_connects : Bool
  pub local_conn_ok : Bool
  pub local_reconnects : Bool
  pub slot_active : ℕ → Bool

pub record BdrRecovery : Type 0 where
  pub node : BdrNode
  pub log : List BdrDeed

abbrev pub recovered : BdrNode → List BdrDeed → BdrRecovery
recovered n log = record { node = n; log = log }

-- The loop over `bdr_recovery_timeout` seconds.
unfoldable pub slot_within : ℕ → (ℕ → Bool) → ℕ → Bool
slot_within zero slot i = false
slot_within (suc left) slot i =
    let rest = slot_within left slot (suc i) in if slot i then true else rest

abbrev pub up_again : BdrNode → BdrNode
up_again n = record n { info = record n.info { node_status = status_up } }

unfoldable pub do_bdr_recovery : ℕ → RecoveryView → ℤ → BdrNode → BdrRecovery
unfolding slot_within
do_bdr_recovery bdr_recovery_timeout v local_id n =
    let normal = record (up_again n) { monitoring_state = ms_normal } in
    if not v.node_connects
    then recovered n []
    else if not (v.local_conn_ok || v.local_reconnects)
    then recovered normal []
    else if not (slot_within bdr_recovery_timeout v.slot_active 0)
    then recovered (up_again n) []
    else if eqb_ℤ n.info.node_id local_id
    then recovered normal []
    else recovered normal (bdr_event "bdr_recovery" ∷ set_node_active n.info.node_id true ∷ [])
