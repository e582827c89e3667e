-- ===== src/Election.antt =====
-- repmgrd-physical.c `do_election`: is this standby the one to promote?
pub mod Vote
pub mod Ranking
pub mod Loop
pub mod Seen
pub mod Winner
pub mod Outcomes
pub mod Wins
pub mod Cancelled
pub mod Quorum
pub mod Safety
use Prim.Native.String.{String}
use hg_repmgr.Base.{
  ℤ, pos, negsuc, ℕ, suc, ◌+◌, ◌*◌, Bool, true, false, ◌&&◌, not, List, [], ◌∷◌, Option, none, some,
  if◌then◌else◌, ltb, leb, ◌==◌, ltb_ℤ, leb_ℤ, eqb_ℤ, double_ℤ, str_eq, length, codes,
}
use hg_repmgr.Node.{
  NodeInfo, ReplInfo, ServerType, unknown, primary, standby, witness, bdr, status_unknown,
  status_up, invalid_lsn,
}
use hg_repmgr.SharedState.{unknown_node_id, unknown_pid}
use hg_repmgr.Follow.{Target, LocalSystem, check_node_can_follow}
use hg_repmgr.Template.{parse_failover_validation_command}
use hg_repmgr.Daemon.{
  Options, manual, automatic, FailoverMode, Daemon, ElectionResult, not_candidate, won, lost,
  cancelled, rerun, degrade, reset_node_voting_status,
}

-- A row of `repmgr.nodes`, with what this node finds when it asks that node: can it connect, which
-- pid has its repmgrd, how far is its replication, and what would following it take.
pub record Peer : Type 0 where
  pub info : NodeInfo
  pub reachable : Bool
  pub repmgrd_pid : ℤ
  pub replication : Option ReplInfo
  pub target : Target

-- What the election reads besides: the term, the rows of the table in order of node ID, the local
-- node's replication and whether its replay could be resumed, its system, and the exit status of a
-- command (-1 where it could not be run).
pub record View : Type 0 where
  pub electoral_term : ℤ
  pub nodes : List Peer
  pub replication : Option ReplInfo
  pub resumed : Bool
  pub system : LocalSystem
  pub run_command : List ℕ → ℤ

-- A cell of `sibling_nodes`: the record as the election leaves it, and whether it is connected.
pub record Cell : Type 0 where
  pub info : NodeInfo
  pub connected : Bool

is_sibling : ℤ → ℤ → NodeInfo → Bool
is_sibling node_id upstream_node_id n =
    eqb_ℤ n.upstream_node_id upstream_node_id && not (eqb_ℤ n.node_id node_id) && n.active

-- The query's WHERE clause; its ORDER BY is the order of `nodes`.
unfoldable pub get_active_sibling_node_records : ℤ → ℤ → List Peer → List Peer
unfolding is_sibling
get_active_sibling_node_records node_id upstream_node_id [] = []
get_active_sibling_node_records node_id upstream_node_id (p ∷ ps) =
    let rest = get_active_sibling_node_records node_id upstream_node_id ps in
    if is_sibling node_id upstream_node_id p.info then p ∷ rest else rest

unfoldable pub execute_failover_validation_command :
    Options → (List ℕ → ℤ) → NodeInfo → ElectionResult
execute_failover_validation_command opts run_command n =
    let command =
      parse_failover_validation_command n.node_id (codes n.node_name)
        opts.failover_validation_command in
    if eqb_ℤ (run_command command) (pos 0) then won else rerun

-- The variables of the loop.
pub record Tally : Type 0 where
  pub candidate : NodeInfo
  pub visible_nodes : ℕ
  pub primary_location_seen : Bool
  pub still_visible : ℕ

-- Higher LSN, then higher priority, then lower node ID.
unfoldable pub better : NodeInfo → NodeInfo → NodeInfo
better n candidate =
    if ltb candidate.last_wal_receive_lsn n.last_wal_receive_lsn
    then n
    else if n.last_wal_receive_lsn == candidate.last_wal_receive_lsn
    then (if ltb_ℤ candidate.priority n.priority
        then n
        else if eqb_ℤ n.priority candidate.priority
        then (if ltb_ℤ n.node_id candidate.node_id then n else candidate)
        else candidate)
    else candidate

-- How the body of the loop ends: with the next sibling, or with a primary to follow.
pub data Visit : Type 0 where
  next : Tally → Cell → Visit
  found : ℤ → Cell → Visit

is_witness : ServerType → Bool
is_witness witness = true
is_witness _ = false

saw_primary : Options → ReplInfo → Bool
saw_primary opts r =
    leb_ℤ (pos 0) r.upstream_last_seen
    && ltb_ℤ r.upstream_last_seen (double_ℤ opts.monitor_interval_secs)

-- From the check whether the sibling has seen the primary on: `n` has status UP.
weigh : Options → NodeInfo → ReplInfo → Tally → Visit
unfolding is_witness saw_primary
weigh opts n r t =
    let t' = record t {
      still_visible = if saw_primary opts r then suc t.still_visible else t.still_visible;
    } in
    let m = record n { last_wal_receive_lsn = r.last_wal_receive_lsn } in
    if is_witness n.type
    then next t' (record { info = n; connected = true })
    else if leb_ℤ n.priority (pos 0)
    then next t' (record { info = n; connected = true })
    else next (record t' { candidate = better m t.candidate })
        (record { info = m; connected = true })

-- From the replication query on.
interrogate : Options → LocalSystem → ℕ → Peer → NodeInfo → Tally → Option ReplInfo → Visit
unfolding weigh
interrogate opts system local_lsn p n t none = next t (record { info = n; connected = true })
interrogate opts system local_lsn p n t (some r) =
    if r.in_recovery
    then weigh opts n r t
    else if check_node_can_follow system local_lsn p.target
    then found n.node_id (record { info = n; connected = true })
    else next t (record { info = n; connected = true })

-- The body of the loop over the siblings.
unfoldable pub visit : Options → NodeInfo → LocalSystem → ℕ → Peer → Tally → Visit
unfolding interrogate
visit opts upstream system local_lsn p t =
    let n = record p.info { node_status = status_up } in
    let t' = record t {
      visible_nodes = suc t.visible_nodes;
      primary_location_seen =
          if t.primary_location_seen then true else str_eq p.info.location upstream.location;
    } in
    if not p.reachable
    then next t
        (record { info = record p.info { node_status = status_unknown }; connected = false })
    else if eqb_ℤ p.repmgrd_pid unknown_pid
    then next t' (record { info = n; connected = true })
    else interrogate opts system local_lsn p n t' p.replication
