-- ===== src/Election/Vote.antt =====
-- repmgrd-physical.c `do_election`: the loop over the siblings, and the whole function.
use hg_repmgr.Base.{
  ℤ, pos, negsuc, ℕ, ◌+◌, ◌*◌, Bool, true, false, ◌&&◌, not, List, [], ◌∷◌, Option, none, some,
  if◌then◌else◌, ltb, leb, leb_ℤ, eqb_ℤ, str_eq, length, map,
}
use hg_repmgr.Node.{NodeInfo, ReplInfo, invalid_lsn}
use hg_repmgr.SharedState.{unknown_node_id}
use hg_repmgr.Follow.{LocalSystem}
use hg_repmgr.Daemon.{
  Options, manual, automatic, FailoverMode, Daemon, ElectionResult, not_candidate, won, lost,
  cancelled, degrade, reset_node_voting_status,
}
use hg_repmgr.Election.{
  Peer, View, Cell, Tally, next, found, visit, get_active_sibling_node_records,
  execute_failover_validation_command,
}

-- A sibling that the loop did not come to.
abbrev pub untouched : Peer → Cell
untouched p = record { info = p.info; connected = false }

pub data Count : Type 0 where
  counted : Tally → List Cell → Count
  primary_found : ℤ → List Cell → Count

abbrev pub prepend : Cell → Count → Count
prepend c (counted t cs) = counted t (c ∷ cs)
prepend c (primary_found id cs) = primary_found id (c ∷ cs)

unfoldable pub visit_all : Options → NodeInfo → LocalSystem → ℕ → List Peer → Tally → Count
visit_all opts upstream system local_lsn [] t = counted t []
visit_all opts upstream system local_lsn (p ∷ ps) t =
    elim (visit opts upstream system local_lsn p t) [
      | next t' c ↦ prepend c (visit_all opts upstream system local_lsn ps t')
      | found id c ↦ primary_found id (c ∷ map untouched ps)
    ]

-- The state and the results of the election: `new_primary_id` is -1 unless the function sets it.
pub record Outcome : Type 0 where
  pub daemon : Daemon
  pub result : ElectionResult
  pub new_primary_id : ℤ
  pub siblings : List Cell

abbrev pub without_primary : Daemon → ElectionResult → List Cell → Outcome
without_primary d r cs = record {
  daemon = d;
  result = r;
  new_primary_id = unknown_node_id;
  siblings = cs;
}

abbrev pub is_empty : List ℕ → Bool
is_empty [] = true
is_empty (c ∷ cs) = false

validate : Options → View → NodeInfo → ElectionResult
validate opts view n =
    if is_empty opts.failover_validation_command
    then won
    else execute_failover_validation_command opts view.run_command n

give_up : Daemon → List Cell → Outcome
give_up d cs = without_primary (reset_node_voting_status (degrade d)) cancelled cs

-- After the loop: location, consensus and majority, then the candidate. `visible <= total / 2.0`
-- is `2 * visible <= total`.
unfoldable pub decide : Options → View → Daemon → ℕ → Tally → List Cell → Outcome
unfolding validate give_up
decide opts view d total_nodes t cs =
    if not t.primary_location_seen
    then give_up d cs
    else if ltb 0 t.still_visible && opts.primary_visibility_consensus
    then give_up d cs
    else if leb (t.visible_nodes * 2) total_nodes
    then give_up d cs
    else if eqb_ℤ t.candidate.node_id d.local.node_id
    then without_primary d (validate opts view t.candidate) cs
    else without_primary d lost cs

unfoldable pub conclude : Options → View → Daemon → ℕ → Count → Outcome
conclude opts view d total_nodes (counted t cs) = decide opts view d total_nodes t cs
conclude opts view d total_nodes (primary_found id cs) = record {
  daemon = d;
  result = cancelled;
  new_primary_id = id;
  siblings = cs;
}

-- The variables before the loop: this node is visible, and the first candidate.
abbrev pub first_tally : Daemon → Tally
first_tally d = record {
  candidate = d.local;
  visible_nodes = 1;
  primary_location_seen = str_eq d.upstream.location d.local.location;
  still_visible = 0;
}

abbrev pub with_lsn : ℕ → Daemon → Daemon
with_lsn lsn d = record d { local = record d.local { last_wal_receive_lsn = lsn } }

unfoldable pub poll : Options → View → Daemon → List Peer → ReplInfo → Outcome
unfolding conclude
poll opts view d siblings r =
    let e = with_lsn r.last_wal_receive_lsn d in
    conclude opts view e (length siblings + 1)
      (visit_all opts d.upstream view.system r.last_wal_receive_lsn siblings (first_tally e))

-- With siblings: the local replication, and the replay resumed where it is paused.
poll_if_ready : Options → View → Daemon → List Peer → Option ReplInfo → Outcome
poll_if_ready opts view d siblings none = without_primary d lost (map untouched siblings)
poll_if_ready opts view d siblings (some r) =
    if r.wal_replay_paused && not view.resumed
    then without_primary d lost (map untouched siblings)
    else poll opts view d siblings r

alone : Options → View → Daemon → Outcome
unfolding validate
alone opts view d =
    if str_eq d.upstream.location d.local.location
    then without_primary d (validate opts view d.local) []
    else without_primary (degrade d) not_candidate []

unfoldable pub with_siblings : Options → View → Daemon → List Peer → Outcome
unfolding alone poll_if_ready
with_siblings opts view d [] = alone opts view d
with_siblings opts view d (p ∷ ps) = poll_if_ready opts view d (p ∷ ps) view.replication

abbrev pub is_manual : FailoverMode → Bool
is_manual manual = true
is_manual automatic = false

unfoldable pub do_election : Options → View → Daemon → Outcome
do_election opts view d =
    if eqb_ℤ view.electoral_term (negsuc 0)
    then without_primary d not_candidate []
    else if is_manual opts.failover
    then without_primary d not_candidate []
    else if leb_ℤ d.local.priority (pos 0)
    then without_primary d lost []
    else with_siblings opts view (with_lsn invalid_lsn d)
        (get_active_sibling_node_records d.local.node_id d.upstream.node_id view.nodes)
