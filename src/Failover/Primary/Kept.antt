-- ===== src/Failover/Primary/Kept.antt =====
-- `do_election` and `check_connection`: the upstream's record and the local node's ID stay.
use hg_repmgr.Base.{ℕ, List, [], ◌∷◌, ◌≡◌, inl, inr, refl, arith, Option-cases, ◌∙◌}
use hg_repmgr.Daemon.{Options, Daemon, degrade, reset_node_voting_status}
use hg_repmgr.Node.{ReplInfo, invalid_lsn}
use hg_repmgr.Election.{Cell, View, Tally, Peer}
use hg_repmgr.Election.Winner.{siblings_of}
use hg_repmgr.Election.Vote.{
  do_election, with_siblings, poll, conclude, decide, with_lsn, Count, counted, primary_found,
}
use hg_repmgr.Failover.{ConnView, check_connection}
use hg_repmgr.Failover.Primary.{World}
use hg_repmgr.Failover.Primary.Safety.{election_of}

-- A step keeps the record of the upstream and the local node's ID.
abbrev pub Keeps : Daemon → Daemon → Type 0
Keeps d e = (e.upstream ≡ d.upstream) × (e.local.node_id ≡ d.local.node_id)

decide-Keeps :
    (opts : Options) (view : View) (d : Daemon) (n : ℕ) (t : Tally) (cs : List Cell)
    → Keeps d (decide opts view d n t cs).daemon
unfolding decide degrade reset_node_voting_status
decide-Keeps opts view d n t cs = (ground arith, ground arith)

conclude-Keeps :
    (opts : Options) (view : View) (d : Daemon) (n : ℕ) (c : Count)
    → Keeps d (conclude opts view d n c).daemon
unfolding conclude
conclude-Keeps opts view d n (counted t cs) = decide-Keeps opts view d n t cs
conclude-Keeps opts view d n (primary_found id cs) = (refl, refl)

poll-Keeps :
    (opts : Options) (view : View) (d : Daemon) (ps : List Peer) (r : ReplInfo)
    → Keeps d (poll opts view d ps r).daemon
unfolding poll
poll-Keeps opts view d ps r = conclude-Keeps opts view (with_lsn r.last_wal_receive_lsn d) _ _

with_siblings-Keeps :
    (opts : Options) (view : View) (d : Daemon) (ps : List Peer)
    → Keeps d (with_siblings opts view d ps).daemon
unfolding with_siblings degrade
with_siblings-Keeps opts view d [] = (ground arith, ground arith)
with_siblings-Keeps opts view d (p ∷ ps) = elim (Option-cases view.replication) [
  | inl e ↦ (ground arith, ground arith)
  | inr (r, e) ↦ (let k = poll-Keeps opts view d (p ∷ ps) r in (ground arith, ground arith))
]

pub do_election-Keeps :
    (opts : Options) (view : View) (d : Daemon) → Keeps d (do_election opts view d).daemon
unfolding do_election
do_election-Keeps opts view d =
    let k = with_siblings-Keeps opts view (with_lsn invalid_lsn d) (siblings_of view d) in
    (ground arith, ground arith)

pub check_connection-Keeps :
    (opts : Options) (v : ConnView) (d : Daemon) → Keeps d (check_connection opts v d)
unfolding check_connection
check_connection-Keeps opts v d = (ground arith, ground arith)

pub election_of-Keeps :
    (opts : Options) (w : World) (d : Daemon) → Keeps d (election_of opts w d).daemon
election_of-Keeps opts w d =
    let (u, n) = do_election-Keeps opts w.election (check_connection opts w.conn d) in
    let (v, m) = check_connection-Keeps opts w.conn d in (u ∙ v, n ∙ m)
