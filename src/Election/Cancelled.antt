-- ===== src/Election/Cancelled.antt =====
-- `do_election`: what a cancelled election found, and the state that it leaves.
use hg_repmgr.Base.{
  ◌≢◌, ℤ, ℕ, ◌+◌, Bool, true, false, List, [], ◌∷◌, some, ◌≡◌, ◌⊎◌, inl, inr, arith, In, here,
  there, length, Option-cases, if◌then◌else◌,
}
use hg_repmgr.Node.{NodeInfo, ReplInfo, invalid_lsn}
use hg_repmgr.Follow.{LocalSystem, check_node_can_follow}
use hg_repmgr.Daemon.{Options, Daemon, cancelled, degrade, reset_node_voting_status}
use hg_repmgr.Election.{unknown_pid, Peer, View, Tally, Cell, visit, found}
use hg_repmgr.Election.Vote.{
  Outcome, primary_found, visit_all, first_tally, with_lsn, decide, poll, with_siblings,
  do_election, conclude,
}
use hg_repmgr.Election.Loop.{Visit-cases, Count-cases}
use hg_repmgr.Election.Seen.{visit_found}
use hg_repmgr.Election.Winner.{siblings_of}
use hg_repmgr.Node.{ms_degraded}
use hg_repmgr.Daemon.{state_none}
use hg_repmgr.SharedState.{Shared, unknown_node_id, reset_voting_status}
use hg_repmgr.Election.{execute_failover_validation_command}

-- A sibling that is a primary which the local node can follow.
pub record IsFollowable (system : LocalSystem) (local_lsn : ℕ) (p : Peer) (r : ReplInfo)
    : Type 0 where
  pub connects : p.reachable ≡ true
  pub runs : p.repmgrd_pid ≢ unknown_pid
  pub reports : p.replication ≡ some r
  pub promoted : r.in_recovery ≡ false
  pub attaches : check_node_can_follow system local_lsn p.target ≡ true

module _ (opts : Options) (upstream : NodeInfo) (system : LocalSystem) (local_lsn : ℕ) where
  visit-IsFollowable :
      (p : Peer) (t : Tally) (id : ℤ) (c : Cell)
      → visit opts upstream system local_lsn p t ≡ found id c
      → (r : ReplInfo) × IsFollowable system local_lsn p r × (p.info.node_id ≡ id)
  visit-IsFollowable p t id c h =
      let (r, a, k, f, g) = visit_found opts upstream system local_lsn p t id c h in
      (
        r,
        record {
          connects = a.connects;
          runs = a.runs;
          reports = a.reports;
          promoted = k;
          attaches = f;
        },
        g,
      )

  visit_all_found :
      (ps : List Peer) (t : Tally) (id : ℤ) (cs : List Cell)
      → visit_all opts upstream system local_lsn ps t ≡ primary_found id cs
      → (p : Peer) × (r : ReplInfo) × In p ps
        × IsFollowable system local_lsn p r
        × (p.info.node_id ≡ id)
  unfolding visit_all
  visit_all_found [] t id cs h = absurd (ground arith)
  visit_all_found (p ∷ ps) t id cs h =
      elim (Visit-cases (visit opts upstream system local_lsn p t)) [
        | inr (j, c, e) ↦
            (let (r, v, f) = visit-IsFollowable p t j c e in (p, r, here, v, ground arith))
        | inl (u, c, e) ↦ elim (Count-cases (visit_all opts upstream system local_lsn ps u)) [
          | inl (v, ds, f) ↦ absurd (ground arith)
          | inr (j, ds, f) ↦
              (let (q, r, i, v, g) = visit_all_found ps u j ds f in
                (q, r, there i, v, ground arith))
        ]
      ]

-- The state after a cancelled election that found no primary: degraded monitoring, no failover
-- under way, and, with a connection to the local server whose node ID is set, no notification
-- waiting there.
pub record IsCalledOff (conn_ok : Bool) (shared : Shared) (e : Daemon) : Type 0 where
  pub degraded : e.monitoring_state ≡ ms_degraded
  pub idle : e.failover_state ≡ state_none
  pub voting_reset : e.shared ≡ (if conn_ok then reset_voting_status shared else shared)

-- A cancelled election either names a sibling that is a primary which this node can follow from the
-- position that its own replication reports, or names none and was called off.
abbrev pub IsCancelled : View → Daemon → Outcome → Type 0
IsCancelled view d o =
    ((own : ReplInfo) × (p : Peer) × (r : ReplInfo) × (view.replication ≡ some own)
      × In p (siblings_of view d)
      × IsFollowable view.system own.last_wal_receive_lsn p r
      × (p.info.node_id ≡ o.new_primary_id))
    ⊎ (o.new_primary_id ≡ unknown_node_id) × IsCalledOff d.local_conn_ok d.shared o.daemon

decide_cancelled :
    (opts : Options) (view : View) (d : Daemon) (n : ℕ) (t : Tally) (cs : List Cell)
    → (decide opts view d n t cs).result ≡ cancelled
    → ((decide opts view d n t cs).new_primary_id ≡ unknown_node_id)
      × IsCalledOff d.local_conn_ok d.shared (decide opts view d n t cs).daemon
unfolding decide execute_failover_validation_command degrade reset_node_voting_status
decide_cancelled opts view d n t cs h = (ground arith, ground arith)

after_loop :
    (opts : Options) (view : View) (d : Daemon) (ps : List Peer) (r : ReplInfo)
    → (poll opts view d ps r).result ≡ cancelled
    → ((p : Peer) × (rp : ReplInfo) × In p ps
        × IsFollowable view.system r.last_wal_receive_lsn p rp
        × (p.info.node_id ≡ (poll opts view d ps r).new_primary_id))
      ⊎ ((poll opts view d ps r).new_primary_id ≡ unknown_node_id)
        × IsCalledOff d.local_conn_ok d.shared (poll opts view d ps r).daemon
unfolding poll
after_loop opts view d ps r h =
    let e = with_lsn r.last_wal_receive_lsn d in
    elim (Count-cases
      (visit_all opts d.upstream view.system r.last_wal_receive_lsn ps (first_tally e))) [
        | inr (id, cs, f) ↦
            (let (p, rp, i, v, g) =
                visit_all_found opts d.upstream view.system r.last_wal_receive_lsn ps
                  (first_tally e) id cs f in
              inl (p, rp, i, v, ground arith))
        | inl (t, cs, f) ↦
            inr
              (rw (f, conclude) (decide_cancelled opts view e (length ps + 1) t cs (ground arith)))
      ]

cancelled_poll :
    (opts : Options) (view : View) (d : Daemon) (ps : List Peer)
    → (with_siblings opts view d ps).result ≡ cancelled
    → (r : ReplInfo) × (view.replication ≡ some r)
      × (with_siblings opts view d ps ≡ poll opts view d ps r)
unfolding with_siblings execute_failover_validation_command
cancelled_poll opts view d [] h = absurd (ground arith)
cancelled_poll opts view d (p ∷ ps) h = elim (Option-cases view.replication) [
  | inl e ↦ absurd (ground arith)
  | inr (r, e) ↦ (r, e, ground arith)
]

cancelled_tests :
    (opts : Options) (view : View) (d : Daemon)
    → (do_election opts view d).result ≡ cancelled
    → do_election opts view d
      ≡ with_siblings opts view (with_lsn invalid_lsn d) (siblings_of view d)
unfolding do_election
cancelled_tests opts view d h = ground arith

-- A cancelled election either names the node ID of a sibling that it connected to, that has a running
-- repmgrd, is not in recovery, and that `check_node_can_follow` accepts from the position that the
-- local node's replication reports, or names none: then monitoring is degraded, no failover is under
-- way, and the voting status on the local server is reset if it is connected.
pub do_election_cancelled :
    (opts : Options) (view : View) (d : Daemon)
    → (do_election opts view d).result ≡ cancelled
    → IsCancelled view d (do_election opts view d)
do_election_cancelled opts view d h =
    let tests = cancelled_tests opts view d h in
    let e = with_lsn invalid_lsn d in
    let (r, own, polled) = cancelled_poll opts view e (siblings_of view d) (rw tests at h) in
    rw (tests, polled)
      (elim (after_loop opts view e (siblings_of view d) r (rw (tests, polled) at h)) [
        | inl (p, rp, i, v, g) ↦ inl (r, p, rp, own, i, v, g)
        | inr off ↦ inr off
      ])
