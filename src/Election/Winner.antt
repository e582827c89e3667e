-- ===== src/Election/Winner.antt =====
-- When `do_election` returns WON, in the terms of its loop.
use hg_repmgr.Base.{
  ℤ, pos, negsuc, ℕ, ◌+◌, ◌*◌, ◌<◌, ◌<ℤ◌, true, false, List, [], ◌∷◌, some, ◌≡◌, ◌≢◌, ◌⊎◌, inl, inr,
  refl, arith, length, All, Bool-cases, Option-cases, eqb_ℤ→eq,
}
use hg_repmgr.Node.{NodeInfo, ReplInfo, invalid_lsn}
use hg_repmgr.Daemon.{Options, automatic, Daemon, won}
use hg_repmgr.Election.{Peer, View, Tally, Cell, is_sibling, get_active_sibling_node_records}
use hg_repmgr.Election.Vote.{
  Count, counted, visit_all, first_tally, with_lsn, decide, poll, with_siblings, do_election,
}
use hg_repmgr.Election.Loop.{reachable_count, Count-cases, visit_all_visible, visit_all_self}

abbrev pub siblings_of : View → Daemon → List Peer
siblings_of view d = get_active_sibling_node_records d.local.node_id d.upstream.node_id view.nodes

abbrev pub loop_of : Options → View → Daemon → ReplInfo → Count
loop_of opts view d r =
    visit_all opts d.upstream view.system r.last_wal_receive_lsn (siblings_of view d)
      (first_tally (with_lsn r.last_wal_receive_lsn d))

-- An election that was won against siblings: what the local node reports, and how the loop ended.
pub record Elected (opts : Options) (view : View) (d : Daemon) (r : ReplInfo) (t : Tally)
    : Type 0 where
  pub reported : view.replication ≡ some r
  pub in_location : t.primary_location_seen ≡ true
  pub unseen : (t.still_visible ≡ 0) ⊎ (opts.primary_visibility_consensus ≡ false)
  pub majority : length (siblings_of view d) + 1 < t.visible_nodes * 2
  pub chosen : t.candidate.node_id ≡ d.local.node_id

module _ (opts : Options) (view : View) (d : Daemon) where
  won_decide :
      (n : ℕ) (t : Tally) (cs : List Cell)
      → (decide opts view d n t cs).result ≡ won
      → (t.primary_location_seen ≡ true)
        × ((t.still_visible ≡ 0) ⊎ (opts.primary_visibility_consensus ≡ false))
        × (n < t.visible_nodes * 2)
        × (t.candidate.node_id ≡ d.local.node_id)
  unfolding decide
  won_decide n t cs h = (
    ground arith,
    ground arith,
    ground arith,
    ground (arith, eqb_ℤ→eq t.candidate.node_id d.local.node_id),
  )

pub won_poll :
    (opts : Options) (view : View) (d : Daemon) (r : ReplInfo)
    → view.replication ≡ some r
    → (poll opts view d (siblings_of view d) r).result ≡ won
    → (t : Tally) × (cs : List Cell) × (loop_of opts view d r ≡ counted t cs)
      × Elected opts view d r t
unfolding poll
won_poll opts view d r p h = elim (Count-cases (loop_of opts view d r)) [
  | inr (id, cs, e) ↦ absurd (ground arith)
  | inl (t, cs, e) ↦
      (let n = length (siblings_of view d) + 1 in
        let k : (decide opts view (with_lsn r.last_wal_receive_lsn d) n t cs).result ≡ won =
          ground arith in
        let (place, quiet, most, self) =
          won_decide opts view (with_lsn r.last_wal_receive_lsn d) n t cs k in
        (
          t,
          cs,
          e,
          record {
            reported = p;
            in_location = place;
            unseen = quiet;
            majority = most;
            chosen = self;
          },
        ))
]

-- The tests before the siblings are asked.
pub record IsOpen (opts : Options) (view : View) (d : Daemon) : Type 0 where
  pub term_known : view.electoral_term ≢ negsuc 0
  pub automatic_failover : opts.failover ≡ automatic
  pub promotable : pos 0 <ℤ d.local.priority

won-IsOpen :
    (opts : Options) (view : View) (d : Daemon)
    → (do_election opts view d).result ≡ won
    → IsOpen opts view d
unfolding do_election
won-IsOpen opts view d h = record {
  term_known = ground arith;
  automatic_failover = ground arith;
  promotable = ground arith;
}

pub won_after_tests :
    (opts : Options) (view : View) (d : Daemon)
    → (do_election opts view d).result ≡ won
    → (with_siblings opts view (with_lsn invalid_lsn d) (siblings_of view d)).result ≡ won
unfolding do_election
won_after_tests opts view d h = ground arith

won_poll_of_siblings :
    (opts : Options) (view : View) (d : Daemon) (ps : List Peer)
    → ps ≢ []
    → (with_siblings opts view d ps).result ≡ won
    → (r : ReplInfo) × (view.replication ≡ some r) × ((poll opts view d ps r).result ≡ won)
unfolding with_siblings
won_poll_of_siblings opts view d [] n h = absurd (n refl)
won_poll_of_siblings opts view d (p ∷ ps) n h = elim (Option-cases view.replication) [
  | inl e ↦ absurd (ground arith)
  | inr (r, e) ↦ (r, e, ground arith)
]

pub poll-with_lsn :
    (opts : Options) (view : View) (d : Daemon) (lsn : ℕ) (ps : List Peer) (r : ReplInfo)
    → poll opts view (with_lsn lsn d) ps r ≡ poll opts view d ps r
unfolding poll
poll-with_lsn opts view d lsn ps r = refl

pub won_with_siblings :
    (opts : Options) (view : View) (d : Daemon)
    → siblings_of view d ≢ []
    → (do_election opts view d).result ≡ won
    → (r : ReplInfo) × (view.replication ≡ some r)
      × ((poll opts view d (siblings_of view d) r).result ≡ won)
won_with_siblings opts view d n h =
    let (r, e, k) =
      won_poll_of_siblings opts view (with_lsn invalid_lsn d) (siblings_of view d) n
        (won_after_tests opts view d h) in
    (r, e, rw (poll-with_lsn opts view d invalid_lsn (siblings_of view d) r) at k)

-- A standby with siblings wins only if failover is automatic, the term known, and its priority
-- positive, and if the loop asked all siblings and found no primary, saw a node in the primary's
-- location (or the two locations are equal), counted no sibling that has lately seen the primary
-- (or consensus is not asked for), connected to more than half of all nodes, the standby itself
-- counted, and ended with the standby as its candidate.
pub do_election_won :
    (opts : Options) (view : View) (d : Daemon)
    → siblings_of view d ≢ []
    → (do_election opts view d).result ≡ won
    → IsOpen opts view d
      × ((r : ReplInfo) × (t : Tally) × (cs : List Cell) × (loop_of opts view d r ≡ counted t cs)
          × Elected opts view d r t
          × (t.visible_nodes ≡ 1 + reachable_count (siblings_of view d)))
do_election_won opts view d n h =
    let (r, p, k) = won_with_siblings opts view d n h in
    let (t, cs, e, v) = won_poll opts view d r p k in
    (
      won-IsOpen opts view d h,
      (
        r,
        t,
        cs,
        e,
        v,
        visit_all_visible opts d.upstream view.system r.last_wal_receive_lsn (siblings_of view d)
            (first_tally (with_lsn r.last_wal_receive_lsn d)) t cs e,
      ),
    )

sibling_differs :
    (node_id upstream_node_id : ℤ) (n : NodeInfo)
    → is_sibling node_id upstream_node_id n ≡ true
    → n.node_id ≢ node_id
unfolding is_sibling
sibling_differs node_id upstream_node_id n h = ground arith

siblings_differ :
    (node_id upstream_node_id : ℤ) (ps : List Peer)
    → All
        (λ p. p.info.node_id ≢ node_id)
        (get_active_sibling_node_records node_id upstream_node_id ps)
unfolding get_active_sibling_node_records
siblings_differ node_id upstream_node_id [] = tt
siblings_differ node_id upstream_node_id (p ∷ ps) =
    let rest = siblings_differ node_id upstream_node_id ps in
    elim (Bool-cases (is_sibling node_id upstream_node_id p.info)) [
      | inl e ↦ rw e (sibling_differs node_id upstream_node_id p.info e, rest)
      | inr e ↦ rw e rest
    ]

-- The candidate of an election that was won is the local node, with its LSN.
pub Elected-self :
    (opts : Options) (view : View) (d : Daemon) (r : ReplInfo) (t : Tally) (cs : List Cell)
    → loop_of opts view d r ≡ counted t cs
    → Elected opts view d r t
    → t.candidate ≡ (with_lsn r.last_wal_receive_lsn d).local
Elected-self opts view d r t cs e v =
    visit_all_self opts d.upstream view.system r.last_wal_receive_lsn (siblings_of view d)
      (first_tally (with_lsn r.last_wal_receive_lsn d)) t cs
      (with_lsn r.last_wal_receive_lsn d).local e
      (siblings_differ d.local.node_id d.upstream.node_id view.nodes) (inl refl) v.chosen
