-- ===== src/Election/Seen.antt =====
-- What `do_election` has seen of the primary by the end of its loop over the siblings: a node in its
-- location, siblings that saw it lately, and no sibling that is a primary to follow.
use hg_repmgr.Base.{
  ℤ, pos, ℕ, ◌<ℤ◌, ◌≤ℤ◌, true, false, List, [], ◌∷◌, some, ◌≡◌, ◌≢◌, ◌⊎◌, inl, inr, refl, arith,
  double_ℤ, In, here, there, All, Bool-cases, Option-cases, str_eq,
}
use hg_repmgr.Node.{NodeInfo, ReplInfo}
use hg_repmgr.SharedState.{unknown_pid}
use hg_repmgr.Follow.{LocalSystem, check_node_can_follow}
use hg_repmgr.Daemon.{Options}
use hg_repmgr.Election.{Peer, Tally, Cell, next, found, visit}
use hg_repmgr.Election.Vote.{counted, visit_all}
use hg_repmgr.Election.Loop.{Visit-cases, visit_all_cons, visit_all_done}

-- A sibling that is connected and in the location.
pub record IsIn (upstream : NodeInfo) (p : Peer) : Type 0 where
  pub connects : p.reachable ≡ true
  pub same_location : str_eq p.info.location upstream.location ≡ true

-- A sibling that answers: connected, with a running repmgrd and its replication.
pub record Answers (p : Peer) (r : ReplInfo) : Type 0 where
  pub connects : p.reachable ≡ true
  pub runs : p.repmgrd_pid ≢ unknown_pid
  pub reports : p.replication ≡ some r

-- It has not seen its upstream node at all, or not within two monitoring intervals.
pub record Unseen (opts : Options) (r : ReplInfo) : Type 0 where
  pub not_lately :
      (r.upstream_last_seen <ℤ pos 0)
      ⊎ (double_ℤ opts.monitor_interval_secs ≤ℤ r.upstream_last_seen)

-- A sibling that answers and is in recovery has not seen it.
abbrev pub HasNotSeen : Options → Peer → Type 0
HasNotSeen opts p = (r : ReplInfo) → Answers p r → r.in_recovery ≡ true → Unseen opts r

-- The node cannot follow a sibling that answers and is not in recovery.
abbrev pub IsNoPrimary : LocalSystem → ℕ → Peer → Type 0
IsNoPrimary system local_lsn p =
    (r : ReplInfo)
    → Answers p r
    → r.in_recovery ≡ false
    → check_node_can_follow system local_lsn p.target ≡ false

module _ (opts : Options) (upstream : NodeInfo) (system : LocalSystem) (local_lsn : ℕ) where
  visit_location :
      (p : Peer) (t t' : Tally) (c : Cell)
      → visit opts upstream system local_lsn p t ≡ next t' c
      → t'.primary_location_seen ≡ true
      → (t.primary_location_seen ≡ true) ⊎ IsIn upstream p
  unfolding visit
  visit_location p t t' c h k = elim (Bool-cases t.primary_location_seen) [
    | inl e ↦ inl e
    | inr e ↦ inr (record { connects = ground arith; same_location = ground arith })
  ]

  visit_unseen :
      (p : Peer) (t t' : Tally) (c : Cell)
      → visit opts upstream system local_lsn p t ≡ next t' c
      → t'.still_visible ≡ 0
      → (t.still_visible ≡ 0) × HasNotSeen opts p
  unfolding visit
  visit_unseen p t t' c h k = (
    ground arith,
    λ r a e. record { not_lately = ground (arith, h, k, a.connects, a.runs, a.reports, e) },
  )

  visit-IsNoPrimary :
      (p : Peer) (t t' : Tally) (c : Cell)
      → visit opts upstream system local_lsn p t ≡ next t' c
      → IsNoPrimary system local_lsn p
  unfolding visit
  visit-IsNoPrimary p t t' c h r a e = ground (arith, h, a.connects, a.runs, a.reports, e)

  pub visit_all_location :
      (ps : List Peer) (t t' : Tally) (cs : List Cell)
      → visit_all opts upstream system local_lsn ps t ≡ counted t' cs
      → t'.primary_location_seen ≡ true
      → (t.primary_location_seen ≡ true) ⊎ ((p : Peer) × In p ps × IsIn upstream p)
  visit_all_location [] t t' cs h k =
      inl (rw (visit_all_done opts upstream system local_lsn t t' cs h) k)
  visit_all_location (p ∷ ps) t t' cs h k =
      let (u, c, ds, v, w) = visit_all_cons opts upstream system local_lsn p ps t t' cs h in
      elim (visit_all_location ps u t' ds w k) [
        | inr (q, i, x) ↦ inr (q, there i, x)
        | inl e ↦ elim (visit_location p t u c v e) [ inl f ↦ inl f | inr x ↦ inr (p, here, x) ]
      ]

  pub visit_all_unseen :
      (ps : List Peer) (t t' : Tally) (cs : List Cell)
      → visit_all opts upstream system local_lsn ps t ≡ counted t' cs
      → t'.still_visible ≡ 0
      → (t.still_visible ≡ 0) × All (HasNotSeen opts) ps
  visit_all_unseen [] t t' cs h k =
      (rw (visit_all_done opts upstream system local_lsn t t' cs h) k, tt)
  visit_all_unseen (p ∷ ps) t t' cs h k =
      let (u, c, ds, v, w) = visit_all_cons opts upstream system local_lsn p ps t t' cs h in
      let (zero_u, rest) = visit_all_unseen ps u t' ds w k in
      let (zero_t, one) = visit_unseen p t u c v zero_u in (zero_t, (one, rest))

  pub visit_all-IsNoPrimary :
      (ps : List Peer) (t t' : Tally) (cs : List Cell)
      → visit_all opts upstream system local_lsn ps t ≡ counted t' cs
      → All (IsNoPrimary system local_lsn) ps
  visit_all-IsNoPrimary [] t t' cs h = tt
  visit_all-IsNoPrimary (p ∷ ps) t t' cs h =
      let (u, c, ds, v, w) = visit_all_cons opts upstream system local_lsn p ps t t' cs h in
      (visit-IsNoPrimary p t u c v, visit_all-IsNoPrimary ps u t' ds w)

-- Conversely, for a loop over siblings of which none is a primary to follow.
module _ (opts : Options) (upstream : NodeInfo) (system : LocalSystem) (local_lsn : ℕ) where
  location_visited :
      (p : Peer) (t t' : Tally) (c : Cell)
      → visit opts upstream system local_lsn p t ≡ next t' c
      → (t.primary_location_seen ≡ true) ⊎ IsIn upstream p
      → t'.primary_location_seen ≡ true
  unfolding visit
  location_visited p t t' c h (inl e) = ground (arith, h, e)
  location_visited p t t' c h (inr x) = ground (arith, h, x.connects, x.same_location)

  pub location_seen :
      (ps : List Peer) (t t' : Tally) (cs : List Cell)
      → visit_all opts upstream system local_lsn ps t ≡ counted t' cs
      → (t.primary_location_seen ≡ true) ⊎ ((p : Peer) × In p ps × IsIn upstream p)
      → t'.primary_location_seen ≡ true
  location_seen [] t t' cs h (inl e) =
      rw (visit_all_done opts upstream system local_lsn t t' cs h) at e
  location_seen [] t t' cs h (inr (p, i, x)) = elim i [ ]
  location_seen (p ∷ ps) t t' cs h k =
      let (u, c, ds, v, w) = visit_all_cons opts upstream system local_lsn p ps t t' cs h in
      location_seen ps u t' ds w (elim k [
        | inl e ↦ inl (location_visited p t u c v (inl e))
        | inr (q, i, x) ↦ by_place p ps q i x u (λ y. location_visited p t u c v (inr y))
      ])
    where
      by_place :
          (p : Peer) (ps : List Peer) (q : Peer)
          → In q (p ∷ ps)
          → IsIn upstream q
          → (u : Tally) → (IsIn upstream p → u.primary_location_seen ≡ true)
          → (u.primary_location_seen ≡ true) ⊎ ((q : Peer) × In q ps × IsIn upstream q)
      by_place p ps q here x u f = inl (f x)
      by_place p ps q (there i) x u f = inr (q, i, x)

  unseen_visited :
      (p : Peer) (t t' : Tally) (c : Cell)
      → visit opts upstream system local_lsn p t ≡ next t' c
      → HasNotSeen opts p
      → t.still_visible ≡ 0
      → t'.still_visible ≡ 0
  unfolding visit
  unseen_visited p t t' c h n z = elim (Option-cases p.replication) [
    | inl e ↦ ground (arith, h, e, z)
    | inr (r, e) ↦
        (let late : p.reachable ≡ true
              → p.repmgrd_pid ≢ unknown_pid
              → r.in_recovery ≡ true
              → (r.upstream_last_seen <ℤ pos 0)
                ⊎ (double_ℤ opts.monitor_interval_secs ≤ℤ r.upstream_last_seen) =
            λ a b k. (n r (record { connects = a; runs = b; reports = e }) k).not_lately in
          ground (arith, h, e, z, late))
  ]

  pub none_seen :
      (ps : List Peer) (t t' : Tally) (cs : List Cell)
      → visit_all opts upstream system local_lsn ps t ≡ counted t' cs
      → All (HasNotSeen opts) ps
      → t.still_visible ≡ 0
      → t'.still_visible ≡ 0
  none_seen [] t t' cs h a z = rw (visit_all_done opts upstream system local_lsn t t' cs h) at z
  none_seen (p ∷ ps) t t' cs h a z =
      let (u, c, ds, v, w) = visit_all_cons opts upstream system local_lsn p ps t t' cs h in
      none_seen ps u t' ds w a.1 (unseen_visited p t u c v a.0 z)

  pub visit_found :
      (p : Peer) (t : Tally) (id : ℤ) (c : Cell)
      → visit opts upstream system local_lsn p t ≡ found id c
      → (r : ReplInfo) × Answers p r
        × (r.in_recovery ≡ false)
        × (check_node_can_follow system local_lsn p.target ≡ true)
        × (p.info.node_id ≡ id)
  unfolding visit
  visit_found p t id c h = elim (Option-cases p.replication) [
    | inl e ↦ absurd (ground arith)
    | inr (r, e) ↦ (
      r,
      record { connects = ground arith; runs = ground arith; reports = e },
      ground arith,
      ground arith,
      ground arith,
    )
  ]

  not_found :
      (p : Peer) (t : Tally)
      → IsNoPrimary system local_lsn p
      → (u : Tally) × (c : Cell) × (visit opts upstream system local_lsn p t ≡ next u c)
  not_found p t n = elim (Visit-cases (visit opts upstream system local_lsn p t)) [
    | inl x ↦ x
    | inr (id, c, e) ↦
        (let (r, a, k, f, g) = visit_found p t id c e in
          let no = n r a k in absurd (ground (arith, f, no)))
  ]

  pub counted-IsNoPrimary :
      (ps : List Peer) (t : Tally)
      → All (IsNoPrimary system local_lsn) ps
      → (u : Tally) × (cs : List Cell) × (visit_all opts upstream system local_lsn ps t
          ≡ counted u cs)
  unfolding visit_all
  counted-IsNoPrimary [] t a = (t, [], refl)
  counted-IsNoPrimary (p ∷ ps) t a =
      let (u, c, e) = not_found p t a.0 in
      let (v, cs, f) = counted-IsNoPrimary ps u a.1 in (v, c ∷ cs, ground (arith, e, f))
