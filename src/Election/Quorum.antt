-- ===== src/Election/Quorum.antt =====
-- `do_election`: the majority. Two standbys that win have a node in common that both can reach.
use hg_repmgr.Base.{
  ℤ, ℕ, suc, ◌+◌, ◌*◌, ◌≤◌, ◌<◌, Bool, true, ◌&&◌, ◌||◌, List, [], ◌∷◌, map, ◌≡◌, ◌≢◌, refl, ap,
  arith, if◌then◌else◌, eqb_ℤ, length, In, here, there, All, Bool-cases, inl, inr,
}
use hg_repmgr.Node.{NodeInfo}
use hg_repmgr.Daemon.{Options, Daemon, won}
use hg_repmgr.Election.{Peer, View, get_active_sibling_node_records}
use hg_repmgr.Election.Vote.{do_election}
use hg_repmgr.Election.Loop.{reachable_count}
use hg_repmgr.Election.Winner.{siblings_of, do_election_won}

abbrev pub count {ℓ} : {A : Type ℓ} → (A → Bool) → List A → ℕ
count f [] = 0
count f (x ∷ xs) = let rest = count f xs in if f x then suc rest else rest

-- A standby that follows the node `up` actively.
abbrev pub is_member : ℤ → Peer → Bool
is_member up p = eqb_ℤ p.info.upstream_node_id up && p.info.active

abbrev pub is_self : ℤ → ℤ → Peer → Bool
is_self up id p = is_member up p && eqb_ℤ p.info.node_id id

-- A standby that node `id` counts as visible: itself, or one that it can connect to.
abbrev pub is_visible : ℤ → ℤ → Peer → Bool
is_visible up id p = is_member up p && (eqb_ℤ p.info.node_id id || p.reachable)

length-siblings :
    (up id : ℤ) (ps : List Peer)
    → length (get_active_sibling_node_records id up ps) + count (is_self up id) ps
      ≡ count (is_member up) ps
unfolding get_active_sibling_node_records
length-siblings up id [] = omega arith
length-siblings up id (p ∷ ps) = ground (arith, length-siblings up id ps)

reachable_count-siblings :
    (up id : ℤ) (ps : List Peer)
    → reachable_count (get_active_sibling_node_records id up ps) + count (is_self up id) ps
      ≡ count (is_visible up id) ps
unfolding get_active_sibling_node_records
reachable_count-siblings up id [] = omega arith
reachable_count-siblings up id (p ∷ ps) = ground (arith, reachable_count-siblings up id ps)

-- One row of the node table, as two standbys see it.
pub record Row : Type 0 where
  pub first : Peer
  pub second : Peer

abbrev pub firsts : List Row → List Peer
firsts = map (λ w. w.first)

abbrev pub seconds : List Row → List Peer
seconds = map (λ w. w.second)

-- Both standbys read the same record.
abbrev pub IsShared : Row → Type 0
IsShared w = w.first.info ≡ w.second.info

abbrev pub both_visible : ℤ → ℤ → ℤ → Row → Bool
both_visible up a b w = is_visible up a w.first && is_visible up b w.second

inclusion_exclusion :
    (up a b : ℤ) (ws : List Row)
    → All IsShared ws
    → count (is_visible up a) (firsts ws) + count (is_visible up b) (seconds ws)
      ≤ count (is_member up) (firsts ws) + count (both_visible up a b) ws
inclusion_exclusion up a b [] h = omega arith
inclusion_exclusion up a b (w ∷ ws) h = ground (
  arith,
  inclusion_exclusion up a b ws h.1,
  ap (λ (n : NodeInfo). eqb_ℤ n.upstream_node_id up && n.active) h.0,
)

same_members :
    (up : ℤ) (ws : List Row)
    → All IsShared ws
    → count (is_member up) (seconds ws) ≡ count (is_member up) (firsts ws)
same_members up [] h = refl
same_members up (w ∷ ws) h = ground (
  arith,
  same_members up ws h.1,
  ap (λ (n : NodeInfo). eqb_ℤ n.upstream_node_id up && n.active) h.0,
)

count_pos {ℓ} :
    {A : Type ℓ} (f : A → Bool) (xs : List A) → 0 < count f xs → (x : A) × In x xs × (f x ≡ true)
count_pos f [] h = absurd (omega arith)
count_pos f (x ∷ xs) h = elim (Bool-cases (f x)) [
  | inl e ↦ (x, here, e)
  | inr e ↦ (let (y, i, k) = count_pos f xs (rw e at h) in (y, there i, k))
]

module _ (opts : Options) (view : View) (d : Daemon) where
  -- A winner reaches more than half of the members, itself counted.
  winner_majority :
      siblings_of view d ≢ []
      → count (is_self d.upstream.node_id d.local.node_id) view.nodes ≡ 1
      → (do_election opts view d).result ≡ won
      → count (is_member d.upstream.node_id) view.nodes
        < count (is_visible d.upstream.node_id d.local.node_id) view.nodes * 2
  winner_majority n u h =
      let (gates, ending) = do_election_won opts view d n h in
      let (r, t, cs, loop, v, seen) = ending in
      omega (
        arith,
        v.majority,
        seen,
        u,
        length-siblings d.upstream.node_id d.local.node_id view.nodes,
        reachable_count-siblings d.upstream.node_id d.local.node_id view.nodes,
      )

-- The majority excludes a split: if two standbys of one primary both win, reading the same node
-- table (in which each has one active record) but reaching different nodes of it, then there is a
-- node that each of them reaches or is.
pub winners_overlap :
    (rows : List Row) (opts opts' : Options) (view view' : View) (d d' : Daemon)
    → All IsShared rows
    → view.nodes ≡ firsts rows
    → view'.nodes ≡ seconds rows
    → d'.upstream.node_id ≡ d.upstream.node_id
    → siblings_of view d ≢ []
    → siblings_of view' d' ≢ []
    → count (is_self d.upstream.node_id d.local.node_id) view.nodes ≡ 1
    → count (is_self d'.upstream.node_id d'.local.node_id) view'.nodes ≡ 1
    → (do_election opts view d).result ≡ won
    → (do_election opts' view' d').result ≡ won
    → (w : Row) × In w rows
      × (both_visible d.upstream.node_id d.local.node_id d'.local.node_id w ≡ true)
winners_overlap rows opts opts' view view' d d' s e e' up n n' u u' h h' =
    let root = d.upstream.node_id in
    let a = d.local.node_id in
    let b = d'.local.node_id in
    let m : count (is_member root) (firsts rows) < count (is_visible root a) (firsts rows) * 2 =
      rw e at (winner_majority opts view d n u h) in
    let m' : count (is_member root) (seconds rows) < count (is_visible root b) (seconds rows) * 2 =
      rw (up, e') at (winner_majority opts' view' d' n' u' h') in
    count_pos (both_visible root a b) rows
      (omega (arith, m, m', inclusion_exclusion root a b rows s, same_members root rows s))
