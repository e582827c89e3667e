-- ===== src/Election/Loop.antt =====
-- What the loop over the siblings counts, and which candidate it ends with.
use hg_repmgr.Base.{
  ℤ, pos, ℕ, suc, ◌+◌, ◌<ℤ◌, Bool, true, false, List, [], ◌∷◌, Option, none, some, ◌≡◌, ◌≢◌, ◌⊎◌,
  inl, inr, refl, arith, sym, ap, ◌&&◌, not, eqb_ℤ, ltb_ℤ, Option-cases, if◌then◌else◌, In, here,
  there, ◌∙◌, All,
}
use hg_repmgr.Node.{NodeInfo, ReplInfo, ServerType, status_up, witness}
use hg_repmgr.SharedState.{unknown_pid}
use hg_repmgr.Follow.{LocalSystem}
use hg_repmgr.Daemon.{Options}
use hg_repmgr.Election.{Peer, Tally, Visit, Cell, next, found, visit, better}
use hg_repmgr.Election.Vote.{Count, counted, primary_found, visit_all}
use hg_repmgr.Election.Ranking.{
  RanksAtLeast, RanksAtLeast-refl, RanksAtLeast-trans, better_ranks, better_either,
}

-- A sibling that the election considers: connected, with a running repmgrd, in recovery with
-- replication `r`, no witness, and of a positive priority.
pub record IsRival (p : Peer) (r : ReplInfo) : Type 0 where
  pub connects : p.reachable ≡ true
  pub runs : p.repmgrd_pid ≢ unknown_pid
  pub reports : p.replication ≡ some r
  pub recovers : r.in_recovery ≡ true
  pub stores : p.info.type ≢ witness
  pub eligible : pos 0 <ℤ p.info.priority

-- The record that stands for a rival.
abbrev pub as_candidate : Peer → ReplInfo → NodeInfo
as_candidate p r = record p.info {
  node_status = status_up;
  last_wal_receive_lsn = r.last_wal_receive_lsn;
}

abbrev pub reachable_count : List Peer → ℕ
reachable_count [] = 0
reachable_count (p ∷ ps) = let rest = reachable_count ps in if p.reachable then suc rest else rest

pub Visit-cases :
    (v : Visit)
    → ((u : Tally) × (c : Cell) × (v ≡ next u c)) ⊎ ((id : ℤ) × (c : Cell) × (v ≡ found id c))
Visit-cases (next u c) = inl (u, c, refl)
Visit-cases (found id c) = inr (id, c, refl)

pub Count-cases :
    (n : Count)
    → ((t : Tally) × (cs : List Cell) × (n ≡ counted t cs))
      ⊎ ((id : ℤ) × (cs : List Cell) × (n ≡ primary_found id cs))
Count-cases (counted t cs) = inl (t, cs, refl)
Count-cases (primary_found id cs) = inr (id, cs, refl)

is_stored : ServerType → Bool
is_stored witness = false
is_stored _ = true

-- The replication of a sibling that the election considers.
pub rival : Peer → Option ReplInfo
unfolding is_stored
rival p =
    if p.reachable && not (eqb_ℤ p.repmgrd_pid unknown_pid)
    then (elim p.replication [
      | none ↦ none
      | some r ↦
          if r.in_recovery && is_stored p.info.type && ltb_ℤ (pos 0) p.info.priority
          then some r
          else none
    ])
    else none

pub IsRival_of_rival : (p : Peer) (r : ReplInfo) → rival p ≡ some r → IsRival p r
unfolding rival
IsRival_of_rival p r h = record {
  connects = ground arith;
  runs = ground arith;
  reports = ground arith;
  recovers = ground arith;
  stores = ground arith;
  eligible = ground arith;
}

rival_of_IsRival : (p : Peer) (r : ReplInfo) → IsRival p r → rival p ≡ some r
unfolding rival
rival_of_IsRival p r v = ground arith

pub challenge : Peer → Option ReplInfo → NodeInfo → NodeInfo
challenge p none candidate = candidate
challenge p (some r) candidate = better (as_candidate p r) candidate

challenge_keeps :
    (p : Peer) (o : Option ReplInfo) (candidate : NodeInfo)
    → RanksAtLeast (challenge p o candidate) candidate
unfolding challenge
challenge_keeps p none candidate = RanksAtLeast-refl candidate
challenge_keeps p (some r) candidate = (better_ranks (as_candidate p r) candidate).1

-- The candidate after a sibling is the one before, or the sibling as a rival.
pub better_either_candidate :
    (p : Peer) (candidate : NodeInfo)
    → (challenge p (rival p) candidate ≡ candidate)
      ⊎ ((r : ReplInfo) × IsRival p r × (challenge p (rival p) candidate ≡ as_candidate p r))
unfolding challenge
better_either_candidate p candidate = elim (Option-cases (rival p)) [
  | inl e ↦ inl (rw e)
  | inr (r, e) ↦ elim (better_either (as_candidate p r) candidate) [
    | inl f ↦ inr (r, IsRival_of_rival p r e, rw e f)
    | inr f ↦ inl (rw e f)
  ]
]

pub challenge_self :
    (p : Peer) (o : Option ReplInfo) (candidate first : NodeInfo)
    → p.info.node_id ≢ first.node_id
    → (candidate ≡ first) ⊎ (candidate.node_id ≢ first.node_id)
    → (challenge p o candidate ≡ first) ⊎ ((challenge p o candidate).node_id ≢ first.node_id)
unfolding challenge
challenge_self p none candidate first h s = s
challenge_self p (some r) candidate first h s = elim (better_either (as_candidate p r) candidate) [
  | inl e ↦ inr (rw e h)
  | inr e ↦ rw e s
]

module _ (opts : Options) (upstream : NodeInfo) (system : LocalSystem) (local_lsn : ℕ) where
  visit_visible :
      (p : Peer) (t t' : Tally) (c : Cell)
      → visit opts upstream system local_lsn p t ≡ next t' c
      → t'.visible_nodes ≡ (if p.reachable then suc t.visible_nodes else t.visible_nodes)
  unfolding visit
  visit_visible p t t' c h = ground arith

  pub visit_candidate :
      (p : Peer) (t t' : Tally) (c : Cell)
      → visit opts upstream system local_lsn p t ≡ next t' c
      → t'.candidate ≡ challenge p (rival p) t.candidate
  unfolding visit challenge rival
  visit_candidate p t t' c h = ground arith

  pub visit_all_cons :
      (p : Peer) (ps : List Peer) (t t' : Tally) (cs : List Cell)
      → visit_all opts upstream system local_lsn (p ∷ ps) t ≡ counted t' cs
      → (u : Tally) × (c : Cell) × (ds : List Cell) × (visit opts upstream system local_lsn p t
          ≡ next u c)
        × (visit_all opts upstream system local_lsn ps u ≡ counted t' ds)
  unfolding visit_all
  visit_all_cons p ps t t' cs h = elim (Visit-cases (visit opts upstream system local_lsn p t)) [
    | inr (id, c, e) ↦ absurd (ground arith)
    | inl (u, c, e) ↦ elim (Count-cases (visit_all opts upstream system local_lsn ps u)) [
      | inr (id, ds, f) ↦ absurd (ground arith)
      | inl (v, ds, f) ↦ (u, c, ds, e, ground arith)
    ]
  ]

  pub visit_all_done :
      (t t' : Tally) (cs : List Cell)
      → visit_all opts upstream system local_lsn [] t ≡ counted t' cs
      → t ≡ t'
  unfolding visit_all
  visit_all_done t t' cs h = cc

  -- The loop counts the siblings that it can connect to.
  pub visit_all_visible :
      (ps : List Peer) (t t' : Tally) (cs : List Cell)
      → visit_all opts upstream system local_lsn ps t ≡ counted t' cs
      → t'.visible_nodes ≡ t.visible_nodes + reachable_count ps
  visit_all_visible [] t t' cs h = ground (arith, visit_all_done t t' cs h)
  visit_all_visible (p ∷ ps) t t' cs h =
      let (u, c, ds, v, w) = visit_all_cons p ps t t' cs h in
      ground (arith, visit_visible p t u c v, visit_all_visible ps u t' ds w)

  -- The candidate only ever gets better.
  pub visit_all_keeps :
      (ps : List Peer) (t t' : Tally) (cs : List Cell)
      → visit_all opts upstream system local_lsn ps t ≡ counted t' cs
      → RanksAtLeast t'.candidate t.candidate
  visit_all_keeps [] t t' cs h = rw (visit_all_done t t' cs h) (RanksAtLeast-refl t'.candidate)
  visit_all_keeps (p ∷ ps) t t' cs h =
      let (u, c, ds, v, w) = visit_all_cons p ps t t' cs h in
      RanksAtLeast-trans t'.candidate u.candidate t.candidate (visit_all_keeps ps u t' ds w)
        (rw (visit_candidate p t u c v) (challenge_keeps p (rival p) t.candidate))

  -- The final candidate ranks at least as high as every rival.
  pub visit_all_ranks :
      {p : Peer} {ps : List Peer} (r : ReplInfo) (t t' : Tally) (cs : List Cell)
      → In p ps
      → IsRival p r
      → visit_all opts upstream system local_lsn ps t ≡ counted t' cs
      → RanksAtLeast t'.candidate (as_candidate p r)
  unfolding challenge
  visit_all_ranks {p = p} r t t' cs (here {xs = ps}) v h =
      let (u, c, ds, one, rest) = visit_all_cons p ps t t' cs h in
      RanksAtLeast-trans t'.candidate u.candidate (as_candidate p r)
        (visit_all_keeps ps u t' ds rest)
        (rw (visit_candidate p t u c one, rival_of_IsRival p r v, challenge)
          (better_ranks (as_candidate p r) t.candidate).0)
  visit_all_ranks r t t' cs (there {x = q} {xs = ps} i) v h =
      let (u, c, ds, one, rest) = visit_all_cons q ps t t' cs h in
      visit_all_ranks r u t' ds i v rest

  -- If no sibling has the ID of the first candidate, then a final candidate of that ID is it.
  pub visit_all_self :
      (ps : List Peer) (t t' : Tally) (cs : List Cell) (first : NodeInfo)
      → visit_all opts upstream system local_lsn ps t ≡ counted t' cs
      → All (λ p. p.info.node_id ≢ first.node_id) ps
      → (t.candidate ≡ first) ⊎ (t.candidate.node_id ≢ first.node_id)
      → t'.candidate.node_id ≡ first.node_id
      → t'.candidate ≡ first
  visit_all_self [] t t' cs first h others (inl s) e =
      ap (λ x. x.candidate) (sym (visit_all_done t t' cs h)) ∙ s
  visit_all_self [] t t' cs first h others (inr s) e = absurd (s (rw (visit_all_done t t' cs h) e))
  visit_all_self (p ∷ ps) t t' cs first h others s e =
      let (u, c, ds, one, rest) = visit_all_cons p ps t t' cs h in
      visit_all_self ps u t' ds first rest others.1
        (rw (visit_candidate p t u c one) (challenge_self p (rival p) t.candidate first others.0 s))
        e
