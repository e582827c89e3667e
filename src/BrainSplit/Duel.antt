-- ===== src/BrainSplit/Duel.antt =====
-- `check_BS`: of two primaries that find each other, one gives way.
use hg_repmgr.Base.{ℕ, ◌<◌, ◌<ℤ◌, true, List, some, ◌≡◌, ◌≢◌, ◌⊎◌, arith}
use hg_repmgr.Node.{NodeInfo}
use hg_repmgr.Follow.{SystemIdentification}
use hg_repmgr.BrainSplit.{
  do_nothing, do_rejoin, Other, peer, count_primaries, find_primary, check_timeline, check_bs,
}

-- The node `o` is another primary that is connected, has its record, and names its timeline, and
-- every other node of the list is passed over or no primary.
pub record FindsOne (me : NodeInfo) (os : List Other) (o : Other) (its : SystemIdentification)
    : Type 0 where
  pub counted : count_primaries me.node_id os ≡ 1
  pub searched : find_primary me.node_id os ≡ peer o
  pub answers : o.repl_conn_ok ≡ true
  pub identified : o.identification ≡ some its

-- `n` on timeline `tli` keeps its place against `m` on timeline `tlj`: the later timeline, then the
-- higher priority, then the lower node ID.
abbrev pub Prevails : NodeInfo → ℕ → NodeInfo → ℕ → Type 0
Prevails n tli m tlj =
    (tlj < tli)
    ⊎ (tlj ≡ tli)
      × ((m.priority <ℤ n.priority) ⊎ (m.priority ≡ n.priority) × (n.node_id <ℤ m.node_id))

module _ (me : NodeInfo) (local_tli : ℕ) (os : List Other) where
  check_bs-Prevails :
      (o : Other) (its : SystemIdentification)
      → FindsOne me os o its
      → o.info.node_id ≢ me.node_id
      → ((check_bs me local_tli os ≡ do_rejoin) × Prevails o.info its.timeline me local_tli)
        ⊎ ((check_bs me local_tli os ≡ do_nothing) × Prevails me local_tli o.info its.timeline)
  unfolding check_bs check_timeline
  check_bs-Prevails o its f n = ground arith

-- The first primary finds the second alone, with its present ID, priority and timeline.
pub record Faces (me : NodeInfo) (os : List Other) (it : NodeInfo) (tli : ℕ) : Type 0 where
  pub other : Other
  pub system : SystemIdentification
  pub finds : FindsOne me os other system
  pub same_id : other.info.node_id ≡ it.node_id
  pub same_priority : other.info.priority ≡ it.priority
  pub same_tli : system.timeline ≡ tli

faced :
    (a b : NodeInfo) (tli tlj : ℕ) (os : List Other)
    → Faces a os b tlj
    → a.node_id ≢ b.node_id
    → ((check_bs a tli os ≡ do_rejoin) × Prevails b tlj a tli)
      ⊎ ((check_bs a tli os ≡ do_nothing) × Prevails a tli b tlj)
faced a b tli tlj os f n = ground (arith, check_bs-Prevails a tli os f.other f.system f.finds)

-- Of two primaries with different node IDs that find each other, and no other, with their present
-- IDs, priorities and timelines, one rejoins and the other does nothing: the one with the later
-- timeline stays, then the one with the higher priority, then the one with the lower node ID.
pub check_bs_duel :
    (a b : NodeInfo) (tli tlj : ℕ) (os os' : List Other)
    → Faces a os b tlj
    → Faces b os' a tli
    → a.node_id ≢ b.node_id
    → ((check_bs a tli os ≡ do_nothing) × (check_bs b tlj os' ≡ do_rejoin) × Prevails a tli b tlj)
      ⊎ ((check_bs a tli os ≡ do_rejoin) × (check_bs b tlj os' ≡ do_nothing) × Prevails b tlj a tli)
check_bs_duel a b tli tlj os os' f f' n =
    ground (arith, faced a b tli tlj os f, faced b a tlj tli os' f')
