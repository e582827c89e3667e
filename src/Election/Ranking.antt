-- ===== src/Election/Ranking.antt =====
-- The order in which the election ranks candidates: LSN, then priority, then the lower node ID.
use hg_repmgr.Base.{◌<◌, ◌≤ℤ◌, ◌<ℤ◌, ◌≡◌, ◌⊎◌, inr, refl, arith, eq_of_parts}
use hg_repmgr.Node.{NodeInfo}
use hg_repmgr.Election.{better}

-- `n` is not ranked below `m`.
abbrev pub RanksAtLeast : NodeInfo → NodeInfo → Type 0
RanksAtLeast n m =
    (m.last_wal_receive_lsn < n.last_wal_receive_lsn)
    ⊎ (m.last_wal_receive_lsn ≡ n.last_wal_receive_lsn)
      × ((m.priority <ℤ n.priority) ⊎ (m.priority ≡ n.priority) × (n.node_id ≤ℤ m.node_id))

pub RanksAtLeast-refl : (n : NodeInfo) → RanksAtLeast n n
RanksAtLeast-refl n = inr (refl, inr (refl, omega arith))

pub RanksAtLeast-trans : (a b c : NodeInfo) → RanksAtLeast a b → RanksAtLeast b c → RanksAtLeast a c
RanksAtLeast-trans a b c p q = ground arith

-- Two nodes that rank at least as high as each other have one ID.
pub RanksAtLeast-antisymm :
    (a b : NodeInfo) → RanksAtLeast a b → RanksAtLeast b a → a.node_id ≡ b.node_id
RanksAtLeast-antisymm a b p q = eq_of_parts a.node_id b.node_id (ground arith)

-- The node that the loop keeps ranks at least as high as both.
pub better_ranks : (n c : NodeInfo) → RanksAtLeast (better n c) n × RanksAtLeast (better n c) c
unfolding better
better_ranks n c = (ground arith, ground arith)

pub better_either : (n c : NodeInfo) → (better n c ≡ n) ⊎ (better n c ≡ c)
unfolding better
better_either n c = ground arith
