-- ===== src/Failover/Cascade/Upstream.antt =====
-- `do_upstream_standby_failover`: what its result means, and the node ID that it can leave in the
-- primary's shared memory.
use hg_repmgr.Base.{
  pos, Bool, true, false, ◌&&◌, List, some, ◌≡◌, ◌≢◌, ◌⊎◌, inl, inr, refl, arith, eqb_ℤ, sym, ◌∙◌,
}
use hg_repmgr.Node.{NodeInfo, rectype_primary}
use hg_repmgr.SharedState.{unknown_node_id, get_local_node_id, set_local_node_id}
use hg_repmgr.SharedState.Run.{Call, run}
use hg_repmgr.SharedState.Mailbox.{run-local_node_id}
use hg_repmgr.Daemon.{Options, automatic, degrade}
use hg_repmgr.Failover.{ConnView}
use hg_repmgr.Failover.Steps.{reconnects_within}
use hg_repmgr.Failover.Cascade.{
  CascadeView, Pair, check_primary_connection, do_upstream_standby_failover, follow_primary,
}

-- The failover comes to its follow command: it is automatic, and the primary `n` of the local
-- table can be connected to and is a primary.
pub record Attempts (opts : Options) (v : CascadeView) (p : Pair) (n : NodeInfo) : Type 0 where
  pub automatic_failover : opts.failover ≡ automatic
  pub known : v.primary_record ≡ some n
  pub connected : (check_primary_connection opts v.conn v.primary_conn_ok p).0 ≡ true
  pub is_primary : v.primary_type ≡ rectype_primary

module _ (opts : Options) (v : CascadeView) (p : Pair) (n : NodeInfo)
    (a : Attempts opts v p n) where
  kept_local :
      (check_primary_connection opts v.conn v.primary_conn_ok p).1.daemon.local ≡ p.daemon.local
  unfolding check_primary_connection
  kept_local = ground arith

  attempted :
      do_upstream_standby_failover opts v p
      ≡ follow_primary opts v n.node_id (check_primary_connection opts v.conn v.primary_conn_ok p).1
  unfolding do_upstream_standby_failover check_primary_connection reconnects_within
  attempted = rw (a.automatic_failover, a.known, a.connected, a.is_primary) refl

  reported :
      (q : Pair)
      → (eqb_ℤ v.follow_status (pos 0) ≡ false)
        ⊎ (reconnects_within opts.repmgrd_standby_startup_timeout v.answers_at 0 ≡ false)
      → ((follow_primary opts v n.node_id q).result ≡ true)
        × ((follow_primary opts v n.node_id q).after.daemon.local ≡ q.daemon.local)
  unfolding follow_primary degrade
  reported q (inl f) = (ground arith, ground arith)
  reported q (inr f) = (ground arith, ground arith)

  -- If the failover comes to its follow command (it is automatic, and the primary of the local
  -- table can be connected to and is a primary), and that command fails, or the local node does not
  -- answer within the startup timeout, then the failover reports success all the same, with the
  -- local node's record as it was before.
  pub follow_failure_reported :
      (eqb_ℤ v.follow_status (pos 0) ≡ false)
        ⊎ (reconnects_within opts.repmgrd_standby_startup_timeout v.answers_at 0 ≡ false)
      → ((do_upstream_standby_failover opts v p).result ≡ true)
        × ((do_upstream_standby_failover opts v p).after.daemon.local ≡ p.daemon.local)
  follow_failure_reported f =
      let (r, l) = reported (check_primary_connection opts v.conn v.primary_conn_ok p).1 f in
      rw attempted (r, l ∙ kept_local)

taken :
    (opts : Options) (v : ConnView) (conn_ok : Bool) (p : Pair)
    → p.primary.local_node_id ≡ unknown_node_id
    → (conn_ok && v.available) ≡ false
    → v.reconnects ≡ true
    → (check_primary_connection opts v conn_ok p).1.primary.local_node_id ≡ opts.node_id
unfolding check_primary_connection get_local_node_id set_local_node_id
taken opts v conn_ok p h l r = ground arith

-- If the primary's shared memory has no node ID yet (as after a restart), and the connection to it
-- is lost and made again, then the check of the connection writes the standby's own node ID, if
-- that is a known one, into the primary's memory, where no later calls change it.
pub primary_id_taken :
    (opts : Options) (v : ConnView) (conn_ok : Bool) (p : Pair) (cs : List Call)
    → p.primary.local_node_id ≡ unknown_node_id
    → opts.node_id ≢ unknown_node_id
    → (conn_ok && v.available) ≡ false
    → v.reconnects ≡ true
    → (run (check_primary_connection opts v conn_ok p).1.primary cs).local_node_id ≡ opts.node_id
primary_id_taken opts v conn_ok p cs h k l r =
    let e = taken opts v conn_ok p h l r in
    run-local_node_id (check_primary_connection opts v conn_ok p).1.primary cs (λ q. k (sym e ∙ q))
    ∙ e
