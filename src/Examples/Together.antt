-- ===== src/Examples/Together.antt =====
-- The failovers of node 2 and node 3 beside each other: node 2 wins, and tells node 3.
use mathlib.Core.Path.{subst}
use mathlib.Core.Option.{some-injective}
use hg_repmgr.Base.{pos, true, none, some, ◌≡◌, inr, refl, arith, In, here, there}
use hg_repmgr.Daemon.{degrade}
use hg_repmgr.Election.{better, visit, get_active_sibling_node_records}
use hg_repmgr.Election.Vote.{visit_all, decide, conclude, poll, with_siblings, do_election}
use hg_repmgr.Election.Safety.{Sees}
use hg_repmgr.Failover.{
  notify_follower, check_connection, promote_self, notify_followers, poll_new_primary,
  query_new_primary,
}
use hg_repmgr.Failover.Steps
use hg_repmgr.Failover.Steps.{wait_primary_notification}
use hg_repmgr.Failover.Primary.{World, do_primary_failover}
use hg_repmgr.Failover.Primary.Safety.{promotes}
use hg_repmgr.Failover.Primary.Notices.{all_name, do_primary_failover-names}
use hg_repmgr.Failover.Cluster.{Heard, Stays, no_double_promotion}
use hg_repmgr.Examples.Data.{
  options, daemon_of, view_of, ahead, behind, world_of, peer_at, rival_at,
}

abbrev world_two : World
world_two = world_of (view_of ahead ahead behind) (λ second. none)

abbrev world_three : World
world_three = world_of (view_of behind ahead behind) (λ second. some (pos 2))

Stays-two : Stays options world_two (daemon_of 2) (pos 3)
unfolding do_primary_failover do_election with_siblings poll conclude decide visit_all visit better
    get_active_sibling_node_records check_connection promote_self notify_followers
Stays-two = record { same_id = refl; apart = ground arith; no_upstream = ground arith }

Stays-three : Stays options world_three (daemon_of 3) (pos 2)
unfolding do_primary_failover do_election with_siblings poll conclude decide visit_all visit better
    get_active_sibling_node_records check_connection wait_primary_notification poll_new_primary
    query_new_primary Steps.follow_new_primary degrade
Stays-three = record { same_id = refl; apart = ground arith; no_upstream = ground arith }

-- The notice to node 3 is the last action of node 2.
sent :
    In (notify_follower (pos 3) (pos 2)) (do_primary_failover options world_two (daemon_of 2)).log
unfolding do_primary_failover do_election with_siblings poll conclude decide visit_all visit better
    get_active_sibling_node_records check_connection promote_self notify_followers
sent = there (there (there (there (there (there here)))))

Heard-by_two : Heard world_two.notified (do_primary_failover options world_three (daemon_of 3)).log
Heard-by_two second id h = absurd (ground arith)

Heard-by_three :
    Heard world_three.notified (do_primary_failover options world_two (daemon_of 2)).log
Heard-by_three second id h = inr (
  pos 3,
  subst
      (λ x.
        In (notify_follower (pos 3) x) (do_primary_failover options world_two (daemon_of 2)).log)
      (some-injective _ _ h) sent,
)

Sees-from_two :
    Sees world_two.election
      (check_connection options world_two.conn (daemon_of 2))
      world_three.election
      (check_connection options world_three.conn (daemon_of 3))
unfolding check_connection get_active_sibling_node_records
Sees-from_two = record {
  peer = peer_at 3 true behind;
  theirs = behind;
  own = behind;
  listed = here;
  rival = rival_at 3 behind refl;
  reported = refl;
  same_lsn = refl;
  same_id = refl;
  same_priority = refl;
}

Sees-from_three :
    Sees world_three.election
      (check_connection options world_three.conn (daemon_of 3))
      world_two.election
      (check_connection options world_two.conn (daemon_of 2))
unfolding check_connection get_active_sibling_node_records
Sees-from_three = record {
  peer = peer_at 2 true ahead;
  theirs = ahead;
  own = ahead;
  listed = here;
  rival = rival_at 2 ahead refl;
  reported = refl;
  same_lsn = refl;
  same_id = refl;
  same_priority = refl;
}

no_double_promotion_example : ¬ (
    (promotes (do_primary_failover options world_two (daemon_of 2)).log ≡ true)
    × (promotes (do_primary_failover options world_three (daemon_of 3)).log ≡ true))
no_double_promotion_example =
    no_double_promotion options options world_two world_three (daemon_of 2) (daemon_of 3) Stays-two
      Stays-three (ground arith) (ground arith) Heard-by_two Heard-by_three Sees-from_two
      Sees-from_three

do_primary_failover-names_example :
    all_name
      (do_primary_failover options world_two (daemon_of 2)).daemon.local.node_id
      (pos 1)
      (do_primary_failover options world_two (daemon_of 2)).log
    ≡ true
do_primary_failover-names_example = do_primary_failover-names options world_two (daemon_of 2)
