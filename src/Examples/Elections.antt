-- ===== src/Examples/Elections.antt =====
-- Elections of node 2 and node 3.
use hg_repmgr.Base.{pos, true, false, List, [], ◌∷◌, ◌≡◌, ◌≢◌, ◌↔◌, refl, arith, In, here}
use hg_repmgr.Node.{ReplInfo}
use hg_repmgr.Follow.{check_node_can_follow, get_timeline_history, scan_history}
use hg_repmgr.Daemon.{won, cancelled}
use hg_repmgr.Election.{View, Tally, Cell, better, visit, get_active_sibling_node_records}
use hg_repmgr.Election.Vote.{
  visit_all, decide, conclude, poll, with_siblings, do_election, with_lsn,
}
use hg_repmgr.Election.Loop.{as_candidate}
use hg_repmgr.Election.Winner.{siblings_of}
use hg_repmgr.Election.Wins.{do_election_won_iff, Wins}
use hg_repmgr.Election.Quorum.{Row, both_visible, winners_overlap}
use hg_repmgr.Election.Cancelled.{IsCancelled, do_election_cancelled}
use hg_repmgr.Election.Safety.{Sees, no_two_winners}
use hg_repmgr.Examples.Data.{
  rival_at, options, daemon_of, view_of, ahead, behind, peer_at, failed, replication_at,
}

abbrev view_two : View
view_two = view_of ahead ahead behind

won_two : (do_election options view_two (daemon_of 2)).result ≡ won
unfolding do_election with_siblings poll conclude decide visit_all visit better
    get_active_sibling_node_records
won_two = refl

abbrev view_three : View
view_three = view_of behind ahead behind

listed_three : In (peer_at 3 true behind) (siblings_of view_two (daemon_of 2))
unfolding get_active_sibling_node_records
listed_three = here

Sees-three : Sees view_two (daemon_of 2) view_three (daemon_of 3)
unfolding get_active_sibling_node_records
Sees-three = record {
  peer = peer_at 3 true behind;
  theirs = behind;
  own = behind;
  listed = here;
  rival = rival_at 3 behind refl;
  reported = refl;
  same_lsn = refl;
  same_id = refl;
  same_priority = refl;
}

Sees-two : Sees view_three (daemon_of 3) view_two (daemon_of 2)
unfolding get_active_sibling_node_records
Sees-two = record {
  peer = peer_at 2 true ahead;
  theirs = ahead;
  own = ahead;
  listed = here;
  rival = rival_at 2 ahead refl;
  reported = refl;
  same_lsn = refl;
  same_id = refl;
  same_priority = refl;
}

no_two_winners_example : ¬ (
    ((do_election options view_two (daemon_of 2)).result ≡ won)
    × ((do_election options view_three (daemon_of 3)).result ≡ won))
no_two_winners_example =
    no_two_winners options options view_two view_three (daemon_of 2) (daemon_of 3) (ground arith)
      Sees-three Sees-two

siblings_two : siblings_of view_two (daemon_of 2) ≢ []
unfolding get_active_sibling_node_records
siblings_two e = cc

do_election_won_iff_example :
    ((do_election options view_two (daemon_of 2)).result ≡ won)
    ↔ ((r : ReplInfo) × Wins options view_two (daemon_of 2) r)
do_election_won_iff_example = do_election_won_iff options view_two (daemon_of 2) siblings_two

-- Node 3 with an answer of node 2's that is old: both win.
abbrev view_old : View
view_old = view_of ahead behind behind

won_old : (do_election options view_old (daemon_of 3)).result ≡ won
unfolding do_election with_siblings poll conclude decide visit_all visit better
    get_active_sibling_node_records
won_old = refl

siblings_old : siblings_of view_old (daemon_of 3) ≢ []
unfolding get_active_sibling_node_records
siblings_old e = cc

abbrev rows : List Row
rows =
    record { first = failed; second = failed }
    ∷ record { first = peer_at 2 true ahead; second = peer_at 2 true behind }
    ∷ record { first = peer_at 3 true behind; second = peer_at 3 true behind }
    ∷ []

winners_overlap_example : (w : Row) × In w rows × (both_visible (pos 1) (pos 2) (pos 3) w ≡ true)
winners_overlap_example =
    winners_overlap rows options options view_two view_old (daemon_of 2) (daemon_of 3)
      (refl, (refl, (refl, tt))) refl refl refl siblings_two siblings_old refl refl won_two won_old

-- Node 3 has become a primary, ahead of the local position.
abbrev view_promoted : View
view_promoted = view_of ahead ahead (replication_at false 400)

cancelled_two : (do_election options view_promoted (daemon_of 2)).result ≡ cancelled
unfolding do_election with_siblings poll conclude decide visit_all visit better
    get_active_sibling_node_records check_node_can_follow get_timeline_history scan_history
cancelled_two = refl

do_election_cancelled_example :
    IsCancelled view_promoted (daemon_of 2) (do_election options view_promoted (daemon_of 2))
do_election_cancelled_example =
    do_election_cancelled options view_promoted (daemon_of 2) cancelled_two

abbrev tally_two : Tally
tally_two = record {
  candidate = (with_lsn 200 (daemon_of 2)).local;
  visible_nodes = 2;
  primary_location_seen = true;
  still_visible = 0;
}

abbrev cells_two : List Cell
cells_two = record { info = as_candidate (peer_at 3 true behind) behind; connected = true } ∷ []
