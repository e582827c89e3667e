-- ===== src/Election/Safety.antt =====
-- `do_election`: of standbys that see each other, one wins at most.
use hg_repmgr.Base.{List, [], some, ◌≡◌, ◌≢◌, arith, In, here, there}
use hg_repmgr.Node.{ReplInfo}
use hg_repmgr.Daemon.{Options, Daemon, won}
use hg_repmgr.Election.{Peer, View}
use hg_repmgr.Election.Vote.{first_tally, with_lsn, do_election}
use hg_repmgr.Election.Ranking.{RanksAtLeast, RanksAtLeast-antisymm}
use hg_repmgr.Election.Loop.{IsRival, as_candidate, visit_all_ranks}
use hg_repmgr.Election.Winner.{siblings_of, won_with_siblings, won_poll, Elected-self}

In-ne-nil {ℓ} : {A : Type ℓ} {a : A} {xs : List A} → In a xs → xs ≢ []
In-ne-nil here e = cc
In-ne-nil (there i) e = cc

-- The winner ranks at least as high as each rival that it sees: higher LSN, then higher priority,
-- then lower node ID.
pub winner_ranks :
    (opts : Options) (view : View) (d : Daemon) {p : Peer} (theirs mine : ReplInfo)
    → In p (siblings_of view d)
    → IsRival p theirs
    → view.replication ≡ some mine
    → (do_election opts view d).result ≡ won
    → RanksAtLeast (with_lsn mine.last_wal_receive_lsn d).local (as_candidate p theirs)
winner_ranks opts view d {p = p} theirs mine i v m h =
    let (r, e, k) = won_with_siblings opts view d (In-ne-nil i) h in
    let (t, cs, f, w) = won_poll opts view d r e k in
    let same : r ≡ mine = cc in
    rw (← same) (
      rw (Elected-self opts view d r t cs f w) at (
        visit_all_ranks opts d.upstream view.system r.last_wal_receive_lsn theirs
          (first_tally (with_lsn r.last_wal_receive_lsn d)) t cs i v f))

-- The first node sees the second as a rival, with the second's ID and priority, and the LSN that
-- the second itself reports.
pub record Sees (view : View) (d : Daemon) (view' : View) (d' : Daemon) : Type 0 where
  pub peer : Peer
  pub theirs : ReplInfo
  pub own : ReplInfo
  pub listed : In peer (siblings_of view d)
  pub rival : IsRival peer theirs
  pub reported : view'.replication ≡ some own
  pub same_lsn : theirs.last_wal_receive_lsn ≡ own.last_wal_receive_lsn
  pub same_id : peer.info.node_id ≡ d'.local.node_id
  pub same_priority : peer.info.priority ≡ d'.local.priority

winner_outranks :
    (opts : Options) (view view' : View) (d d' : Daemon) (own : ReplInfo)
    → (s : Sees view d view' d') → view.replication ≡ some own
    → (do_election opts view d).result ≡ won
    → RanksAtLeast
        (with_lsn own.last_wal_receive_lsn d).local
        (with_lsn s.own.last_wal_receive_lsn d').local
winner_outranks opts view view' d d' own s m h =
    ground (arith, winner_ranks opts view d s.theirs own s.listed s.rival m h)

-- If two standbys with different node IDs each see the other as a rival, with its current LSN, ID
-- and priority, then they do not both win, whatever their options and whatever else they see.
pub no_two_winners :
    (opts opts' : Options) (view view' : View) (d d' : Daemon)
    → d.local.node_id ≢ d'.local.node_id
    → Sees view d view' d'
    → Sees view' d' view d
    → ¬ (((do_election opts view d).result ≡ won) × ((do_election opts' view' d').result ≡ won))
no_two_winners opts opts' view view' d d' n s s' (h, h') = n (
    RanksAtLeast-antisymm (with_lsn s'.own.last_wal_receive_lsn d).local
      (with_lsn s.own.last_wal_receive_lsn d').local
      (winner_outranks opts view view' d d' s'.own s s'.reported h)
      (winner_outranks opts' view' view d' d s.own s' s.reported h'))
