-- ===== src/Election/Wins.antt =====
-- Exactly when `do_election` returns WON against siblings.
use mathlib.Core.Path.{subst}
use hg_repmgr.Base.{
  pos, ℕ, ◌+◌, ◌*◌, ◌<◌, true, false, ◌&&◌, not, List, [], ◌∷◌, some, ◌≡◌, ◌≢◌, ◌⊎◌, ◌↔◌, inl, inr,
  refl, ap, sym, arith, In, All, length, codes, str_eq,
}
use hg_repmgr.Node.{NodeInfo, ReplInfo, invalid_lsn}
use hg_repmgr.Daemon.{Options, Daemon, won}
use hg_repmgr.Template.{parse_failover_validation_command}
use hg_repmgr.Election.{Peer, View, Tally, Cell, execute_failover_validation_command}
use hg_repmgr.Election.Vote.{
  conclude, visit_all, counted, first_tally, with_lsn, decide, poll, with_siblings, do_election,
  is_empty,
}
use hg_repmgr.Election.Ranking.{RanksAtLeast, RanksAtLeast-antisymm}
use hg_repmgr.Election.Loop.{
  IsRival, as_candidate, reachable_count, visit_all_visible, visit_all_ranks, visit_all_keeps,
}
use hg_repmgr.Election.Seen.{
  IsIn, HasNotSeen, IsNoPrimary, visit_all_location, visit_all_unseen, visit_all-IsNoPrimary,
  location_seen, none_seen, counted-IsNoPrimary,
}
use hg_repmgr.Election.Winner.{
  siblings_of, loop_of, Elected, IsOpen, do_election_won, won_with_siblings, Elected-self,
  won_after_tests, poll-with_lsn, won_poll,
}
use hg_repmgr.Election.Outcomes.{visit_all_from, with_siblings_won, open_won}

-- No validation command is set, or it succeeds for the node.
abbrev pub IsValidated : Options → View → NodeInfo → Type 0
IsValidated opts view n =
    (is_empty opts.failover_validation_command ≡ true)
    ⊎ (view.run_command (
          parse_failover_validation_command n.node_id (codes n.node_name)
            opts.failover_validation_command)
        ≡ pos 0)

-- What a winner has found, with its own replication `r`.
pub record Wins (opts : Options) (view : View) (d : Daemon) (r : ReplInfo) : Type 0 where
  pub is_open : IsOpen opts view d
  pub reported : view.replication ≡ some r
  pub replays : (r.wal_replay_paused && not view.resumed) ≡ false
  pub no_primary : All (IsNoPrimary view.system r.last_wal_receive_lsn) (siblings_of view d)
  pub in_location :
      (str_eq d.upstream.location d.local.location ≡ true)
      ⊎ ((p : Peer) × In p (siblings_of view d) × IsIn d.upstream p)
  pub unseen :
      (opts.primary_visibility_consensus ≡ false) ⊎ All (HasNotSeen opts) (siblings_of view d)
  pub majority : length (siblings_of view d) + 1 < (1 + reachable_count (siblings_of view d)) * 2
  pub best :
      (p : Peer) (rp : ReplInfo)
      → In p (siblings_of view d)
      → IsRival p rp
      → RanksAtLeast (with_lsn r.last_wal_receive_lsn d).local (as_candidate p rp)
  pub validated : IsValidated opts view d.local

module _ (opts : Options) (view : View) (d : Daemon) where
  won-IsValidated :
      (n : ℕ) (t : Tally) (cs : List Cell)
      → (decide opts view d n t cs).result ≡ won
      → IsValidated opts view t.candidate
  unfolding decide execute_failover_validation_command
  won-IsValidated n t cs h = ground arith

  validated_won :
      (n : ℕ) (t : Tally) (cs : List Cell)
      → t.primary_location_seen ≡ true
      → (t.still_visible ≡ 0) ⊎ (opts.primary_visibility_consensus ≡ false)
      → n < t.visible_nodes * 2
      → t.candidate.node_id ≡ d.local.node_id
      → IsValidated opts view t.candidate
      → (decide opts view d n t cs).result ≡ won
  unfolding decide execute_failover_validation_command
  validated_won n t cs l s m c v = ground arith

  poll-decide :
      (ps : List Peer) (r : ReplInfo) (t : Tally) (cs : List Cell)
      → visit_all opts d.upstream view.system r.last_wal_receive_lsn ps
          (first_tally (with_lsn r.last_wal_receive_lsn d))
        ≡ counted t cs
      → poll opts view d ps r
        ≡ decide opts view (with_lsn r.last_wal_receive_lsn d) (length ps + 1) t cs
  unfolding poll
  poll-decide ps r t cs e = rw (e, conclude) refl

won_replays :
    (opts : Options) (view : View) (d : Daemon) (ps : List Peer) (r : ReplInfo)
    → ps ≢ []
    → view.replication ≡ some r
    → (with_siblings opts view d ps).result ≡ won
    → (r.wal_replay_paused && not view.resumed) ≡ false
unfolding with_siblings
won_replays opts view d [] r n e h = absurd (n refl)
won_replays opts view d (p ∷ ps) r n e h = ground (arith, e, h)

module _ (opts : Options) (view : View) (d : Daemon) (r : ReplInfo) (t : Tally) (cs : List Cell)
    (loop : loop_of opts view d r ≡ counted t cs) where
  consensus :
      (t.still_visible ≡ 0) ⊎ (opts.primary_visibility_consensus ≡ false)
      → (opts.primary_visibility_consensus ≡ false) ⊎ All (HasNotSeen opts) (siblings_of view d)
  consensus (inr e) = inl e
  consensus (inl z) = inr (
      (visit_all_unseen opts d.upstream view.system r.last_wal_receive_lsn (siblings_of view d)
        (first_tally (with_lsn r.last_wal_receive_lsn d)) t cs loop z).1)

  quiet :
      (opts.primary_visibility_consensus ≡ false) ⊎ All (HasNotSeen opts) (siblings_of view d)
      → (t.still_visible ≡ 0) ⊎ (opts.primary_visibility_consensus ≡ false)
  quiet (inl e) = inr e
  quiet (inr a) = inl (
      none_seen opts d.upstream view.system r.last_wal_receive_lsn (siblings_of view d)
        (first_tally (with_lsn r.last_wal_receive_lsn d)) t cs loop a refl)

  Elected-Wins :
      IsOpen opts view d
      → Elected opts view d r t
      → (r.wal_replay_paused && not view.resumed) ≡ false
      → IsValidated opts view t.candidate
      → Wins opts view d r
  Elected-Wins o v paused valid =
      let ps = siblings_of view d in
      let lsn = r.last_wal_receive_lsn in
      let start = first_tally (with_lsn lsn d) in
      let self = Elected-self opts view d r t cs loop v in
      let visible = visit_all_visible opts d.upstream view.system lsn ps start t cs loop in
      record {
        is_open = o;
        reported = v.reported;
        replays = paused;
        no_primary = visit_all-IsNoPrimary opts d.upstream view.system lsn ps start t cs loop;
        in_location =
            visit_all_location opts d.upstream view.system lsn ps start t cs loop v.in_location;
        unseen = consensus v.unseen;
        majority = rw (← visible) v.majority;
        best = λ p rp i k.
            subst (λ x. RanksAtLeast x (as_candidate p rp)) self
              (visit_all_ranks opts d.upstream view.system lsn rp start t cs i k loop);
        validated = rw self at valid;
      }

  Wins-decide :
      Wins opts view d r
      → let e = with_lsn r.last_wal_receive_lsn d in
        (decide opts view e (length (siblings_of view d) + 1) t cs).result ≡ won
  Wins-decide w =
      let ps = siblings_of view d in
      let lsn = r.last_wal_receive_lsn in
      let e = with_lsn lsn d in
      let visible =
        visit_all_visible opts d.upstream view.system lsn ps (first_tally e) t cs loop in
      let place =
        location_seen opts d.upstream view.system lsn ps (first_tally e) t cs loop w.in_location in
      let chosen : t.candidate.node_id ≡ d.local.node_id =
        elim (visit_all_from opts d.upstream view.system lsn ps (first_tally e) t cs loop) [
          | inl f ↦ ap (λ (x : NodeInfo). x.node_id) f
          | inr (p, rp, i, k, f) ↦
              RanksAtLeast-antisymm t.candidate e.local
                (visit_all_keeps opts d.upstream view.system lsn ps (first_tally e) t cs loop)
                (rw f (w.best p rp i k))
        ] in
      let most = rw (sym visible) at w.majority in
      let self = Elected-self opts view d r t cs loop (record {
        reported = w.reported;
        in_location = place;
        unseen = quiet w.unseen;
        majority = most;
        chosen = chosen;
      }) in
      validated_won opts view e (length ps + 1) t cs place (quiet w.unseen) most chosen
        (rw self w.validated)

won_Wins :
    (opts : Options) (view : View) (d : Daemon)
    → siblings_of view d ≢ []
    → (do_election opts view d).result ≡ won
    → (r : ReplInfo) × Wins opts view d r
won_Wins opts view d n h =
    let (r, p, k) = won_with_siblings opts view d n h in
    let (t, cs, e, v) = won_poll opts view d r p k in
    let (o, rest) = do_election_won opts view d n h in
    let ps = siblings_of view d in
    let decided = rw (poll-decide opts view d ps r t cs e) at k in
    let paused =
      won_replays opts view (with_lsn invalid_lsn d) ps r n p (won_after_tests opts view d h) in
    (
      r,
      Elected-Wins opts view d r t cs e o v paused (
          won-IsValidated opts view (with_lsn r.last_wal_receive_lsn d) (length ps + 1) t cs
            decided),
    )

Wins-won :
    (opts : Options) (view : View) (d : Daemon) (r : ReplInfo)
    → siblings_of view d ≢ []
    → Wins opts view d r
    → (do_election opts view d).result ≡ won
Wins-won opts view d r n w =
    let ps = siblings_of view d in
    let lsn = r.last_wal_receive_lsn in
    let (t, cs, e) =
      counted-IsNoPrimary opts d.upstream view.system lsn ps (first_tally (with_lsn lsn d))
        w.no_primary in
    let polled : (poll opts view d ps r).result ≡ won =
      rw (poll-decide opts view d ps r t cs e) (Wins-decide opts view d r t cs e w) in
    open_won opts view d w.is_open (
      with_siblings_won opts view (with_lsn invalid_lsn d) ps r n w.reported w.replays
        (rw (poll-with_lsn opts view d invalid_lsn ps r) polled))

-- A standby with siblings wins if and only if failover is automatic, the term known, and its priority
-- positive; its own replication is reported, and was resumed where it was paused; no sibling that
-- answers (connected, with a running repmgrd and its replication) is a primary that it can follow;
-- its location is that of the primary, or a connected sibling is there; no sibling that answers, in
-- recovery, has seen the primary within two monitoring intervals, unless consensus is not asked for;
-- it is connected to more than half of all nodes, itself counted; it ranks at least as high as each
-- rival; and the validation command, where one is set, succeeds for it.
pub do_election_won_iff :
    (opts : Options) (view : View) (d : Daemon)
    → siblings_of view d ≢ []
    → ((do_election opts view d).result ≡ won) ↔ ((r : ReplInfo) × Wins opts view d r)
do_election_won_iff opts view d n = (won_Wins opts view d n, λ w. Wins-won opts view d w.0 n w.1)
