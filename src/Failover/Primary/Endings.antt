-- ===== src/Failover/Primary/Endings.antt =====
-- `do_primary_failover`: how a failover ends, and what it did until then, in order.
use hg_repmgr.Base.{
  true, false, List, [], ◌∷◌, ◌++◌, none, some, ◌≡◌, ◌⊎◌, arith, if◌then◌else◌, eqb_ℤ, eqb_ℤ_refl,
  map,
}
use mathlib.Core.List.{append-nil}
use hg_repmgr.Daemon.{
  Options, Daemon, state_unknown, state_none, promoted, no_new_primary, degrade, won, lost,
  not_candidate,
}
use hg_repmgr.Election.{get_active_sibling_node_records}
use hg_repmgr.Election.Vote.{Outcome, untouched}
use hg_repmgr.Failover.{
  Action, bind_virtual_ip, run_promote_command, increment_current_term, event_failover_promote,
  promote_self, notify_followers, poll_new_primary,
}
use hg_repmgr.Failover.Steps.{wait_primary_notification}
use hg_repmgr.Failover.Primary.{
  World, conclude_election, do_primary_failover, in_state, before_election, reenable,
  check_vip_conf,
}
use hg_repmgr.Failover.Primary.Safety.{election_of}

-- What the election's WAL receiver switch does before anything else.
abbrev pub prologue : Options → World → List Action
unfolding before_election reenable
prologue opts w = before_election opts w ++ reenable opts

-- The variables with which a won election goes on to promote.
abbrev pub promoter : Options → World → Daemon → Daemon
promoter opts w d = in_state state_unknown (election_of opts w d).daemon

abbrev pub promotion_log : List Action
promotion_log = run_promote_command ∷ increment_current_term ∷ event_failover_promote ∷ []

promote_self_log :
    (w : World) (d : Daemon)
    → (promote_self w.promote d).state ≡ promoted
    → (promote_self w.promote d).log ≡ promotion_log
unfolding promote_self
promote_self_log w d h = ground arith

abbrev pub vip_log : Options → List Action
vip_log opts = if check_vip_conf opts.virtual_ip opts.network_card then bind_virtual_ip ∷ [] else []

conclude_won :
    (opts : Options) (w : World) (log : List Action) (o : Outcome)
    → o.result ≡ won
    → (promote_self w.promote (in_state state_unknown o.daemon)).state ≡ promoted
    → ((conclude_election opts w log o).result ≡ true)
      × ((conclude_election opts w log o).daemon
          ≡ in_state state_none (promote_self w.promote (in_state state_unknown o.daemon)).daemon)
      × ((conclude_election opts w log o).log
          ≡ log
            ++ (promotion_log ++ vip_log opts)
            ++ notify_followers w.reconnects o.siblings
                (promote_self w.promote (in_state state_unknown o.daemon)).daemon.local.node_id)
unfolding conclude_election
conclude_won opts w log o h p =
    let l = promote_self_log w (in_state state_unknown o.daemon) p in
    (ground arith, ground arith, ground (arith, l))

-- A standby that wins the election and promotes itself successfully runs its promote command, then
-- raises the term, binds the virtual IP if it and its network card are configured, and only then
-- tells its siblings to follow it, by its node ID after the promotion. The failover succeeds.
pub won_and_promoted :
    (opts : Options) (w : World) (d : Daemon)
    → (election_of opts w d).result ≡ won
    → (promote_self w.promote (promoter opts w d)).state ≡ promoted
    → ((do_primary_failover opts w d).result ≡ true)
      × ((do_primary_failover opts w d).daemon
          ≡ in_state state_none (promote_self w.promote (promoter opts w d)).daemon)
      × ((do_primary_failover opts w d).log
          ≡ prologue opts w
            ++ (promotion_log ++ vip_log opts)
            ++ notify_followers w.reconnects
                (election_of opts w d).siblings
                (promote_self w.promote (promoter opts w d)).daemon.local.node_id)
unfolding do_primary_failover
won_and_promoted opts w d h p = conclude_won opts w (prologue opts w) (election_of opts w d) h p

-- A notification that names the local node, which is not its upstream's, was received.
conclude_asked :
    (opts : Options) (w : World) (log : List Action) (o : Outcome)
    → (o.result ≡ lost) ⊎ (o.result ≡ not_candidate)
    → poll_new_primary opts.primary_notification_timeout w.notified 0 ≡ some o.daemon.local.node_id
    → eqb_ℤ o.daemon.local.node_id o.daemon.upstream.node_id ≡ false
    → (promote_self w.promote (in_state state_unknown o.daemon)).state ≡ promoted
    → (conclude_election opts w log o).log
      ≡ log
        ++ promotion_log
        ++ notify_followers w.reconnects
            (map untouched (
              get_active_sibling_node_records
                (promote_self w.promote (in_state state_unknown o.daemon)).daemon.local.node_id
                (promote_self w.promote (in_state state_unknown o.daemon)).daemon.upstream.node_id
                w.later_nodes))
            (promote_self w.promote (in_state state_unknown o.daemon)).daemon.local.node_id
unfolding conclude_election wait_primary_notification
conclude_asked opts w log o h told n p =
    let l = promote_self_log w (in_state state_unknown o.daemon) p in
    ground (arith, l, eqb_ℤ_refl o.daemon.local.node_id)

-- If a standby that lost the election (or was no candidate), and whose ID is not its upstream's, is
-- told in time by a notification to promote itself, and does so successfully, then it binds no
-- virtual IP, whatever is configured: its log is the promotion and the notices to the siblings that
-- it then reads again.
pub asked_and_promoted :
    (opts : Options) (w : World) (d : Daemon)
    → ((election_of opts w d).result ≡ lost) ⊎ ((election_of opts w d).result ≡ not_candidate)
    → poll_new_primary opts.primary_notification_timeout w.notified 0
      ≡ some (election_of opts w d).daemon.local.node_id
    → eqb_ℤ
        (election_of opts w d).daemon.local.node_id
        (election_of opts w d).daemon.upstream.node_id
      ≡ false
    → (promote_self w.promote (promoter opts w d)).state ≡ promoted
    → (do_primary_failover opts w d).log
      ≡ prologue opts w
        ++ promotion_log
        ++ notify_followers w.reconnects
            (map untouched (
              get_active_sibling_node_records
                (promote_self w.promote (promoter opts w d)).daemon.local.node_id
                (promote_self w.promote (promoter opts w d)).daemon.upstream.node_id
                w.later_nodes))
            (promote_self w.promote (promoter opts w d)).daemon.local.node_id
unfolding do_primary_failover
asked_and_promoted opts w d h told n p =
    conclude_asked opts w (prologue opts w) (election_of opts w d) h told n p

conclude_unheard :
    (opts : Options) (w : World) (log : List Action) (o : Outcome)
    → (o.result ≡ lost) ⊎ (o.result ≡ not_candidate)
    → poll_new_primary opts.primary_notification_timeout w.notified 0 ≡ none
    → conclude_election opts w log o
      ≡ record { result = false; daemon = in_state no_new_primary (degrade o.daemon); log = log }
unfolding conclude_election wait_primary_notification degrade
conclude_unheard opts w log o h n = ground (arith, append-nil log)

-- A standby that lost the election (or was no candidate) and hears of no new primary in time does
-- nothing more: it takes up degraded monitoring, with no new primary found.
pub unheard :
    (opts : Options) (w : World) (d : Daemon)
    → ((election_of opts w d).result ≡ lost) ⊎ ((election_of opts w d).result ≡ not_candidate)
    → poll_new_primary opts.primary_notification_timeout w.notified 0 ≡ none
    → do_primary_failover opts w d ≡ record {
      result = false;
      daemon = in_state no_new_primary (degrade (election_of opts w d).daemon);
      log = prologue opts w;
    }
unfolding do_primary_failover
unheard opts w d h n = conclude_unheard opts w (prologue opts w) (election_of opts w d) h n
