-- ===== src/Failover/Primary/Safety.antt =====
-- `do_primary_failover`: when a standby runs its promote command.
use hg_repmgr.Base.{
  ℤ, negsuc, Bool, true, false, ◌||◌, List, [], ◌∷◌, ◌++◌, some, ◌≡◌, ◌≢◌, ◌⊎◌, inl, inr, refl,
  arith, eqb_ℤ, eqb_ℤ→eq, Bool-cases, Option-cases, ap,
}
use hg_repmgr.Daemon.{
  Options, Daemon, FailoverState, state_unknown, waiting_new_primary, follow_new_primary,
  ElectionResult, won, rerun,
}
use hg_repmgr.Election.{Cell}
use hg_repmgr.Election.Vote.{Outcome, do_election}
use hg_repmgr.Failover.{
  Action, run_promote_command, event_disconnect_manual, check_connection, notify_followers,
  poll_new_primary,
}
use hg_repmgr.Failover.Steps.{FollowView, wait_primary_notification}
use hg_repmgr.Failover.Steps
use hg_repmgr.Failover.Primary.{
  World, Phase, after_election, on_notification, follow_or_wait, settle, proceed, conclude_election,
  do_primary_failover, is_called_off, before_election, reenable, in_state,
}

abbrev pub is_promote : Action → Bool
is_promote run_promote_command = true
is_promote _ = false

-- The log has the promote command.
abbrev pub promotes : List Action → Bool
promotes [] = false
promotes (a ∷ as') = is_promote a || promotes as'

promotes-append : (xs ys : List Action) → promotes (xs ++ ys) ≡ (promotes xs || promotes ys)
promotes-append [] ys = refl
promotes-append (x ∷ xs) ys = ground (arith, promotes-append xs ys)

pub promotes-notify_followers :
    (reconnects : ℤ → Bool) (cs : List Cell) (id : ℤ)
    → promotes (notify_followers reconnects cs id) ≡ false
unfolding notify_followers
promotes-notify_followers reconnects [] id = refl
promotes-notify_followers reconnects (c ∷ cs) id =
    ground (arith, promotes-notify_followers reconnects cs id)

-- Following another node does not promote this one.
pub promotes-follow :
    (opts : Options) (v : FollowView) (id : ℤ) (d : Daemon)
    → promotes (Steps.follow_new_primary opts v id d).log ≡ false
unfolding Steps.follow_new_primary
promotes-follow opts v id d = ground arith

-- The switch at the end does not promote.
promotes-settle :
    (w : World) (ph : Phase) (d : Daemon) (log : List Action) (f : FailoverState)
    → promotes (settle w ph d log f).log ≡ promotes log
unfolding settle
promotes-settle w ph d log f = ground (
  arith,
  promotes-append log (notify_followers w.reconnects ph.siblings d.local.node_id),
  promotes-notify_followers w.reconnects ph.siblings d.local.node_id,
  promotes-append log (notify_followers w.reconnects ph.siblings d.upstream.node_id),
  promotes-notify_followers w.reconnects ph.siblings d.upstream.node_id,
)

promotes-after_election :
    (opts : Options) (w : World) (o : Outcome) (d : Daemon) (r : ElectionResult)
    → r ≢ won
    → promotes (after_election opts w o d r).step.log ≡ false
unfolding after_election
promotes-after_election opts w o d won n = absurd (n refl)
promotes-after_election opts w o d rerun n =
    promotes-notify_followers w.reconnects o.siblings (negsuc 1)
promotes-after_election opts w o d _ n = refl

-- A notification that names the local node arrived in time.
abbrev pub IsAsked : Options → World → ℤ → Type 0
IsAsked opts w id = poll_new_primary opts.primary_notification_timeout w.notified 0 ≡ some id

promotes-on_notification :
    (opts : Options) (w : World) (ph : Phase) (id : ℤ) (d : Daemon)
    → promotes ph.step.log ≡ false
    → promotes (on_notification opts w ph id d).step.log ≡ true
    → id ≡ d.local.node_id
unfolding on_notification
promotes-on_notification opts w ph id d n h = elim (Bool-cases (eqb_ℤ id d.local.node_id)) [
  | inl e ↦ eqb_ℤ→eq id d.local.node_id e
  | inr e ↦ absurd (
      ground (
        arith,
        promotes-follow opts w.follow id d,
        promotes-append ph.step.log (Steps.follow_new_primary opts w.follow id d).log,
        promotes-append ph.step.log [],
        promotes-append ph.step.log (event_disconnect_manual ∷ []),
      ))
]

promotes-follow_or_wait :
    (opts : Options) (w : World) (ph : Phase) (f : FailoverState)
    → promotes ph.step.log ≡ false
    → promotes (follow_or_wait opts w ph f).step.log ≡ true
    → IsAsked opts w ph.step.daemon.local.node_id
unfolding follow_or_wait wait_primary_notification
promotes-follow_or_wait opts w ph follow_new_primary n h = absurd (
    ground (
      arith,
      promotes-follow opts w.follow ph.new_primary_id ph.step.daemon,
      promotes-append ph.step.log
          (Steps.follow_new_primary opts w.follow ph.new_primary_id ph.step.daemon).log,
    ))
promotes-follow_or_wait opts w ph waiting_new_primary n h =
    elim (Option-cases (poll_new_primary opts.primary_notification_timeout w.notified 0)) [
      | inl e ↦ absurd (ground (arith, promotes-append ph.step.log []))
      | inr (id, e) ↦
          rw e (ap some (promotes-on_notification opts w ph id ph.step.daemon n (ground arith)))
    ]
promotes-follow_or_wait opts w ph _ n h = absurd (ground arith)

-- The election is held by the daemon as the connection check leaves it.
abbrev pub election_of : Options → World → Daemon → Outcome
election_of opts w d = do_election opts w.election (check_connection opts w.conn d)

Won-cases : (r : ElectionResult) → (r ≡ won) ⊎ (r ≢ won)
Won-cases won = inl refl
Won-cases _ = inr (λ e. cc)

daemon-after_election :
    (opts : Options) (w : World) (o : Outcome) (d : Daemon) (r : ElectionResult)
    → r ≢ won
    → (after_election opts w o d r).step.daemon ≡ d
unfolding after_election
daemon-after_election opts w o d won n = absurd (n refl)
daemon-after_election opts w o d _ n = refl

promotes-proceed :
    (opts : Options) (w : World) (o : Outcome) (log : List Action)
    → promotes log ≡ false
    → promotes (proceed opts w o log).log ≡ true
    → (o.result ≡ won) ⊎ IsAsked opts w o.daemon.local.node_id
unfolding proceed
promotes-proceed opts w o log n h = elim (Won-cases o.result) [
  | inl e ↦ inl e
  | inr e ↦
      (let d = in_state state_unknown o.daemon in
        let ph = after_election opts w o d o.result in
        let end = follow_or_wait opts w ph ph.step.state in
        let quiet = promotes-after_election opts w o d o.result e in
        let told : promotes end.step.log ≡ true = ground (
          arith,
          h,
          n,
          promotes-append log end.step.log,
          promotes-settle w end end.step.daemon (log ++ end.step.log) end.step.state,
        ) in
        inr (
          rw (daemon-after_election opts w o d o.result e) at
            (promotes-follow_or_wait opts w ph ph.step.state quiet told)))
]

promotes-conclude_election :
    (opts : Options) (w : World) (o : Outcome) (log : List Action)
    → promotes log ≡ false
    → promotes (conclude_election opts w log o).log ≡ true
    → (o.result ≡ won) ⊎ IsAsked opts w o.daemon.local.node_id
unfolding conclude_election
promotes-conclude_election opts w o log n h =
    elim (Bool-cases (is_called_off o.result o.new_primary_id)) [
      | inl e ↦ absurd (ground arith)
      | inr e ↦ promotes-proceed opts w o log n (rw e at h)
    ]

-- A standby runs its promote command in a failover only if it won the election, or a notification
-- that names it arrived within the notification timeout.
pub promote_needs_cause :
    (opts : Options) (w : World) (d : Daemon)
    → promotes (do_primary_failover opts w d).log ≡ true
    → ((election_of opts w d).result ≡ won)
      ⊎ IsAsked opts w (election_of opts w d).daemon.local.node_id
unfolding do_primary_failover
promote_needs_cause opts w d h =
    promotes-conclude_election opts w (election_of opts w d)
      (before_election opts w ++ reenable opts) (ground arith) h
