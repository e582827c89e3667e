-- ===== src/Failover/Primary/Notices.antt =====
-- `do_primary_failover`: which node the notices name that it sends to the siblings.
use mathlib.Core.Path.{subst}
use hg_repmgr.Base.{
  ℤ, negsuc, Bool, true, ◌&&◌, ◌||◌, List, [], ◌∷◌, ◌++◌, ◌≡◌, inl, inr, refl, arith, eqb_ℤ,
  eqb_ℤ_refl, Bool-cases, Option-cases, ap, sym,
}
use hg_repmgr.SharedState.{election_rerun_notification}
use hg_repmgr.Daemon.{
  Options, Daemon, FailoverState, state_unknown, promoted, primary_reappeared, waiting_new_primary,
  no_new_primary, follow_new_primary, ElectionResult, won, rerun, degrade,
}
use hg_repmgr.Node.{NodeInfo}
use hg_repmgr.Election.{Cell}
use hg_repmgr.Election.Vote.{Outcome}
use hg_repmgr.Failover.{
  Action, notify_follower, bind_virtual_ip, event_disconnect_manual, PromoteView, promote_self,
  notify_followers, poll_new_primary, Step, finish,
}
use hg_repmgr.Failover.Steps.{FollowView, wait_primary_notification}
use hg_repmgr.Failover.Steps
use hg_repmgr.Failover.Primary.{
  World, Phase, after_election, on_notification, follow_or_wait, settle, conclude_phase, proceed,
  conclude_election, do_primary_failover, is_called_off, before_election, reenable, in_state,
  then_step,
}
use hg_repmgr.Failover.Primary.Safety.{election_of}
use hg_repmgr.Failover.Primary.Kept.{election_of-Keeps}

-- A notice names node `own`, node `up`, or a rerun of the election.
abbrev pub names : ℤ → ℤ → Action → Bool
names own up (notify_follower receiver id) =
    eqb_ℤ id own || eqb_ℤ id up || eqb_ℤ id election_rerun_notification
names own up _ = true

abbrev pub all_name : ℤ → ℤ → List Action → Bool
all_name own up [] = true
all_name own up (a ∷ as') = names own up a && all_name own up as'

module _ (own up : ℤ) where
  all_name-append :
      (xs ys : List Action)
      → all_name own up (xs ++ ys) ≡ (all_name own up xs && all_name own up ys)
  all_name-append [] ys = refl
  all_name-append (x ∷ xs) ys = ground (arith, all_name-append xs ys)

  all_name-notify_followers :
      (reconnects : ℤ → Bool) (cs : List Cell) (id : ℤ)
      → (eqb_ℤ id own || eqb_ℤ id up || eqb_ℤ id election_rerun_notification) ≡ true
      → all_name own up (notify_followers reconnects cs id) ≡ true
  unfolding notify_followers
  all_name-notify_followers reconnects [] id h = refl
  all_name-notify_followers reconnects (c ∷ cs) id h =
      ground (arith, all_name-notify_followers reconnects cs id h)

  all_name-promote_self :
      (v : PromoteView) (d : Daemon) → all_name own up (promote_self v d).log ≡ true
  unfolding promote_self
  all_name-promote_self v d = ground arith

  all_name-follow :
      (opts : Options) (v : FollowView) (id : ℤ) (d : Daemon)
      → all_name own up (Steps.follow_new_primary opts v id d).log ≡ true
  unfolding Steps.follow_new_primary
  all_name-follow opts v id d = ground arith

promote_self-upstream :
    (v : PromoteView) (d : Daemon) → (promote_self v d).daemon.upstream ≡ d.upstream
unfolding promote_self
promote_self-upstream v d = ground arith

follow-upstream :
    (opts : Options) (v : FollowView) (id : ℤ) (d : Daemon)
    → (Steps.follow_new_primary opts v id d).state ≡ primary_reappeared
    → (Steps.follow_new_primary opts v id d).daemon.upstream ≡ d.upstream
unfolding Steps.follow_new_primary
follow-upstream opts v id d h = ground arith

-- A phase whose notices are reruns, and whose upstream is still `up` if its primary reappeared.
pub record IsTame (up : ℤ) (ph : Phase) : Type 0 where
  pub named : (own : ℤ) → all_name own up ph.step.log ≡ true
  pub kept : ph.step.state ≡ primary_reappeared → ph.step.daemon.upstream.node_id ≡ up

module _ (opts : Options) (w : World) where
  IsTame-after_election :
      (o : Outcome) (d : Daemon) (r : ElectionResult)
      → IsTame d.upstream.node_id (after_election opts w o d r)
  unfolding after_election
  IsTame-after_election o d won = record {
    named = λ own. ground (
      arith,
      all_name-promote_self own d.upstream.node_id w.promote d,
      all_name-append own d.upstream.node_id (promote_self w.promote d).log [],
      all_name-append own d.upstream.node_id (promote_self w.promote d).log (bind_virtual_ip ∷ []),
    );
    kept = λ h. ap (λ (n : NodeInfo). n.node_id) (promote_self-upstream w.promote d);
  }
  IsTame-after_election o d rerun = record {
    named = λ own.
        all_name-notify_followers own d.upstream.node_id w.reconnects o.siblings (negsuc 1)
          (ground arith);
    kept = λ h. refl;
  }
  IsTame-after_election o d _ = record { named = λ own. refl; kept = λ h. refl }

  settle-names :
      (ph : Phase) (up : ℤ) (log : List Action)
      → ((own : ℤ) → all_name own up log ≡ true)
      → (f : FailoverState) → (f ≡ primary_reappeared → ph.step.daemon.upstream.node_id ≡ up)
      → all_name
          (settle w ph ph.step.daemon log f).daemon.local.node_id
          up
          (settle w ph ph.step.daemon log f).log
        ≡ true
  unfolding settle degrade
  settle-names ph up log h promoted k =
      let own = ph.step.daemon.local.node_id in
      rw (all_name-append own up log (notify_followers w.reconnects ph.siblings own), h own)
        (all_name-notify_followers own up w.reconnects ph.siblings own
          (ground (arith, eqb_ℤ_refl own)))
  settle-names ph up log h primary_reappeared k =
      let own = ph.step.daemon.local.node_id in
      let told = ph.step.daemon.upstream.node_id in
      rw (all_name-append own up log (notify_followers w.reconnects ph.siblings told), h own)
        (all_name-notify_followers own up w.reconnects ph.siblings told
          (ground (arith, k refl, eqb_ℤ_refl up)))
  settle-names ph up log h _ k = h ph.step.daemon.local.node_id

  IsTame-step :
      (up : ℤ) (ph : Phase) (s : Step)
      → ((own : ℤ) → all_name own up ph.step.log ≡ true)
      → ((own : ℤ) → all_name own up s.log ≡ true)
      → (s.state ≡ primary_reappeared → s.daemon.upstream.node_id ≡ up)
      → IsTame up (then_step ph s)
  IsTame-step up ph s h k e = record {
    named = λ own. rw (all_name-append own up ph.step.log s.log, h own, k own);
    kept = e;
  }

  IsTame-on_notification :
      (ph : Phase) (id : ℤ) (d : Daemon)
      → ((own : ℤ) → all_name own d.upstream.node_id ph.step.log ≡ true)
      → IsTame d.upstream.node_id (on_notification opts w ph id d)
  unfolding on_notification
  IsTame-on_notification ph id d h = record {
    named = λ own. ground (
      arith,
      h own,
      all_name-promote_self own d.upstream.node_id w.promote d,
      all_name-follow own d.upstream.node_id opts w.follow id d,
      all_name-append own d.upstream.node_id ph.step.log [],
      all_name-append own d.upstream.node_id ph.step.log (event_disconnect_manual ∷ []),
      all_name-append own d.upstream.node_id ph.step.log (promote_self w.promote d).log,
      all_name-append own d.upstream.node_id ph.step.log
          (Steps.follow_new_primary opts w.follow id d).log,
    );
    kept =
        λ q. ground (arith, promote_self-upstream w.promote d, follow-upstream opts w.follow id d);
  }

  IsTame-follow_or_wait :
      (ph : Phase) (f : FailoverState)
      → IsTame ph.step.daemon.upstream.node_id ph
      → IsTame ph.step.daemon.upstream.node_id (follow_or_wait opts w ph f)
  unfolding follow_or_wait wait_primary_notification degrade
  IsTame-follow_or_wait ph follow_new_primary t =
      IsTame-step ph.step.daemon.upstream.node_id ph
        (Steps.follow_new_primary opts w.follow ph.new_primary_id ph.step.daemon) t.named
        (λ own.
          all_name-follow own ph.step.daemon.upstream.node_id opts w.follow ph.new_primary_id
            ph.step.daemon)
        (λ h.
          ap (λ (n : NodeInfo). n.node_id)
            (follow-upstream opts w.follow ph.new_primary_id ph.step.daemon h))
  IsTame-follow_or_wait ph waiting_new_primary t =
      elim (Option-cases (poll_new_primary opts.primary_notification_timeout w.notified 0)) [
        | inl e ↦ rw e (
            IsTame-step ph.step.daemon.upstream.node_id ph
              (finish no_new_primary (degrade ph.step.daemon) []) t.named (λ own. refl) (λ h. refl))
        | inr (id, e) ↦ rw e (IsTame-on_notification ph id ph.step.daemon t.named)
      ]
  IsTame-follow_or_wait ph _ t = t

after_election-upstream :
    (opts : Options) (w : World) (o : Outcome) (d : Daemon) (r : ElectionResult)
    → (after_election opts w o d r).step.daemon.upstream ≡ d.upstream
unfolding after_election
after_election-upstream opts w o d won = promote_self-upstream w.promote d
after_election-upstream opts w o d _ = refl

-- From a tame phase with its upstream on, through the second part and the `switch`.
conclude_phase-names :
    (opts : Options) (w : World) (ph : Phase) (log : List Action)
    → ((own : ℤ) → all_name own ph.step.daemon.upstream.node_id log ≡ true)
    → IsTame ph.step.daemon.upstream.node_id ph
    → all_name
        (conclude_phase w log (follow_or_wait opts w ph ph.step.state)).daemon.local.node_id
        ph.step.daemon.upstream.node_id
        (conclude_phase w log (follow_or_wait opts w ph ph.step.state)).log
      ≡ true
unfolding conclude_phase
conclude_phase-names opts w ph log h tame =
    let up = ph.step.daemon.upstream.node_id in
    let end = follow_or_wait opts w ph ph.step.state in
    let t = IsTame-follow_or_wait opts w ph ph.step.state tame in
    settle-names opts w end up (log ++ end.step.log)
      (λ own. rw (all_name-append own up log end.step.log, h own, t.named own)) end.step.state
      t.kept

proceed-names :
    (opts : Options) (w : World) (o : Outcome) (log : List Action)
    → ((own : ℤ) → all_name own o.daemon.upstream.node_id log ≡ true)
    → all_name
        (proceed opts w o log).daemon.local.node_id
        o.daemon.upstream.node_id
        (proceed opts w o log).log
      ≡ true
unfolding proceed
proceed-names opts w o log h =
    let d = in_state state_unknown o.daemon in
    let ph = after_election opts w o d o.result in
    let kept = ap (λ (n : NodeInfo). n.node_id) (after_election-upstream opts w o d o.result) in
    subst
      (λ up.
        all_name (proceed opts w o log).daemon.local.node_id up (proceed opts w o log).log ≡ true)
      kept
      (conclude_phase-names opts w ph log
        (λ own. subst (λ up. all_name own up log ≡ true) (sym kept) (h own))
        (subst (λ up. IsTame up ph) (sym kept) (IsTame-after_election opts w o d o.result)))

conclude_election-names :
    (opts : Options) (w : World) (o : Outcome) (log : List Action)
    → ((own : ℤ) → all_name own o.daemon.upstream.node_id log ≡ true)
    → all_name
        (conclude_election opts w log o).daemon.local.node_id
        o.daemon.upstream.node_id
        (conclude_election opts w log o).log
      ≡ true
unfolding conclude_election
conclude_election-names opts w o log h =
    elim (Bool-cases (is_called_off o.result o.new_primary_id)) [
      | inl e ↦ rw e (h o.daemon.local.node_id)
      | inr e ↦ rw e (proceed-names opts w o log h)
    ]

prologue-names :
    (opts : Options) (w : World) (own up : ℤ)
    → all_name own up (before_election opts w ++ reenable opts) ≡ true
unfolding before_election reenable
prologue-names opts w own up = ground arith

-- Every notice that a failover sends to a sibling names the local node (by its ID at the end), the
-- node that was its upstream at the start, or a rerun of the election.
pub do_primary_failover-names :
    (opts : Options) (w : World) (d : Daemon)
    → all_name
        (do_primary_failover opts w d).daemon.local.node_id
        d.upstream.node_id
        (do_primary_failover opts w d).log
      ≡ true
unfolding do_primary_failover
do_primary_failover-names opts w d =
    let (u, n) = election_of-Keeps opts w d in
    subst
      (λ (x : NodeInfo).
        all_name (do_primary_failover opts w d).daemon.local.node_id x.node_id
          (do_primary_failover opts w d).log
        ≡ true)
      u
      (conclude_election-names opts w (election_of opts w d)
        (before_election opts w ++ reenable opts)
        (λ own. prologue-names opts w own (election_of opts w d).daemon.upstream.node_id))
