-- ===== src/Failover/Cluster.antt =====
-- The failovers of two standbys of one primary, whose notifications are each other's.
use hg_repmgr.Base.{
  ℤ, ℕ, zero, suc, true, List, [], ◌∷◌, Option, some, ◌≡◌, ◌≢◌, ◌⊎◌, inl, inr, arith, eqb_ℤ→eq,
  Bool-cases, Option-cases, In, here, there, sym, ◌∙◌,
}
use hg_repmgr.SharedState.{unknown_node_id, election_rerun_notification}
use hg_repmgr.Daemon.{Options, Daemon, won}
use hg_repmgr.Election.Safety.{Sees, no_two_winners}
use hg_repmgr.Failover.{
  Action, notify_follower, check_connection, query_new_primary, poll_new_primary,
}
use hg_repmgr.Failover.Primary.{World, do_primary_failover}
use hg_repmgr.Failover.Primary.Safety.{election_of, promotes, IsAsked, promote_needs_cause}
use hg_repmgr.Failover.Primary.Kept.{election_of-Keeps, check_connection-Keeps}
use hg_repmgr.Failover.Primary.Notices.{names, all_name, do_primary_failover-names}

-- Each node ID that is read as a notification was sent as a notice in the log.
abbrev pub Heard : (ℕ → Option ℤ) → List Action → Type 0
Heard notified log =
    (second : ℕ) (id : ℤ)
    → notified second ≡ some id
    → (id ≡ unknown_node_id) ⊎ ((receiver : ℤ) × In (notify_follower receiver id) log)

poll-answer :
    (left : ℕ) (answers : ℕ → Option ℤ) (i : ℕ) (id : ℤ)
    → poll_new_primary left answers i ≡ some id
    → (j : ℕ) × (answers j ≡ some id) × (id ≢ unknown_node_id)
unfolding poll_new_primary query_new_primary
poll-answer zero answers i id h = absurd (ground arith)
poll-answer (suc left) answers i id h = elim (Bool-cases (query_new_primary (answers i)).0) [
  | inl e ↦ elim (Option-cases (answers i)) [
    | inl q ↦ absurd (ground arith)
    | inr (k, q) ↦ (i, ground arith, ground arith)
  ]
  | inr e ↦ poll-answer left answers (suc i) id (rw e at h)
]

names-In :
    (own up : ℤ) (a : Action) (log : List Action)
    → In a log
    → all_name own up log ≡ true
    → names own up a ≡ true
names-In own up a [] i h = elim i [ ]
names-In own up a (x ∷ log) here h = ground arith
names-In own up a (x ∷ log) (there i) h = names-In own up a log i (ground arith)

named_apart :
    (own up other receiver : ℤ)
    → own ≢ other
    → up ≢ other
    → other ≢ election_rerun_notification
    → names own up (notify_follower receiver other) ≡ true
    → ⊥
named_apart own up other receiver a b c h = ground (
  arith,
  a,
  b,
  c,
  eqb_ℤ→eq other own,
  eqb_ℤ→eq other up,
  eqb_ℤ→eq other election_rerun_notification,
)

-- A failover by a standby of node `up` that tells of no other node than itself, `up` and reruns.
pub record Stays (opts : Options) (w : World) (d : Daemon) (other : ℤ) : Type 0 where
  pub same_id : (do_primary_failover opts w d).daemon.local.node_id ≡ d.local.node_id
  pub apart : d.local.node_id ≢ other
  pub no_upstream : d.upstream.node_id ≢ other

not-IsAsked :
    (opts opts' : Options) (w w' : World) (d : Daemon) (other : ℤ)
    → Stays opts w d other
    → other ≢ election_rerun_notification
    → Heard w'.notified (do_primary_failover opts w d).log
    → ¬ IsAsked opts' w' other
not-IsAsked opts opts' w w' d other s r h asked =
    let (j, q, u) = poll-answer opts'.primary_notification_timeout w'.notified 0 other asked in
    elim (h j other q) [
      | inl e ↦ u e
      | inr (receiver, i) ↦
          named_apart (do_primary_failover opts w d).daemon.local.node_id d.upstream.node_id other
            receiver (λ e. s.apart (sym s.same_id ∙ e)) s.no_upstream r
            (names-In (do_primary_failover opts w d).daemon.local.node_id d.upstream.node_id
              (notify_follower receiver other) (do_primary_failover opts w d).log i
              (do_primary_failover-names opts w d))
    ]

promoters :
    (opts : Options) (w : World) (d : Daemon)
    → ¬ IsAsked opts w d.local.node_id
    → promotes (do_primary_failover opts w d).log ≡ true
    → (election_of opts w d).result ≡ won
promoters opts w d n h = elim (promote_needs_cause opts w d h) [
  | inl e ↦ e
  | inr a ↦ absurd (n (rw (election_of-Keeps opts w d).1 at a))
]

-- Two standbys with different node IDs, whose elections see each other as rivals with their current
-- LSN, ID and priority, do not both run their promote commands in a failover, if each keeps its ID,
-- neither is the other's upstream, neither ID is that of a rerun, and every node ID that one of them
-- is notified of was sent by the other's failover.
pub no_double_promotion :
    (opts opts' : Options) (w w' : World) (d d' : Daemon)
    → Stays opts w d d'.local.node_id
    → Stays opts' w' d' d.local.node_id
    → d.local.node_id ≢ election_rerun_notification
    → d'.local.node_id ≢ election_rerun_notification
    → Heard w.notified (do_primary_failover opts' w' d').log
    → Heard w'.notified (do_primary_failover opts w d).log
    → Sees w.election
        (check_connection opts w.conn d)
        w'.election
        (check_connection opts' w'.conn d')
    → Sees w'.election
        (check_connection opts' w'.conn d')
        w.election
        (check_connection opts w.conn d)
    → ¬ (
        (promotes (do_primary_failover opts w d).log ≡ true)
        × (promotes (do_primary_failover opts' w' d').log ≡ true))
no_double_promotion opts opts' w w' d d' s s' r r' heard heard' see see' (p, p') =
    no_two_winners opts opts' w.election w'.election (check_connection opts w.conn d)
      (check_connection opts' w'.conn d')
      (λ e. s.apart (
        sym (check_connection-Keeps opts w.conn d).1
        ∙ e
        ∙ (check_connection-Keeps opts' w'.conn d').1))
      see see'
      (
        promoters opts w d (not-IsAsked opts' opts w' w d' d.local.node_id s' r heard) p,
        promoters opts' w' d' (not-IsAsked opts opts' w w' d d'.local.node_id s r' heard') p',
      )
