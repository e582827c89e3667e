-- ===== src/Monitoring/Standby/Paused.antt =====
-- `monitor_streaming_standby`: a turn while repmgrd is paused.
use hg_repmgr.Base.{
  if◌then◌else◌, if_elim, ℕ, Bool-cases, Bool, true, false, List, [], ◌∷◌, ◌≡◌, inl, inr, refl,
  arith,
}
use hg_repmgr.SharedState.{repmgrd_is_paused, set_upstream_last_seen}
use hg_repmgr.Daemon.{Daemon, degrade}
use hg_repmgr.Failover.{
  check_connection, Action, run_promote_command, run_follow_command, notify_followers,
}
use hg_repmgr.Monitoring.{status_unknown, is_status_up, event, Deed, MonitorOptions, falls}
use hg_repmgr.Monitoring.Deeds.{does, does-append}
use hg_repmgr.Monitoring.Standby.{
  try_reconnect, upstream_answers, with_upstream_status, standby_part, StandbyState, StandbyPart,
  UpstreamView, rejoin_part, upstream_part, upstream_lost, upstream_down, upstream_recovered,
  restart_unknown, with_daemon,
}
use hg_repmgr.Monitoring.Standby.Degraded.{DegradedView, look_for_primary}
use hg_repmgr.Monitoring.Standby.Turn.{StandbyView, upstream_half, standby_turn, with_memory}
use hg_repmgr.Monitoring.Standby.Quiet.{
  rejoin_part-daemon, at_upstream, standby_turn-does, upstream_half-does, NotifiesQuietly,
  does-standby_degraded,
}

-- The promote or the follow command.
abbrev pub is_command : Action → Bool
is_command run_promote_command = true
is_command (run_follow_command c) = true
is_command _ = false

notices_are_quiet : NotifiesQuietly is_command
unfolding notify_followers
notices_are_quiet reconnects [] id = refl
notices_are_quiet reconnects (c ∷ cs) id = ground (arith, notices_are_quiet reconnects cs id)

-- The local connection is up, and the shared memory says that repmgrd is paused.
abbrev pub SeesPause : Daemon → Type 0
SeesPause d = (d.local_conn_ok ≡ true) × (repmgrd_is_paused d.shared ≡ true)

-- No command was run, and where the part falls through the pause is still seen.
Obeys : StandbyPart → Type 0
Obeys q = (does is_command q.log ≡ false) × (q.flow ≡ falls → SeesPause q.after.daemon)

upstream_down-Obeys :
    (mo : MonitorOptions) (v : UpstreamView) (s : StandbyState) (log : List Deed)
    → SeesPause s.daemon
    → does is_command log ≡ false
    → Obeys (upstream_down mo v s log)
unfolding upstream_down Obeys degrade
upstream_down-Obeys mo v s log (c, h) n = ground (arith, c, h, n)

upstream_recovered-Obeys :
    (mo : MonitorOptions) (v : UpstreamView) (s : StandbyState) (log : List Deed)
    → does is_command log ≡ false
    → Obeys (upstream_recovered mo v s log)
unfolding upstream_recovered restart_unknown Obeys
upstream_recovered-Obeys mo v s log n = (
  ground (arith, n, does-append is_command log (event "repmgrd_upstream_reconnect" true ∷ [])),
  λ f. ground (arith, f),
)

upstream_lost-Obeys :
    (mo : MonitorOptions) (v : UpstreamView) (s : StandbyState)
    → SeesPause s.daemon
    → Obeys (upstream_lost mo v s)
unfolding upstream_lost
upstream_lost-Obeys mo v s (c, h) =
    let d = with_upstream_status status_unknown s.daemon in
    let e = if d.local_conn_ok then d else check_connection mo.failover_options v.conn d in
    let status = (try_reconnect mo.reconnect_attempts v.attempts).node_status in
    let t = with_daemon s (with_upstream_status status e) in
    let lost = event "repmgrd_upstream_disconnect" true ∷ [] in
    if_elim Obeys (is_status_up status) (upstream_recovered-Obeys mo v t lost refl)
      (upstream_down-Obeys mo v t lost (ground (arith, c, h), ground (arith, c, h)) refl)

unchanged-Obeys : (s : StandbyState) → SeesPause s.daemon → Obeys (standby_part falls s [])
unfolding Obeys
unchanged-Obeys s c = (refl, λ f. c)

seen-Obeys :
    (now : ℕ) (s : StandbyState)
    → SeesPause s.daemon
    → Obeys (
        standby_part falls
          (if s.daemon.local_conn_ok
            then with_daemon s
                (record s.daemon { shared = set_upstream_last_seen now s.daemon.shared })
            else s)
          [])
unfolding Obeys set_upstream_last_seen repmgrd_is_paused
seen-Obeys now s (c, h) = (refl, λ f. (ground (arith, c), ground (arith, c, h)))

upstream_part-Obeys :
    (mo : MonitorOptions) (v : UpstreamView) (s : StandbyState)
    → SeesPause s.daemon
    → Obeys (upstream_part mo v s)
unfolding upstream_part
upstream_part-Obeys mo v s c =
    let d = s.daemon in
    if_elim Obeys (upstream_answers mo v.check) (seen-Obeys v.now s c) (
      if_elim Obeys (is_status_up d.upstream.node_status) (upstream_lost-Obeys mo v s c)
        (unchanged-Obeys s c))

looks_quietly :
    (mo : MonitorOptions) (v : DegradedView) (s : StandbyState)
    → SeesPause s.daemon
    → does is_command (look_for_primary mo v s).log ≡ false
unfolding look_for_primary
looks_quietly mo v s (c, h) = ground (arith, c, h)

paused_upstream_half :
    (v : StandbyView) (s : StandbyState)
    → SeesPause s.daemon
    → does is_command (upstream_half v s).log ≡ true
    → ⊥
unfolding Obeys
paused_upstream_half v s c h =
    let r = (rejoin_part v.options v.upstream s).after in
    let same = rejoin_part-daemon v.options v.upstream s in
    let quiet = upstream_part-Obeys v.options v.upstream r (rw same c) in
    elim (upstream_half-does is_command v s h) [
      | inl k ↦ ground (arith, k, quiet.0)
      | inr (f, k) ↦ ground (
        arith,
        k,
        does-standby_degraded is_command v.options v.upstream.world.reconnects v.degraded
            (at_upstream v s).after notices_are_quiet
            (λ n.
              looks_quietly v.options v.degraded
                (with_daemon (at_upstream v s).after
                  (record (at_upstream v s).after.daemon { local = n }))
                (quiet.1 f)),
      )
    ]

-- While repmgrd is paused and its local connection is up, a turn of the loop of a standby runs
-- neither the promote nor the follow command.
pub paused_turn :
    (v : StandbyView) (s : StandbyState)
    → SeesPause (with_memory v s).daemon
    → does is_command (standby_turn v s).log ≡ false
paused_turn v s c = elim (Bool-cases (does is_command (standby_turn v s).log)) [
  | inl h ↦ absurd (paused_upstream_half v (with_memory v s) c (standby_turn-does is_command v s h))
  | inr h ↦ h
]
