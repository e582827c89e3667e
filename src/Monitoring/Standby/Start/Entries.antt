-- ===== src/Monitoring/Standby/Start/Entries.antt =====
-- `monitor_streaming_standby`: in which state the loop is entered.
use hg_repmgr.Base.{
  eqb_ℤ, if_elim, ◌<◌, ℤ, pos, ℕ, Bool, true, false, Option, none, some, ◌≡◌, arith, ◌*◌,
}
use hg_repmgr.Daemon.{reset_node_voting_status}
use hg_repmgr.Monitoring.{
  get_primary_connection, unknown_node_id, err_db_conn, ExitCode, get_node_record, MonitorOptions,
  RecordStatus, record_found, is_degraded, is_status_up, exits, err_monitoring_timeout,
}
use hg_repmgr.Monitoring.Standby.{reconnects_within, StandbyState, is_standby_type, with_daemon}
use hg_repmgr.Monitoring.Standby.Degraded.{DegradedView, standby_degraded}
use hg_repmgr.Monitoring.Standby.Start.{
  start_dies, StartView, enters_loop, enters_degraded, Started, with_upstream, without_upstream,
  known_upstream, unknown_upstream, standby_start,
}

-- What holds where the start leads into the loop: from the top of the loop monitoring is normal and
-- the upstream node is up; from the middle monitoring is degraded, and the upstream node is a
-- standby that is down. The start of degraded monitoring is not set.
abbrev pub Enters : StandbyState → Started → Type 0
Enters s e =
    (e.entry ≡ enters_loop
      → (is_degraded e.after.daemon.monitoring_state ≡ false)
        × (is_status_up e.after.daemon.upstream.node_status ≡ true))
    × (e.entry ≡ enters_degraded
        → (is_degraded e.after.daemon.monitoring_state ≡ true)
          × (is_status_up e.after.daemon.upstream.node_status ≡ false)
          × (is_standby_type e.after.daemon.upstream.type ≡ true)
          × (e.after.degraded_start ≡ s.degraded_start))

start_dies-Enters : (c : ExitCode) (t s : StandbyState) → Enters s (start_dies c t)
start_dies-Enters c t s = (λ h. absurd (ground (arith, h)), λ h. absurd (ground (arith, h)))

with_upstream-Enters : (v : StartView) (s : StandbyState) → Enters s (with_upstream v s)
unfolding with_upstream
with_upstream-Enters v s =
    (λ h. (ground (arith, h), ground (arith, h)), λ h. absurd (ground (arith, h)))

without_upstream-Enters : (s : StandbyState) → Enters s (without_upstream s)
unfolding without_upstream
without_upstream-Enters s = (
  λ h. (ground (arith, h), ground (arith, h)),
  λ h. (ground (arith, h), ground (arith, h), ground (arith, h), ground (arith, h)),
)

known_upstream-Enters :
    (mo : MonitorOptions) (v : StartView) (s : StandbyState) (r : RecordStatus)
    → Enters s (known_upstream mo v s r)
unfolding known_upstream
known_upstream-Enters mo v s (record_found n) =
    let t =
      with_daemon s
        (record s.daemon { upstream = get_node_record (record_found n) s.daemon.upstream }) in
    if_elim (Enters s) v.connects (with_upstream-Enters v t) (
      if_elim (Enters s) (reconnects_within (mo.standby_wait_timeout * 6) v.connects_later 0)
        (with_upstream-Enters v t) (without_upstream-Enters t))
known_upstream-Enters mo v s _ = (λ h. absurd (ground (arith, h)), λ h. absurd (ground (arith, h)))

unknown_upstream-Enters :
    (v : StartView) (s : StandbyState) (id : Option ℤ) → Enters s (unknown_upstream v s id)
unfolding unknown_upstream
unknown_upstream-Enters v s none =
    (λ h. absurd (ground (arith, h)), λ h. absurd (ground (arith, h)))
unknown_upstream-Enters v s (some id) =
    let d = record s.daemon { local = record s.daemon.local { upstream_node_id = id } } in
    let t = with_daemon s (record d { upstream = get_node_record v.upstream_record d.upstream }) in
    if_elim (Enters s) v.connects (with_upstream-Enters v t) (start_dies-Enters err_db_conn t s)

-- The start of monitoring a standby enters the loop at its top in normal monitoring with an upstream
-- node that counts as up, and in its middle only in degraded monitoring of an upstream node that is
-- a standby and counts as down; the time at which degraded monitoring began is then the one from
-- before.
pub standby_start-Enters :
    (mo : MonitorOptions) (v : StartView) (s : StandbyState) → Enters s (standby_start mo v s)
unfolding standby_start
standby_start-Enters mo v s =
    let t = with_daemon s (reset_node_voting_status s.daemon) in
    if_elim (Enters s) (eqb_ℤ t.daemon.local.upstream_node_id unknown_node_id)
      (unknown_upstream-Enters v t (get_primary_connection v.candidates))
      (known_upstream-Enters mo v t v.upstream_record)

-- `degraded_monitoring_start` is 0 in a new process. If such a process enters the loop in degraded
-- monitoring, and a degraded monitoring timeout is set that is less than the time on the clock, it
-- ends in the first turn.
pub early_timeout :
    (mo : MonitorOptions) (v : StartView) (s : StandbyState) (reconnects : ℤ → Bool)
    (later : DegradedView) (timeout : ℕ)
    → s.degraded_start ≡ 0
    → (standby_start mo v s).entry ≡ enters_degraded
    → mo.degraded_monitoring_timeout ≡ pos timeout
    → 0 < timeout
    → timeout < later.now
    → (standby_degraded mo reconnects later (standby_start mo v s).after).flow
      ≡ exits err_monitoring_timeout
unfolding standby_degraded
early_timeout mo v s reconnects later timeout z e t l k =
    let (degraded, _, _, kept) = (standby_start-Enters mo v s).1 e in
    ground (arith, z, e, t, l, k, degraded, kept)
