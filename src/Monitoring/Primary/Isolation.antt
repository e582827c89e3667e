-- ===== src/Monitoring/Primary/Isolation.antt =====
-- `monitor_streaming_primary`: what has been done when a primary is in degraded monitoring.
use hg_repmgr.Base.{
  ℕ, Bool, true, false, ◌||◌, List, [], ◌∷◌, ◌++◌, Option, none, inl, inr, ◌≡◌, refl, arith,
  Bool-cases, if◌then◌else◌,
}
use hg_repmgr.Daemon.{Daemon}
use hg_repmgr.Failover.{register, check_connection}
use hg_repmgr.Monitoring.{
  is_degraded, falls, jumps, with_status, Flow, event, status_unknown, Deed, kill_service,
  unbind_virtual_ip, stop_fast, MonitorOptions,
}
use hg_repmgr.Monitoring.Status.{StatusView, check_primary_status}
use hg_repmgr.Monitoring.Primary.{
  disk_check, local_settled, with_daemon, reconnect_local, respond, probe_local, PrimaryState,
  PrimaryView, Part, status_part, isolate, check_local, local_lost, sync_part, degraded_part,
  brain_split_part, then_part, at_loop_label, primary_turn, primary_run,
}
use hg_repmgr.Monitoring.Rejoin.{exec_node_rejoin_primary, RejoinView}

-- The server is stopped.
abbrev pub stops : List Deed → Bool
stops [] = false
stops (stop_fast ∷ ds) = true
stops (_ ∷ ds) = stops ds

-- The virtual IP is taken down, and after that the server is stopped.
abbrev pub isolated : List Deed → Bool
isolated [] = false
isolated (unbind_virtual_ip ∷ ds) = stops ds || isolated ds
isolated (_ ∷ ds) = isolated ds

stops-append : (xs ys : List Deed) → stops xs ≡ true → stops (xs ++ ys) ≡ true
stops-append [] ys h = absurd (ground arith)
stops-append (x ∷ xs) ys h = ground (arith, stops-append xs ys)

isolated-append : (xs ys : List Deed) → isolated xs ≡ true → isolated (xs ++ ys) ≡ true
isolated-append [] ys h = absurd (ground arith)
isolated-append (x ∷ xs) ys h = ground (arith, isolated-append xs ys, stops-append xs ys)

pub isolated-onto : (xs ys : List Deed) → isolated ys ≡ true → isolated (xs ++ ys) ≡ true
isolated-onto [] ys h = h
isolated-onto (x ∷ xs) ys h = ground (arith, isolated-onto xs ys)

check_primary_status-degraded :
    (elapsed : Option ℕ) (v : StatusView) (d : Daemon)
    → is_degraded d.monitoring_state ≡ false
    → is_degraded (check_primary_status elapsed v d).daemon.monitoring_state ≡ false
unfolding check_primary_status
check_primary_status-degraded elapsed v d h = ground arith

-- A part that begins in normal monitoring and ends in degraded monitoring has isolated the node.
Covered : PrimaryState → Part → Type 0
Covered s p =
    is_degraded s.daemon.monitoring_state ≡ false
    → is_degraded p.after.daemon.monitoring_state ≡ true
    → isolated p.log ≡ true

status_part-Covered :
    (f : Flow) (elapsed : Option ℕ) (v : StatusView) (s : PrimaryState) (log : List Deed)
    → Covered s (status_part f elapsed v s log)
unfolding status_part Covered
status_part-Covered f elapsed v s log h k =
    absurd (ground (arith, check_primary_status-degraded elapsed v s.daemon h))

pub isolate-isolated :
    (v : RejoinView) (at : ℕ) (s : PrimaryState) (log : List Deed)
    → isolated (isolate v at s log).log ≡ true
unfolding isolate
isolate-isolated v at s log =
    isolated-onto log (unbind_virtual_ip ∷ stop_fast ∷ exec_node_rejoin_primary v) refl

reconnect_local-degraded :
    (mo : MonitorOptions) (v : PrimaryView) (d : Daemon)
    → (reconnect_local mo v d).monitoring_state ≡ d.monitoring_state
unfolding reconnect_local
reconnect_local-degraded mo v d = ground arith

local_settled-Covered :
    (mo : MonitorOptions) (v : PrimaryView) (s : PrimaryState) (log : List Deed)
    → Covered s (local_settled mo v s log)
unfolding local_settled Covered
local_settled-Covered mo v s log h k =
    let shared = register mo.failover_options v.conn s.daemon.shared in
    ground (
      arith,
      isolate-isolated v.rejoin v.lost_at s log,
      status_part-Covered jumps none v.after_reconnect
          (with_daemon s (record s.daemon { shared = shared }))
          (log ++ event "repmgrd_local_reconnect" true ∷ []) h,
    )

local_lost-Covered :
    (mo : MonitorOptions) (v : PrimaryView) (s : PrimaryState) (log : List Deed)
    → Covered s (local_lost mo v s log)
unfolding local_lost Covered
local_lost-Covered mo v s log h k =
    local_settled-Covered mo v
      (with_daemon s (reconnect_local mo v (with_status status_unknown s.daemon)))
      (log ++ event "repmgrd_local_disconnect" true ∷ [])
      (rw (reconnect_local-degraded mo v (with_status status_unknown s.daemon)) h) k

respond-Covered :
    (mo : MonitorOptions) (v : PrimaryView) (s : PrimaryState) (log : List Deed)
    → Covered s (respond mo v s log)
unfolding respond Covered sync_part
respond-Covered mo v s log h k = ground (arith, local_lost-Covered mo v s log)

probe_local-degraded :
    (mo : MonitorOptions) (v : PrimaryView) (s : PrimaryState)
    → (probe_local mo v s).daemon.monitoring_state ≡ s.daemon.monitoring_state
unfolding probe_local check_connection
probe_local-degraded mo v s = ground arith

check_local-Covered :
    (mo : MonitorOptions) (v : PrimaryView) (s : PrimaryState) → Covered s (check_local mo v s)
unfolding check_local Covered
check_local-Covered mo v s h k =
    respond-Covered mo v (probe_local mo v s)
      (if (disk_check mo v s).kills then kill_service ∷ [] else [])
      (rw (probe_local-degraded mo v s) h) k

degraded_part-Covered :
    (mo : MonitorOptions) (v : PrimaryView) (s : PrimaryState) → Covered s (degraded_part mo v s)
unfolding degraded_part Covered
degraded_part-Covered mo v s h k = absurd (ground arith)

brain_split_part-Covered :
    (mo : MonitorOptions) (v : PrimaryView) (s : PrimaryState) → Covered s (brain_split_part mo v s)
unfolding brain_split_part Covered
brain_split_part-Covered mo v s h k =
    ground (arith, isolate-isolated v.split_rejoin v.split_at s [])

then_part-Covered :
    (next : PrimaryState → Part) (s : PrimaryState) (p : Part)
    → Covered s p
    → ((t : PrimaryState) → Covered t (next t))
    → Covered s (then_part next p)
unfolding then_part Covered
then_part-Covered next s p c cs h k =
    elim (Bool-cases (is_degraded p.after.daemon.monitoring_state)) [
      | inl e ↦ ground (arith, c h e, isolated-append p.log (next p.after).log)
      | inr e ↦ ground (arith, cs p.after e, isolated-onto p.log (next p.after).log)
    ]

primary_turn-Covered :
    (mo : MonitorOptions) (v : PrimaryView) (s : PrimaryState) → Covered s (primary_turn mo v s)
unfolding primary_turn Covered
primary_turn-Covered mo v s =
    let local =
      then_part-Covered (degraded_part mo v) s (check_local mo v s) (check_local-Covered mo v s)
        (degraded_part-Covered mo v) in
    then_part-Covered (brain_split_part mo v) s
      (then_part (λ t. status_part falls none v.at_loop t [])
        (at_loop_label (then_part (degraded_part mo v) (check_local mo v s))))
      (then_part-Covered (λ t. status_part falls none v.at_loop t []) s
        (at_loop_label (then_part (degraded_part mo v) (check_local mo v s))) local
        (λ t. status_part-Covered falls none v.at_loop t []))
      (brain_split_part-Covered mo v)

-- A repmgrd that monitors a primary, begins in normal monitoring and ends in degraded monitoring,
-- over any number of turns, has taken down the virtual IP and then stopped the server.
pub primary_run-isolated :
    (vs : List (MonitorOptions × PrimaryView)) (s : PrimaryState)
    → is_degraded s.daemon.monitoring_state ≡ false
    → is_degraded (primary_run vs s).0.daemon.monitoring_state ≡ true
    → isolated (primary_run vs s).1 ≡ true
unfolding primary_run Covered
primary_run-isolated [] s h k = absurd (ground arith)
primary_run-isolated ((mo, v) ∷ vs) s h k =
    let p = primary_turn mo v s in
    elim (Bool-cases (is_degraded p.after.daemon.monitoring_state)) [
      | inl e ↦
          ground (
            arith,
            primary_turn-Covered mo v s h e,
            isolated-append p.log (primary_run vs p.after).1,
          )
      | inr e ↦
          ground (
            arith,
            primary_run-isolated vs p.after e,
            isolated-onto p.log (primary_run vs p.after).1,
          )
    ]
