-- ===== src/Monitoring/Primary/Healthy.antt =====
-- `monitor_streaming_primary`: the turns of primaries that are well, alone or in a brain split.
use hg_repmgr.Base.{
  ap, ◌∙◌, ℕ, true, false, List, [], ◌++◌, none, map, ◌≡◌, refl, arith, ◌≢◌, ◌⊎◌, inl, inr,
}
use mathlib.Core.List.{append-nil}
use hg_repmgr.Node.{rectype_primary}
use hg_repmgr.Daemon.{Daemon}
use hg_repmgr.Failover.{check_connection}
use hg_repmgr.SyncMode.{check_sync_async}
use hg_repmgr.BrainSplit.{do_nothing, do_rejoin, check_bs}
use hg_repmgr.BrainSplit.Duel.{Prevails, Faces, check_bs_duel}
use hg_repmgr.Monitoring.{is_degraded, falls, is_status_up, Deed, sync_command, MonitorOptions}
use hg_repmgr.Monitoring.Rejoin.Disk.{check_disk-calm}
use hg_repmgr.Monitoring.Rejoin.{calm, check_network_card_status}
use hg_repmgr.Monitoring.Status.{check_primary_status, StatusView, stays}
use hg_repmgr.Monitoring.Primary.{
  disk_check, RejoinView, PrimaryState, PrimaryView, Part, part, isolate, check_local,
  degraded_part, brain_split_part, then_part, primary_turn, sync_part, probe_local, respond,
}
use hg_repmgr.Monitoring.Primary.Isolation.{isolate-isolated, isolated, isolated-onto}

-- The server answers over its connection, its disk and its network card work, and it is a primary.
pub record Healthy (mo : MonitorOptions) (v : PrimaryView) (s : PrimaryState) : Type 0 where
  pub connected : s.daemon.local_conn_ok ≡ true
  pub available : v.conn.available ≡ true
  pub disk : (disk_check mo v s).kills ≡ false
  pub card : check_network_card_status true v.card v.carrier ≡ true
  pub is_primary : v.at_loop.recovery_type ≡ rectype_primary

probe_local-Healthy :
    (mo : MonitorOptions) (v : PrimaryView) (s : PrimaryState)
    → Healthy mo v s
    → probe_local mo v s ≡ record s { disk_alarm = calm }
unfolding probe_local check_connection
probe_local-Healthy mo v s h =
    let quiet = check_disk-calm mo.device_check_times v.touches v.late_alarm s.disk_alarm h.disk in
    rw quiet (ground (arith, h.connected, h.available, h.disk))

check_local-Healthy :
    (mo : MonitorOptions) (v : PrimaryView) (s : PrimaryState)
    → Healthy mo v s
    → check_local mo v s ≡ sync_part v (record s { disk_alarm = calm }) []
unfolding check_local respond
check_local-Healthy mo v s h =
    let probed = probe_local-Healthy mo v s h in
    rw probed (ground (arith, h.connected, h.disk, h.card))

check_primary_status-primary :
    (v : StatusView) (d : Daemon)
    → d.local_conn_ok ≡ true
    → v.recovery_type ≡ rectype_primary
    → check_primary_status none v d ≡ record { verdict = stays; daemon = d; log = [] }
unfolding check_primary_status
check_primary_status-primary v d h k = ground (arith, h, k)

degraded_part-normal :
    (mo : MonitorOptions) (v : PrimaryView) (s : PrimaryState)
    → is_degraded s.daemon.monitoring_state ≡ false
    → degraded_part mo v s ≡ part falls s []
unfolding degraded_part
degraded_part-normal mo v s h = ground arith

-- The state after a healthy start of the turn.
abbrev pub synced : PrimaryView → PrimaryState → PrimaryState
synced v s = record s { mode = (check_sync_async v.sync s.mode).mode; disk_alarm = calm }

abbrev pub sync_log : PrimaryView → PrimaryState → List Deed
sync_log v s = map sync_command (check_sync_async v.sync s.mode).commands

Healthy-turn :
    (mo : MonitorOptions) (v : PrimaryView) (s : PrimaryState)
    → Healthy mo v s
    → is_degraded s.daemon.monitoring_state ≡ false
    → primary_turn mo v s
      ≡ (let p = brain_split_part mo v (synced v s) in record p { log = sync_log v s ++ p.log })
unfolding primary_turn then_part sync_part
Healthy-turn mo v s h n = rw (check_local-Healthy mo v s h) (
    rw (degraded_part-normal mo v (synced v s) n) (
      rw (check_primary_status-primary v.at_loop s.daemon h.connected h.is_primary)
        (rw (append-nil (sync_log v s)) (rw (append-nil (sync_log v s)) refl))))

-- The turn goes on in normal monitoring, no alarm of the disk check is left, and nothing was done but
-- to switch the synchronous mode.
pub record Stands (mo : MonitorOptions) (v : PrimaryView) (s : PrimaryState) : Type 0 where
  pub goes_on : (primary_turn mo v s).flow ≡ falls
  pub kept : (primary_turn mo v s).after ≡ synced v s
  pub quiet : (primary_turn mo v s).log ≡ sync_log v s

-- The turn goes on in degraded monitoring, over a server that was isolated.
pub record GivesWay (mo : MonitorOptions) (v : PrimaryView) (s : PrimaryState) : Type 0 where
  pub goes_on : (primary_turn mo v s).flow ≡ falls
  pub degraded : is_degraded (primary_turn mo v s).after.daemon.monitoring_state ≡ true
  pub cut_off : isolated (primary_turn mo v s).log ≡ true

brain_split_part-nothing :
    (mo : MonitorOptions) (v : PrimaryView) (s : PrimaryState)
    → check_bs s.daemon.local v.local_timeline v.others ≡ do_nothing
    → brain_split_part mo v s ≡ part falls s []
unfolding brain_split_part
brain_split_part-nothing mo v s h = ground arith

-- The turn of a healthy primary in normal monitoring whose brain split check finds nothing to do
-- keeps every variable but those of the synchronous mode and of the disk check, whose alarm is off,
-- does nothing but switch that mode, and the loop goes on.
pub Healthy-Stands :
    (mo : MonitorOptions) (v : PrimaryView) (s : PrimaryState)
    → Healthy mo v s
    → is_degraded s.daemon.monitoring_state ≡ false
    → check_bs s.daemon.local v.local_timeline v.others ≡ do_nothing
    → Stands mo v s
Healthy-Stands mo v s h n k =
    let e =
      Healthy-turn mo v s h n
      ∙ ap (λ (p : Part). record p { log = sync_log v s ++ p.log })
          (brain_split_part-nothing mo v (synced v s) k) in
    record {
      goes_on = ap (λ p. p.flow) e;
      kept = ap (λ p. p.after) e;
      quiet = ap (λ p. p.log) e ∙ append-nil (sync_log v s);
    }

-- The node is up and checks for a brain split.
pub record Checks (mo : MonitorOptions) (v : PrimaryView) (s : PrimaryState) : Type 0 where
  pub up : is_status_up s.daemon.local.node_status ≡ true
  pub asks : mo.check_brain_split ≡ true
  pub answers : v.answers ≡ true

brain_split_part-rejoin :
    (mo : MonitorOptions) (v : PrimaryView) (s : PrimaryState)
    → Checks mo v s
    → check_bs s.daemon.local v.local_timeline v.others ≡ do_rejoin
    → brain_split_part mo v s ≡ isolate v.split_rejoin v.split_at s []
unfolding brain_split_part
brain_split_part-rejoin mo v s c h = ground (arith, c.up, c.asks, c.answers)

isolate-falls :
    (v : RejoinView) (at : ℕ) (s : PrimaryState) (log : List Deed)
    → (isolate v at s log).flow ≡ falls
unfolding isolate
isolate-falls v at s log = refl

isolate-degrades :
    (v : RejoinView) (at : ℕ) (s : PrimaryState) (log : List Deed)
    → is_degraded (isolate v at s log).after.daemon.monitoring_state ≡ true
unfolding isolate
isolate-degrades v at s log = refl

gives_way :
    (mo : MonitorOptions) (v : PrimaryView) (s : PrimaryState)
    → Healthy mo v s
    → is_degraded s.daemon.monitoring_state ≡ false
    → Checks mo v s
    → check_bs s.daemon.local v.local_timeline v.others ≡ do_rejoin
    → GivesWay mo v s
gives_way mo v s h n c k =
    let e =
      Healthy-turn mo v s h n
      ∙ ap (λ (p : Part). record p { log = sync_log v s ++ p.log })
          (brain_split_part-rejoin mo v (synced v s)
            (record { up = c.up; asks = c.asks; answers = c.answers }) k) in
    let p = isolate v.split_rejoin v.split_at (synced v s) [] in
    record {
      goes_on = ap (λ q. q.flow) e ∙ isolate-falls v.split_rejoin v.split_at (synced v s) [];
      degraded =
          ap (λ q. is_degraded q.after.daemon.monitoring_state) e
          ∙ isolate-degrades v.split_rejoin v.split_at (synced v s) [];
      cut_off =
          ap (λ q. isolated q.log) e
          ∙ isolated-onto (sync_log v s) p.log
              (isolate-isolated v.split_rejoin v.split_at (synced v s) []);
    }

-- Of two healthy primaries in normal monitoring with different node IDs that check for a brain
-- split, and of which each finds the other, and no other primary, with its present ID, priority and
-- timeline, exactly one is isolated by its turn: the virtual IP is taken down, the server stopped,
-- and monitoring is degraded. The other one, which has the later timeline, or else the higher
-- priority, or else the lower node ID, stands.
pub brain_split_turns :
    (mo mo' : MonitorOptions) (v v' : PrimaryView) (s s' : PrimaryState)
    → Healthy mo v s
    → Healthy mo' v' s'
    → is_degraded s.daemon.monitoring_state ≡ false
    → is_degraded s'.daemon.monitoring_state ≡ false
    → Checks mo v s
    → Checks mo' v' s'
    → Faces s.daemon.local v.others s'.daemon.local v'.local_timeline
    → Faces s'.daemon.local v'.others s.daemon.local v.local_timeline
    → s.daemon.local.node_id ≢ s'.daemon.local.node_id
    → Stands mo v s
        × GivesWay mo' v' s'
        × Prevails s.daemon.local v.local_timeline s'.daemon.local v'.local_timeline
      ⊎ GivesWay mo v s
        × Stands mo' v' s'
        × Prevails s'.daemon.local v'.local_timeline s.daemon.local v.local_timeline
brain_split_turns mo mo' v v' s s' h h' n n' c c' f f' d =
    elim (check_bs_duel s.daemon.local s'.daemon.local v.local_timeline v'.local_timeline v.others
      v'.others f f' d) [
        | inl (a, b, p) ↦ inl (Healthy-Stands mo v s h n a, gives_way mo' v' s' h' n' c' b, p)
        | inr (a, b, p) ↦ inr (gives_way mo v s h n c a, Healthy-Stands mo' v' s' h' n' b, p)
      ]
