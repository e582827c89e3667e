-- ===== src/Follow/Decision.antt =====
-- `check_node_can_follow` and `check_node_can_attach`: when the answer is yes.
use hg_repmgr.Base.{
  ℕ, ◌+◌, ◌≤◌, ◌<◌, Bool, true, false, Option, none, some, ◌≡◌, ◌≢◌, ◌↔◌, ◌⊎◌, arith, ◌&&◌,
}
use hg_repmgr.Node.{invalid_lsn}
use hg_repmgr.Follow.{
  SystemIdentification, Target, LocalSystem, get_timeline_history, check_node_can_follow,
  check_node_can_attach,
}

-- A position at which a timeline ended, no earlier than `local_xlogpos`.
abbrev pub EndsAfter : ℕ → Option ℕ → Type 0
EndsAfter local_xlogpos none = ⊥
EndsAfter local_xlogpos (some end) = local_xlogpos ≤ end

-- The WAL of a node at `local_xlogpos` on its timeline is a part of the target's: on the same
-- timeline the target is not behind; on an older one, the target left it no earlier than there.
abbrev pub HasWal : SystemIdentification → ℕ → Target → SystemIdentification → Type 0
HasWal me local_xlogpos target its =
    (its.timeline ≡ me.timeline)
      × (local_xlogpos ≢ invalid_lsn)
      × (local_xlogpos ≤ target.current_lsn)
    ⊎ (me.timeline < its.timeline)
      × EndsAfter local_xlogpos
          (get_timeline_history target.garbage (me.timeline + 1) target.history)

-- All that `check_node_can_follow` asks for, of systems `me` and `its`.
pub record CanFollow (local : LocalSystem) (local_xlogpos : ℕ) (target : Target)
    (me its : SystemIdentification) : Type 0 where
  pub local_answers : local.repl_conn_ok ≡ true
  pub local_identified : local.identification ≡ some me
  pub target_answers : target.repl_conn_ok ≡ true
  pub target_identified : target.identification ≡ some its
  pub same_system : its.system_identifier ≡ me.system_identifier
  pub has_wal : HasWal me local_xlogpos target its

module _ (local : LocalSystem) (local_xlogpos : ℕ) (target : Target) where
  can_follow_identified :
      check_node_can_follow local local_xlogpos target ≡ true
      → (me : SystemIdentification) × (its : SystemIdentification) × (local.identification
          ≡ some me)
        × (target.identification ≡ some its)
  unfolding check_node_can_follow
  can_follow_identified h = ground arith

  can_follow-HasWal :
      (me its : SystemIdentification)
      → local.identification ≡ some me
      → target.identification ≡ some its
      → check_node_can_follow local local_xlogpos target ≡ true
      → HasWal me local_xlogpos target its
  unfolding check_node_can_follow
  can_follow-HasWal me its p q h = ground arith

  CanFollow-sound :
      check_node_can_follow local local_xlogpos target ≡ true
      → (me : SystemIdentification) × (its : SystemIdentification) × CanFollow local local_xlogpos
          target me its
  unfolding check_node_can_follow
  CanFollow-sound h =
      let (me, its, p, q) = can_follow_identified h in
      (
        me,
        its,
        record {
          local_answers = ground arith;
          local_identified = p;
          target_answers = ground arith;
          target_identified = q;
          same_system = ground arith;
          has_wal = can_follow-HasWal me its p q h;
        },
      )

  CanFollow-complete :
      (me its : SystemIdentification)
      → CanFollow local local_xlogpos target me its
      → check_node_can_follow local local_xlogpos target ≡ true
  unfolding check_node_can_follow
  CanFollow-complete me its h = ground arith

  -- `check_node_can_follow` says yes exactly if both nodes can be identified over replication
  -- connections, belong to one system, and the target has all WAL that the local node has: on the
  -- same timeline the local position is known and the target's is not behind it, and on a later
  -- one the target's history has the end of the local timeline, no earlier than that position.
  pub check_node_can_follow_iff : (check_node_can_follow local local_xlogpos target ≡ true) ↔ (
      (me : SystemIdentification) × (its : SystemIdentification) × CanFollow local local_xlogpos
        target me its)
  check_node_can_follow_iff = (CanFollow-sound, λ c. CanFollow-complete c.0 c.1 c.2)

-- repmgr's check before `standby follow`, given the system identifier and timeline of a local node
-- that repmgrd can identify, decides as repmgrd's does. Before `node rejoin` it decides so too,
-- unless pg_rewind may be used.
pub check_node_can_attach-check_node_can_follow :
    (is_rejoin force_rewind : Bool) (local : LocalSystem) (me : SystemIdentification)
    (local_xlogpos : ℕ) (target : Target)
    → (is_rejoin && force_rewind) ≡ false
    → local.repl_conn_ok ≡ true
    → local.identification ≡ some me
    → check_node_can_attach is_rejoin force_rewind me.system_identifier me.timeline local_xlogpos
        target
      ≡ check_node_can_follow local local_xlogpos target
unfolding check_node_can_attach check_node_can_follow
check_node_can_attach-check_node_can_follow is_rejoin force_rewind local me local_xlogpos target r c
      i =
    ground arith

-- At a rejoin to a target that can be identified as of the same system, is on a later timeline, and
-- whose history has the end of the local timeline: with pg_rewind allowed the answer is yes, and
-- without it is yes exactly if the local position is not past that end.
pub check_node_can_attach_rewind :
    (sysid local_tli local_xlogpos : ℕ) (target : Target) (its : SystemIdentification) (end : ℕ)
    → target.repl_conn_ok ≡ true
    → target.identification ≡ some its
    → its.system_identifier ≡ sysid
    → local_tli < its.timeline
    → get_timeline_history target.garbage (local_tli + 1) target.history ≡ some end
    → (check_node_can_attach true true sysid local_tli local_xlogpos target ≡ true)
      × ((check_node_can_attach true false sysid local_tli local_xlogpos target ≡ true)
          ↔ (local_xlogpos ≤ end))
unfolding check_node_can_attach
check_node_can_attach_rewind sysid local_tli local_xlogpos target its end c i s l g =
    (ground arith, (λ h. ground arith, λ h. ground arith))
