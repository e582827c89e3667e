-- ===== src/Follow.antt =====
-- repmgrd-physical.c `check_node_can_follow`, repmgr-client.c `check_node_can_attach`, and
-- dbutils.c `get_timeline_history`: may this node stream from that one?
pub mod History
pub mod Decision
use hg_repmgr.Base.{
  ℕ, ◌+◌, ◌-◌, ◌*◌, ◌^◌, Bool, true, false, ◌&&◌, ◌||◌, not, Option, none, some, List, [], ◌∷◌, ltb,
  leb, ◌==◌, if◌then◌else◌,
}
use hg_repmgr.Node.{invalid_lsn}

-- One line of a timeline history file, shorter than MAXLEN: how many fields `sscanf` found, and the
-- numbers. Lines with nothing in them are left out.
pub data HistoryLine : Type 0 where
  no_field : HistoryLine
  one_field : ℕ → HistoryLine
  two_fields : ℕ → ℕ → HistoryLine
  three_fields : ℕ → ℕ → ℕ → HistoryLine

-- The variables of the scan: `file_tli`, and the two halves of the switch point.
pub record Scan : Type 0 where
  pub file_tli : ℕ
  pub switchpoint_hi : ℕ
  pub switchpoint_lo : ℕ

scan_line : Scan → HistoryLine → Scan
scan_line s no_field = s
scan_line s (one_field t) = record s { file_tli = t }
scan_line s (two_fields t h) = record s { file_tli = t; switchpoint_hi = h }
scan_line s (three_fields t h l) = record s { file_tli = t; switchpoint_hi = h; switchpoint_lo = l }

is_whole : HistoryLine → Bool
is_whole (three_fields t h l) = true
is_whole _ = false

-- The loop stops at a whole line for the timeline before `tli`.
unfoldable pub scan_history : ℕ → Scan → List HistoryLine → Scan
unfolding scan_line is_whole
scan_history tli s [] = s
scan_history tli s (l ∷ ls) =
    let s' = scan_line s l in
    let rest = scan_history tli s' ls in if is_whole l && s'.file_tli == tli - 1 then s' else rest

-- UNKNOWN_TIMELINE_ID
abbrev pub unknown_timeline_id : ℕ
unknown_timeline_id = 0

-- The end of the timeline before `tli`; `none` is the null pointer. `lines` is `none` where the
-- TIMELINE_HISTORY command failed. The switch point's variables start uninitialised, as `garbage`.
unfoldable pub get_timeline_history : Scan → ℕ → Option (List HistoryLine) → Option ℕ
unfolding scan_history
get_timeline_history garbage tli none = none
get_timeline_history garbage tli (some lines) =
    let s = scan_history tli (record garbage { file_tli = unknown_timeline_id }) lines in
    if s.file_tli == unknown_timeline_id || not (s.file_tli == tli - 1)
    then none
    else some (s.switchpoint_hi * 2 ^ 32 + s.switchpoint_lo)

pub record SystemIdentification : Type 0 where
  pub system_identifier : ℕ
  pub timeline : ℕ

-- What this node learns of a follow target: whether a replication connection could be made, what
-- IDENTIFY_SYSTEM answered, its current LSN, and the history of the timeline after this node's.
pub record Target : Type 0 where
  pub repl_conn_ok : Bool
  pub identification : Option SystemIdentification
  pub current_lsn : ℕ
  pub history : Option (List HistoryLine)
  pub garbage : Scan

-- The local node's replication connection and its answer to IDENTIFY_SYSTEM.
pub record LocalSystem : Type 0 where
  pub repl_conn_ok : Bool
  pub identification : Option SystemIdentification

same_timeline : ℕ → ℕ → Bool
same_timeline local_xlogpos target_xlogpos =
    if local_xlogpos == invalid_lsn || target_xlogpos == invalid_lsn
    then false
    else leb local_xlogpos target_xlogpos

forked_after : ℕ → Option ℕ → Bool
forked_after local_xlogpos none = false
forked_after local_xlogpos (some end) = not (ltb end local_xlogpos)

compare_systems : SystemIdentification → ℕ → Target → SystemIdentification → Bool
unfolding same_timeline forked_after
compare_systems me local_xlogpos target its =
    if not (its.system_identifier == me.system_identifier)
    then false
    else if ltb its.timeline me.timeline
    then false
    else if its.timeline == me.timeline
    then same_timeline local_xlogpos target.current_lsn
    else forked_after local_xlogpos
        (get_timeline_history target.garbage (me.timeline + 1) target.history)

check_target : SystemIdentification → ℕ → Target → Option SystemIdentification → Bool
unfolding compare_systems
check_target me local_xlogpos target none = false
check_target me local_xlogpos target (some its) = compare_systems me local_xlogpos target its

check_identified : Option SystemIdentification → ℕ → Target → Bool
unfolding check_target
check_identified none local_xlogpos target = false
check_identified (some me) local_xlogpos target =
    if target.repl_conn_ok
    then check_target me local_xlogpos target target.identification
    else false

unfoldable pub check_node_can_follow : LocalSystem → ℕ → Target → Bool
unfolding check_identified
check_node_can_follow local local_xlogpos target =
    if local.repl_conn_ok then check_identified local.identification local_xlogpos target else false

-- `forgive` is `is_rejoin && runtime_options.force_rewind_used`.
attach_forked : Bool → ℕ → Option ℕ → Bool
attach_forked forgive local_xlogpos none = false
attach_forked forgive local_xlogpos (some end) = if ltb end local_xlogpos then forgive else true

attach_systems : Bool → ℕ → ℕ → ℕ → Target → SystemIdentification → Bool
unfolding same_timeline attach_forked
attach_systems forgive sysid local_tli local_xlogpos target its =
    if not (its.system_identifier == sysid)
    then false
    else if ltb its.timeline local_tli
    then false
    else if its.timeline == local_tli
    then same_timeline local_xlogpos target.current_lsn
    else attach_forked forgive local_xlogpos
        (get_timeline_history target.garbage (local_tli + 1) target.history)

attach_identified : Bool → ℕ → ℕ → ℕ → Target → Option SystemIdentification → Bool
unfolding attach_systems
attach_identified forgive sysid local_tli local_xlogpos target none = false
attach_identified forgive sysid local_tli local_xlogpos target (some its) =
    attach_systems forgive sysid local_tli local_xlogpos target its

-- `sysid` is the system identifier in the local control file.
unfoldable pub check_node_can_attach : Bool → Bool → ℕ → ℕ → ℕ → Target → Bool
unfolding attach_identified
check_node_can_attach is_rejoin force_rewind sysid local_tli local_xlogpos target =
    if target.repl_conn_ok
    then attach_identified (is_rejoin && force_rewind) sysid local_tli local_xlogpos target
        target.identification
    else false
