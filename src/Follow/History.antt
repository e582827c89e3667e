-- ===== src/Follow/History.antt =====
-- dbutils.c `get_timeline_history`: what the scan of a well-formed history file finds.
use hg_repmgr.Base.{
  ℕ, suc, ◌+◌, ◌*◌, ◌^◌, ◌<◌, false, Option, none, some, List, [], ◌∷◌, ◌≡◌, arith, ◌==◌,
  if◌then◌else◌,
}
use hg_repmgr.Follow.{
  HistoryLine, no_field, one_field, two_fields, three_fields, Scan, scan_history,
  unknown_timeline_id, get_timeline_history,
}

-- Every line holds a timeline and a switch point.
abbrev pub IsWhole : List HistoryLine → Type 0
IsWhole [] = Unit
IsWhole (three_fields t h l ∷ ls) = IsWhole ls
IsWhole (_ ∷ ls) = ⊥

-- Where the given timeline ended, by the first line for it.
abbrev pub switch_point : ℕ → List HistoryLine → Option ℕ
switch_point t [] = none
switch_point t (three_fields u h l ∷ ls) =
    if u == t then some (h * 2 ^ 32 + l) else switch_point t ls
switch_point t (_ ∷ ls) = switch_point t ls

-- The value made of a scan that has ended.
abbrev pub scan_result : ℕ → Scan → Option ℕ
scan_result t s =
    if s.file_tli == t then some (s.switchpoint_hi * 2 ^ 32 + s.switchpoint_lo) else none

scan_history-switch_point :
    (t : ℕ) (s : Scan) (ls : List HistoryLine)
    → IsWhole ls
    → ((s.file_tli == t) ≡ false)
    → scan_result t (scan_history (suc t) s ls) ≡ switch_point t ls
unfolding scan_history
scan_history-switch_point t s [] w n = ground arith
scan_history-switch_point t s (three_fields u h l ∷ ls) w n = ground (
  arith,
  scan_history-switch_point t (record s { file_tli = u; switchpoint_hi = h; switchpoint_lo = l }) ls
      w,
)
scan_history-switch_point t s (no_field ∷ ls) w n = absurd w
scan_history-switch_point t s (one_field u ∷ ls) w n = absurd w
scan_history-switch_point t s (two_fields u h ∷ ls) w n = absurd w

result_of_scan :
    (g : Scan) (t : ℕ) (ls : List HistoryLine)
    → 0 < t
    → get_timeline_history g (suc t) (some ls)
      ≡ scan_result t (scan_history (suc t) (record g { file_tli = unknown_timeline_id }) ls)
unfolding get_timeline_history
result_of_scan g t ls h = ground arith

-- If every line of the history file is well formed, then for a timeline after the first the result
-- is the switch point of the first line for the timeline before it, and there is no result exactly
-- if there is no such line. What the variables held before the scan does not matter.
pub get_timeline_history-switch_point :
    (g : Scan) (t : ℕ) (ls : List HistoryLine)
    → 0 < t
    → IsWhole ls
    → get_timeline_history g (suc t) (some ls) ≡ switch_point t ls
get_timeline_history-switch_point g t ls h w =
    rw (result_of_scan g t ls h) (
      scan_history-switch_point t (record g { file_tli = unknown_timeline_id }) ls w (ground arith))
