-- ===== src/NodeCheck/Overview/Codes.antt =====
-- `do_node_check`: the exit codes of an overview.
use hg_repmgr.Base.{
  if_elim, Option-cases, ℕ, true, List, [], ◌∷◌, Option, none, some, ◌≡◌, ◌≢◌, ◌⊎◌, inl, inr, refl,
  arith, String, All,
}
use hg_repmgr.KeyValue.{OutputMode, om_text, om_csv, om_nagios, om_optformat, om_not_set}
use hg_repmgr.NodeCheck.{CheckStatus, Report, report_check}
use hg_repmgr.NodeCheck.Checks.{do_node_check_archive_ready, do_node_check_downstream}
use hg_repmgr.NodeCheck.State.{
  do_node_check_replication_lag, do_node_check_role, do_node_check_slots,
  do_node_check_missing_slots,
}
use hg_repmgr.NodeCheck.Directory.{do_node_check_data_directory}
use hg_repmgr.NodeCheck.Overview.{NodeState, all_checks, collect, issue_code, Overview}

-- What the overview's exit code says of the collected reports.
abbrev pub code_of : Option Overview → ℕ
code_of none = 1
code_of (some o) = issue_code o.issue_detected

abbrev pub IsReported : Option Report → Type 0
IsReported o = (r : Report) × (o ≡ some r)

IsReported-report_check :
    (mode : OutputMode) (item : String) (s : CheckStatus) (d n o : List ℕ)
    → IsReported (report_check mode true item s d n o)
unfolding report_check
IsReported-report_check om_text item s d n o = (_, refl)
IsReported-report_check om_csv item s d n o = (_, refl)
IsReported-report_check om_nagios item s d n o = (_, refl)
IsReported-report_check om_optformat item s d n o = (_, refl)
IsReported-report_check om_not_set item s d n o = (_, refl)

pub IsReported-all_checks : (mode : OutputMode) (v : NodeState) → All IsReported (all_checks mode v)
unfolding all_checks do_node_check_role do_node_check_replication_lag do_node_check_archive_ready
    do_node_check_downstream do_node_check_slots do_node_check_missing_slots
    do_node_check_data_directory
IsReported-all_checks mode v = (
  IsReported-report_check mode _ _ _ _ _,
  (
    IsReported-report_check mode _ _ _ _ _,
    (
      IsReported-report_check mode _ _ _ _ _,
      (
        IsReported-report_check mode _ _ _ _ _,
        (
          IsReported-report_check mode _ _ _ _ _,
          (IsReported-report_check mode _ _ _ _ _, (IsReported-report_check mode _ _ _ _ _, tt)),
        ),
      ),
    ),
  ),
)

collect-IsReported : (rs : List (Option Report)) → All IsReported rs → collect rs ≢ none
unfolding collect
collect-IsReported [] a h = ground (arith, h)
collect-IsReported (none ∷ rs) a h = let (r, e) = a.0 in ground (arith, e)
collect-IsReported (some r ∷ rs) a h = elim (Option-cases (collect rs)) [
  | inl n ↦ collect-IsReported rs a.1 n
  | inr (o, e) ↦ ground (arith, h, e)
]

-- No exit on the way: the code is one of two.
pub two_codes :
    (rs : List (Option Report))
    → All IsReported rs
    → (code_of (collect rs) ≡ 0) ⊎ (code_of (collect rs) ≡ 25)
two_codes rs a = elim (Option-cases (collect rs)) [
  | inl n ↦ absurd (collect-IsReported rs a n)
  | inr (o, e) ↦ rw e (if_elim (λ c. (c ≡ 0) ⊎ (c ≡ 25)) o.issue_detected (inr refl) (inl refl))
]
