-- ===== src/NodeCheck/Checks.antt =====
-- The single checks of `repmgr node check`.
use hg_repmgr.Base.{
  ℤ, pos, ℕ, ◌+◌, Bool, true, false, List, [], ◌∷◌, ◌++◌, Option, if◌then◌else◌, ltb_ℤ, codes,
  print_int, print_nat, length, String,
}
use hg_repmgr.Node.{ServerType, witness}
use hg_repmgr.KeyValue.{OutputMode, om_nagios}
use hg_repmgr.NodeCheck.{
  CheckStatus, check_ok, check_warning, check_critical, check_unknown, Report, report_check,
  by_mode, nagios_line, opt_line,
}

-- The thresholds in the configuration.
pub record Thresholds : Type 0 where
  pub warning : ℤ
  pub critical : ℤ

-- `files=%i;%i;%i`
abbrev pub triple : ℤ → Thresholds → List ℕ
triple n t = print_int n ++ codes ";" ++ print_int t.warning ++ codes ";" ++ print_int t.critical

unfoldable pub archive_status : Thresholds → ℤ → CheckStatus
archive_status t files =
    if ltb_ℤ t.critical files
    then check_critical
    else if ltb_ℤ t.warning files
    then check_warning
    else if ltb_ℤ files (pos 0)
    then check_unknown
    else check_ok

archive_nagios : Thresholds → ℤ → List ℕ
archive_nagios t files =
    print_int files ++ codes " pending archive ready files | files=" ++ triple files t

-- Above a threshold.
abbrev pub files_over : ℤ → ℤ → List ℕ
files_over files threshold =
    codes "--files=" ++ print_int files ++ codes " --threshold=" ++ print_int threshold

unfoldable pub archive_details : OutputMode → Thresholds → ℤ → CheckStatus → List ℕ
unfolding archive_nagios
archive_details mode t files check_critical =
    by_mode mode
      (print_int files
        ++ codes " pending archive ready files, critical threshold: "
        ++ print_int t.critical)
      (archive_nagios t files) (files_over files t.critical)
archive_details mode t files check_warning =
    by_mode mode
      (print_int files
        ++ codes " pending archive ready files (threshold: "
        ++ print_int t.warning
        ++ codes ")")
      (archive_nagios t files) (files_over files t.warning)
archive_details mode t files check_unknown =
    by_mode mode (codes "unable to check archive_status directory")
      (codes "unable to check archive_status directory") []
archive_details mode t files check_ok =
    by_mode mode (print_int files ++ codes " pending archive ready files") (archive_nagios t files)
      (codes "--files=" ++ print_int files)

unfoldable pub do_node_check_archive_ready : OutputMode → Bool → Thresholds → ℤ → Option Report
unfolding archive_status archive_details
do_node_check_archive_ready mode listed t files =
    let s = archive_status t files in
    let details = archive_details mode t files s in
    report_check mode listed "WAL archiving" s details
      (nagios_line "REPMGR_ARCHIVE_READY" s details ++ codes "\n") (opt_line s details)

-- A downstream node: its type, what is printed of it, and is it attached.
pub record Downstream : Type 0 where
  pub type : ServerType
  pub label : List ℕ
  pub attached : Bool

is_witness : ServerType → Bool
is_witness witness = true
is_witness _ = false

-- The labels of the nodes that are no witness and that are attached, or are not.
unfoldable pub with_attached : Bool → List Downstream → List (List ℕ)
unfolding is_witness
with_attached b [] = []
with_attached b (d ∷ ds) =
    let rest = with_attached b ds in
    if is_witness d.type
    then rest
    else if b
    then (if d.attached then d.label ∷ rest else rest)
    else (if d.attached then rest else d.label ∷ rest)

-- The loop that prints a list.
abbrev pub joined : String → List (List ℕ) → List ℕ
joined sep [] = []
joined sep (x ∷ []) = x
joined sep (x ∷ y ∷ ys) = x ++ codes sep ++ joined sep (y ∷ ys)

unfoldable pub no_labels : List (List ℕ) → Bool
no_labels [] = true
no_labels (x ∷ xs) = false

count_of : String → ℕ → ℕ → List ℕ
count_of what n total = print_nat n ++ codes " of " ++ print_nat total ++ codes what

downstream_details : OutputMode → List (List ℕ) → List (List ℕ) → List ℕ
unfolding count_of
downstream_details mode [] [] = codes "this node has no downstream nodes"
downstream_details mode [] attached =
    count_of " downstream nodes attached" (length attached) (length attached)
downstream_details om_nagios missing attached =
    count_of " downstream nodes not attached" (length missing) (length missing + length attached)
downstream_details mode missing attached =
    count_of " downstream nodes not attached" (length missing) (length missing + length attached)
    ++ codes "; missing: "
    ++ joined ", " missing

downstream_lists : List (List ℕ) → List (List ℕ) → List ℕ
unfolding no_labels
downstream_lists missing attached =
    (if no_labels missing then [] else codes "missing: " ++ joined ", " missing)
    ++ (if no_labels attached
        then []
        else (if no_labels missing then [] else codes "; ")
          ++ codes "attached: "
          ++ joined ", " attached)

unfoldable pub do_node_check_downstream : OutputMode → Bool → List Downstream → Option Report
unfolding with_attached no_labels downstream_details downstream_lists
do_node_check_downstream mode listed nodes =
    let missing = with_attached false nodes in
    let attached = with_attached true nodes in
    let s = if no_labels missing then check_ok else check_critical in
    let details = downstream_details mode missing attached in
    report_check mode listed "Downstream servers" s details
      (nagios_line "REPMGR_DOWNSTREAM_SERVERS" s details
        ++ codes " | "
        ++ downstream_lists missing attached
        ++ codes "\n")
      []
