-- ===== src/NodeCheck/State.antt =====
-- The checks of `repmgr node check` that read the node's own state: lag, role, slots and data
-- directory.
use hg_repmgr.Base.{
  ℤ, pos, negsuc, ℕ, Bool, true, false, List, [], ◌∷◌, ◌++◌, Option, none, some, if◌then◌else◌, ltb,
  ltb_ℤ, leb_ℤ, eqb_ℤ, codes, print_int, print_nat, length,
}
use hg_repmgr.Node.{
  ServerType, unknown, primary, standby, witness, bdr, RecoveryType, rectype_primary,
  rectype_standby,
}
use hg_repmgr.KeyValue.{OutputMode}
use hg_repmgr.NodeCheck.{
  CheckStatus, check_ok, check_warning, check_critical, check_unknown, Report, report_check,
  by_mode, nagios_line, opt_line,
}
use hg_repmgr.NodeCheck.Checks.{Thresholds, triple, joined}

-- `UNKNOWN_REPLICATION_LAG`
abbrev pub unknown_replication_lag : ℤ
unknown_replication_lag = negsuc 0

unfoldable pub lag_status : Thresholds → ℤ → CheckStatus
lag_status t lag =
    if leb_ℤ t.critical lag
    then check_critical
    else if ltb_ℤ t.warning lag
    then check_warning
    else if eqb_ℤ lag unknown_replication_lag
    then check_unknown
    else check_ok

lag_nagios : Thresholds → ℤ → List ℕ
lag_nagios t lag = print_int lag ++ codes " seconds | lag=" ++ triple lag t

lag_over : ℤ → ℤ → List ℕ
lag_over lag threshold =
    codes "--lag=" ++ print_int lag ++ codes " --threshold=" ++ print_int threshold

lag_details : OutputMode → Thresholds → ℤ → CheckStatus → List ℕ
unfolding lag_nagios lag_over
lag_details mode t lag check_critical =
    by_mode mode
      (print_int lag ++ codes " seconds, critical threshold: " ++ print_int t.critical ++ codes ")")
      (lag_nagios t lag) (lag_over lag t.critical)
lag_details mode t lag check_warning =
    by_mode mode
      (print_int lag ++ codes " seconds, warning threshold: " ++ print_int t.warning ++ codes ")")
      (lag_nagios t lag) (lag_over lag t.warning)
lag_details mode t lag check_unknown =
    by_mode mode (codes "unable to query replication lag") (codes "unable to query replication lag")
      []
lag_details mode t lag check_ok =
    by_mode mode (print_int lag ++ codes " seconds") (lag_nagios t lag)
      (codes "--lag=" ++ print_int lag)

is_witness : ServerType → Bool
is_witness witness = true
is_witness _ = false

-- A primary has no lag.
primary_details : OutputMode → Thresholds → ServerType → List ℕ
unfolding is_witness
primary_details mode t type =
    by_mode mode
      (if is_witness type then codes "N/A - node is witness" else codes "N/A - node is primary")
      (codes "0 seconds | lag=0;" ++ print_int t.warning ++ codes ";" ++ print_int t.critical)
      (codes "--lag=0")

abbrev pub is_primary : RecoveryType → Bool
is_primary rectype_primary = true
is_primary _ = false

abbrev pub is_standby : RecoveryType → Bool
is_standby rectype_standby = true
is_standby _ = false

-- `type` and `recovery_type` are those of the node record, `lag` is what the query gives.
unfoldable pub do_node_check_replication_lag :
    OutputMode → Bool → Thresholds → ServerType → RecoveryType → ℤ → Option Report
unfolding lag_status lag_details primary_details
do_node_check_replication_lag mode listed t type recovery_type lag =
    let s = if is_primary recovery_type then check_ok else lag_status t lag in
    let details =
      if is_primary recovery_type
      then primary_details mode t type
      else lag_details mode t lag (lag_status t lag) in
    report_check mode listed "Replication lag" s details
      (nagios_line "REPMGR_REPLICATION_LAG" s details ++ codes "\n") (opt_line s details)

-- Of a BDR node: the message if its database is not one of BDR, and is it active.
pub record BdrAnswer : Type 0 where
  pub not_bdr : Option (List ℕ)
  pub is_active : Bool

role_bdr : BdrAnswer → Option (List ℕ) → CheckStatus × List ℕ
role_bdr a (some message) = (check_critical, message)
role_bdr a none =
    if a.is_active
    then (check_ok, codes "node is an active BDR node")
    else (check_critical, codes "node is not an active BDR node")

unfoldable pub role_of : ServerType → RecoveryType → BdrAnswer → CheckStatus × List ℕ
unfolding role_bdr
role_of primary r a =
    if is_standby r
    then (check_critical, codes "node is registered as primary but running as standby")
    else (check_ok, codes "node is primary")
role_of standby r a =
    if is_primary r
    then (check_critical, codes "node is registered as standby but running as primary")
    else (check_ok, codes "node is standby")
role_of witness r a =
    if is_standby r
    then (check_critical, codes "node is registered as witness but running as standby")
    else (check_ok, codes "node is witness")
role_of bdr r a = role_bdr a a.not_bdr
role_of unknown r a = (check_ok, [])

unfoldable pub do_node_check_role :
    OutputMode → Bool → ServerType → RecoveryType → BdrAnswer → Option Report
unfolding role_of
do_node_check_role mode listed type r a =
    let (s, details) = role_of type r a in
    report_check mode listed "Server role" s details
      (nagios_line "REPMGR_SERVER_ROLE" s details ++ codes "\n") []

-- The server's version, and the numbers of its slots.
pub record Slots : Type 0 where
  pub version : ℕ
  pub total : ℤ
  pub inactive : ℤ

unfoldable pub slots_of : Slots → CheckStatus × List ℕ
slots_of v =
    if ltb v.version 90400
    then (check_ok, codes "replication slots not available for this PostgreSQL version")
    else if eqb_ℤ v.total (pos 0)
    then (check_ok, codes "node has no physical replication slots")
    else if eqb_ℤ v.inactive (pos 0)
    then (
      check_ok,
      print_int v.total
          ++ codes " of "
          ++ print_int v.total
          ++ codes " physical replication slots are active",
    )
    else if ltb_ℤ (pos 0) v.inactive
    then (
      check_critical,
      print_int v.inactive
          ++ codes " of "
          ++ print_int v.total
          ++ codes " physical replication slots are inactive",
    )
    else (check_ok, [])

unfoldable pub do_node_check_slots : OutputMode → Bool → Slots → Option Report
unfolding slots_of
do_node_check_slots mode listed v =
    let (s, details) = slots_of v in
    report_check mode listed "Replication slots" s details
      (nagios_line "REPMGR_INACTIVE_SLOTS" s details
        ++ codes " | slots="
        ++ print_int v.total
        ++ codes ";"
        ++ print_int v.inactive
        ++ codes "\n")
      []

-- The names of the slots that downstream nodes have no slot for.
unfoldable pub missing_of : ℕ → List (List ℕ) → CheckStatus × List ℕ
missing_of version slots =
    if ltb version 90400
    then (check_ok, codes "replication slots not available for this PostgreSQL version")
    else by_slots slots
  where
    by_slots : List (List ℕ) → CheckStatus × List ℕ
    by_slots [] = (check_ok, codes "node has no missing physical replication slots")
    by_slots (s ∷ ss) = (
      check_critical,
      print_nat (length (s ∷ ss))
          ++ codes " physical replication slots are missing: "
          ++ joined ", " (s ∷ ss),
    )

slots_suffix : List (List ℕ) → List ℕ
slots_suffix [] = []
slots_suffix (s ∷ ss) = codes ";" ++ joined "," (s ∷ ss)

-- An old server is not asked, so its list is empty.
unfoldable pub do_node_check_missing_slots : OutputMode → Bool → ℕ → List (List ℕ) → Option Report
unfolding missing_of slots_suffix
do_node_check_missing_slots mode listed version slots =
    let found = if ltb version 90400 then [] else slots in
    let (s, details) = missing_of version slots in
    report_check mode listed "Missing physical replication slots" s details
      (nagios_line "REPMGR_MISSING_SLOTS" s details
        ++ codes " | missing_slots="
        ++ print_nat (length found)
        ++ slots_suffix found
        ++ codes "\n")
      []
