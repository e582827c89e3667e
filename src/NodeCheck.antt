-- ===== src/NodeCheck.antt =====
-- repmgr-action-node.c: how `repmgr node check` reports a check. A text is a list of character
-- codes.
pub mod Checks
pub mod State
pub mod Directory
pub mod Overview
pub mod Verdicts
use hg_repmgr.Base.{ℤ, ℕ, Bool, true, false, List, [], ◌∷◌, ◌++◌, Option, none, some, codes, String}
use hg_repmgr.KeyValue.{OutputMode, om_not_set, om_text, om_csv, om_nagios, om_optformat}

pub data CheckStatus : Type 0 where
  check_ok check_warning check_critical check_unknown : CheckStatus

abbrev pub output_check_status : CheckStatus → List ℕ
output_check_status check_ok = codes "OK"
output_check_status check_warning = codes "WARNING"
output_check_status check_critical = codes "CRITICAL"
output_check_status check_unknown = codes "UNKNOWN"

-- A cell of the list of statuses.
pub record CheckItem : Type 0 where
  pub item : String
  pub status : CheckStatus
  pub details : List ℕ

-- What a check returns, prints, and adds to the list.
pub record Report : Type 0 where
  pub status : CheckStatus
  pub output : List ℕ
  pub items : List CheckItem

abbrev pub prints : CheckStatus → List ℕ → Report
prints s out = record { status = s; output = out; items = [] }

-- The report in text form, into the list if there is one.
abbrev pub in_text : Bool → String → CheckStatus → List ℕ → Report
in_text true item s details = record {
  status = s;
  output = [];
  items = record { item = item; status = s; details = details } ∷ [];
}
in_text false item s details =
    prints s (output_check_status s ++ codes " (" ++ details ++ codes ")\n")

-- The end of a check, by the output mode: a check has its own text for Nagios, and some have one for
-- --optformat. --csv without a list is an exit, `none`.
unfoldable pub report_check :
    OutputMode → Bool → String → CheckStatus → List ℕ → List ℕ → List ℕ → Option Report
report_check om_csv false item s details nagios opt = none
report_check om_csv true item s details nagios opt = some (in_text true item s details)
report_check om_text listed item s details nagios opt = some (in_text listed item s details)
report_check om_nagios listed item s details nagios opt = some (prints s nagios)
report_check om_optformat listed item s details nagios opt = some (prints s opt)
report_check om_not_set listed item s details nagios opt = some (prints s [])

-- `printf("NAME %s: %s", ...)`
abbrev pub nagios_line : String → CheckStatus → List ℕ → List ℕ
nagios_line name s details =
    codes name ++ codes " " ++ output_check_status s ++ codes ": " ++ details

abbrev pub opt_line : CheckStatus → List ℕ → List ℕ
opt_line s details =
    codes "--status=" ++ output_check_status s ++ codes " " ++ details ++ codes "\n"

-- One text for each output mode that prints `details`.
abbrev pub by_mode : OutputMode → List ℕ → List ℕ → List ℕ → List ℕ
by_mode om_text text nagios opt = text
by_mode om_nagios text nagios opt = nagios
by_mode om_optformat text nagios opt = opt
by_mode _ text nagios opt = []
