-- ===== src/NodeCheck/Overview.antt =====
-- `do_node_check`: one check, or all of them.
pub mod Codes
pub mod Sound
use hg_repmgr.Base.{
  ℤ, ℕ, Bool, true, false, ◌&&◌, ◌||◌, not, List, [], ◌∷◌, ◌++◌, Option, none, some, if◌then◌else◌,
  codes, print_int, String, eqb_codes,
}
use hg_repmgr.Node.{ServerType, RecoveryType}
use hg_repmgr.KeyValue.{OutputMode, om_not_set, om_text, om_csv, om_nagios, om_optformat}
use hg_repmgr.NodeCheck.{
  CheckStatus, check_ok, check_warning, check_critical, check_unknown, CheckItem, Report,
  report_check, nagios_line, output_check_status,
}
use hg_repmgr.NodeCheck.Checks.{
  Thresholds, do_node_check_archive_ready, Downstream, do_node_check_downstream,
}
use hg_repmgr.NodeCheck.State.{
  do_node_check_replication_lag, BdrAnswer, do_node_check_role, Slots, do_node_check_slots,
  do_node_check_missing_slots,
}
use hg_repmgr.NodeCheck.Directory.{Directory, is_nagios, do_node_check_data_directory}

-- What the checks find, with the node's name, and its ID as text.
pub record NodeState : Type 0 where
  pub name : List ℕ
  pub node_id : ℤ
  pub archive : Thresholds
  pub files : ℤ
  pub nodes : List Downstream
  pub lag : Thresholds
  pub lag_seconds : ℤ
  pub type : ServerType
  pub recovery_type : RecoveryType
  pub role_type : RecoveryType
  pub bdr_answer : BdrAnswer
  pub slots : Slots
  pub missing : List (List ℕ)
  pub directory : Directory

-- The options for one check.
pub record Flags : Type 0 where
  pub archive_ready : Bool
  pub downstream : Bool
  pub replication_lag : Bool
  pub role : Bool
  pub check_slots : Bool
  pub missing_slots : Bool
  pub data_directory_config : Bool

-- The exit code of the process, and what it prints.
pub record Ending : Type 0 where
  pub code : ℕ
  pub output : List ℕ

-- `ERR_BAD_CONFIG`, `ERR_NODE_STATUS`
abbrev pub bad_config : Ending
bad_config = record { code = 1; output = [] }

abbrev pub err_node_status : ℕ
err_node_status = 25

-- `CheckStatus` as a number.
abbrev pub status_code : CheckStatus → ℕ
status_code check_ok = 0
status_code check_warning = 1
status_code check_critical = 2
status_code check_unknown = 3

ends : Option Report → Ending
ends none = bad_config
ends (some r) = record { code = status_code r.status; output = r.output }

abbrev pub is_ok : CheckStatus → Bool
is_ok check_ok = true
is_ok _ = false

-- The checks of an overview, in their order.
unfoldable pub all_checks : OutputMode → NodeState → List (Option Report)
all_checks mode v =
    do_node_check_role mode true v.type v.role_type v.bdr_answer
    ∷ do_node_check_replication_lag mode true v.lag v.type v.recovery_type v.lag_seconds
    ∷ do_node_check_archive_ready mode true v.archive v.files
    ∷ do_node_check_downstream mode true v.nodes
    ∷ do_node_check_slots mode true v.slots
    ∷ do_node_check_missing_slots mode true v.slots.version v.missing
    ∷ do_node_check_data_directory mode true v.directory
    ∷ []

pub record Overview : Type 0 where
  pub issue_detected : Bool
  pub output : List ℕ
  pub items : List CheckItem

-- Each in turn; an exit ends the process.
unfoldable pub collect : List (Option Report) → Option Overview
collect [] = some (record { issue_detected = false; output = []; items = [] })
collect (none ∷ rs) = none
collect (some r ∷ rs) = add r (collect rs)
  where
    add : Report → Option Overview → Option Overview
    add r none = none
    add r (some o) = some (record {
      issue_detected = not (is_ok r.status) || o.issue_detected;
      output = r.output ++ o.output;
      items = r.items ++ o.items;
    })

with_details : List ℕ → List ℕ → List ℕ → List ℕ
with_details before after [] = []
with_details before after (c ∷ cs) = before ++ (c ∷ cs) ++ after

text_item : CheckItem → List ℕ
unfolding with_details
text_item i =
    codes "\t"
    ++ codes i.item
    ++ codes ": "
    ++ output_check_status i.status
    ++ with_details (codes " (") (codes ")") i.details
    ++ codes "\n"

csv_item : CheckItem → List ℕ
unfolding with_details
csv_item i =
    codes "\""
    ++ codes i.item
    ++ codes "\",\""
    ++ output_check_status i.status
    ++ codes "\""
    ++ with_details (codes ",\"") (codes "\"") i.details
    ++ codes "\n"

all_items : (CheckItem → List ℕ) → List CheckItem → List ℕ
all_items f [] = []
all_items f (i ∷ is) = f i ++ all_items f is

unfoldable pub print_overview : OutputMode → NodeState → List CheckItem → List ℕ
unfolding all_items text_item csv_item
print_overview om_csv v items =
    codes "\"Node name\",\""
    ++ v.name
    ++ codes "\"\n\"Node ID\",\""
    ++ print_int v.node_id
    ++ codes "\"\n"
    ++ all_items csv_item items
print_overview mode v items =
    codes "Node \"" ++ v.name ++ codes "\":\n" ++ all_items text_item items

abbrev pub issue_code : Bool → ℕ
issue_code b = if b then err_node_status else 0

end_overview : OutputMode → NodeState → Option Overview → Ending
unfolding print_overview
end_overview mode v none = bad_config
end_overview mode v (some o) = record {
  code = issue_code o.issue_detected;
  output = o.output ++ print_overview mode v o.items;
}

unfoldable pub overview : OutputMode → NodeState → Ending
unfolding is_nagios collect all_checks end_overview
overview mode v =
    if is_nagios mode then bad_config else end_overview mode v (collect (all_checks mode v))

-- A node that has its record, after the two options for internal use.
unfoldable pub do_node_check : Flags → OutputMode → NodeState → Ending
unfolding ends overview
do_node_check f mode v =
    if f.archive_ready
    then ends (do_node_check_archive_ready mode false v.archive v.files)
    else if f.downstream
    then ends (do_node_check_downstream mode false v.nodes)
    else if f.replication_lag
    then ends (do_node_check_replication_lag mode false v.lag v.type v.recovery_type v.lag_seconds)
    else if f.role
    then ends (do_node_check_role mode false v.type v.role_type v.bdr_answer)
    else if f.check_slots
    then ends (do_node_check_slots mode false v.slots)
    else if f.missing_slots
    then ends (do_node_check_missing_slots mode false v.slots.version v.missing)
    else if f.data_directory_config
    then ends (do_node_check_data_directory mode false v.directory)
    else overview mode v
