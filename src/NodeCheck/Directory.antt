-- ===== src/NodeCheck/Directory.antt =====
-- `do_node_check_data_directory`.
use hg_repmgr.Base.{
  ℕ, Bool, true, false, not, List, [], ◌++◌, Option, none, some, if◌then◌else◌, codes, String,
  eqb_codes,
}
use hg_repmgr.KeyValue.{OutputMode, om_nagios}
use hg_repmgr.NodeCheck.{
  CheckStatus, check_ok, check_critical, check_unknown, Report, report_check, nagios_line,
  output_check_status,
}

-- Of the data directory: may the settings be read, the setting where the query succeeds, the
-- configured path, and does it look like a data directory.
pub record Directory : Type 0 where
  pub has_settings : Bool
  pub setting : Option (List ℕ)
  pub configured : List ℕ
  pub is_pg_dir : Bool

abbrev pub actual_directory : Directory → List ℕ
actual_directory v = or_empty v.setting
  where
    or_empty : Option (List ℕ) → List ℕ
    or_empty none = []
    or_empty (some s) = s

abbrev pub is_set : Option (List ℕ) → Bool
is_set none = false
is_set (some s) = true

unfoldable pub is_nagios : OutputMode → Bool
is_nagios om_nagios = true
is_nagios _ = false

quoted : String → List ℕ → List ℕ
quoted what s = codes what ++ codes " \"" ++ s ++ codes "\""

-- The details in front of the comparison, if the query failed.
no_setting : Directory → List ℕ
no_setting v =
    if is_set v.setting then [] else codes "unable to determine current \"data_directory\""

unfoldable pub directory_of : OutputMode → Directory → CheckStatus × List ℕ
unfolding is_nagios quoted no_setting
directory_of mode v =
    if v.has_settings
    then (if not (eqb_codes (actual_directory v) v.configured)
        then (
          check_critical,
          no_setting v
              ++ (if is_nagios mode
                  then []
                  else quoted "configured \"data_directory\" is" v.configured ++ codes "; ")
              ++ quoted "actual data directory is" (actual_directory v),
        )
        else (
          (if is_set v.setting then check_ok else check_unknown),
          no_setting v ++ quoted "configured \"data_directory\" is" v.configured,
        ))
    else if not v.is_pg_dir
    then (
      check_critical,
      (if is_nagios mode
          then codes "configured \"data_directory\" is not a PostgreSQL data directory"
          else quoted "configured \"data_directory\"" []
            ++ codes " is not a PostgreSQL data directory"),
    )
    else (check_ok, [])

abbrev pub is_critical : CheckStatus → Bool
is_critical check_critical = true
is_critical _ = false

unfoldable pub do_node_check_data_directory : OutputMode → Bool → Directory → Option Report
unfolding directory_of
do_node_check_data_directory mode listed v =
    let (s, details) = directory_of mode v in
    report_check mode listed "Configured data directory" s details
      (nagios_line "REPMGR_DATA_DIRECTORY" s v.configured
        ++ (if is_critical s then codes " | " ++ details else [])
        ++ codes "\n")
      (codes "--configured-data-directory=" ++ output_check_status s ++ codes "\n")
