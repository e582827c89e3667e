-- ===== src/Remote/Directory.antt =====
-- What is printed of the data directory, as a switchover reads it.
use hg_repmgr.NodeCheck.Verdicts.{directory_iff}
use hg_repmgr.Base.{◌⊎◌, true, false, ◌++◌, some, ◌≡◌, ◌↔◌, refl, codes}
use hg_repmgr.KeyValue.{om_optformat}
use hg_repmgr.NodeCheck.{
  CheckStatus, check_ok, check_warning, check_critical, check_unknown, Report, report_check, prints,
  output_check_status,
}
use hg_repmgr.Remote.{
  read_directory, parse_data_directory_config, trim_right, trim_left, trim, trim_all, strtok_from,
  getopt_long, long_option, split_option, parse_output_to_argv,
}
use hg_repmgr.NodeCheck.Directory.{directory_of, Directory, do_node_check_data_directory}
use hg_repmgr.NodeCheck.Overview.{is_ok}

read_directory_line :
    (s : CheckStatus)
    → parse_data_directory_config
        (codes "--configured-data-directory=" ++ output_check_status s ++ codes "\n")
      ≡ is_ok s
unfolding parse_data_directory_config parse_output_to_argv strtok_from trim_all trim trim_left
    trim_right getopt_long long_option split_option read_directory
read_directory_line check_ok = refl
read_directory_line check_warning = refl
read_directory_line check_critical = refl
read_directory_line check_unknown = refl

-- A switchover takes the other host's data directory for correctly configured if and only if that
-- host either can read its settings, and the setting is the configured path, or cannot, and the
-- configured path looks like a data directory.
pub parse_data_directory_config_iff :
    (v : Directory)
    → (r : Report) × (do_node_check_data_directory om_optformat false v ≡ some r)
      × ((parse_data_directory_config r.output ≡ true) ↔ (
          ((v.has_settings ≡ true) × (v.setting ≡ some v.configured))
          ⊎ ((v.has_settings ≡ false) × (v.is_pg_dir ≡ true))))
unfolding do_node_check_data_directory report_check
parse_data_directory_config_iff v =
    let s = (directory_of om_optformat v).0 in
    (
      prints s (codes "--configured-data-directory=" ++ output_check_status s ++ codes "\n"),
      refl,
      rw (read_directory_line s) (directory_iff om_optformat v),
    )
