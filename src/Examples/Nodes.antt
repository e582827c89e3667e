-- ===== src/Examples/Nodes.antt =====
-- What `repmgr node check` finds of a standby, and what a switchover makes of it.
use hg_repmgr.Base.{pos, true, false, [], ◌∷◌, none, some, ◌≡◌, ◌↔◌, ◌⊎◌, arith, codes, ◌≤ℤ◌}
use hg_repmgr.Node.{standby, rectype_standby}
use hg_repmgr.KeyValue.{om_optformat}
use hg_repmgr.NodeCheck.{Report}
use hg_repmgr.NodeCheck.Checks.{Thresholds, do_node_check_archive_ready, archive_status}
use hg_repmgr.NodeCheck.Directory.{Directory, do_node_check_data_directory}
use hg_repmgr.NodeCheck.Overview.{NodeState}
use hg_repmgr.NodeCheck.Overview.Sound.{Sound}
use hg_repmgr.Remote.{parse_node_check_archiver, archiver_allows, parse_data_directory_config}
use hg_repmgr.Remote.Answers.{
  IsConfigured, told, parse_node_check_archiver-do_node_check_archive_ready, archiver_allows_iff,
}
use hg_repmgr.Remote.Directory.{parse_data_directory_config_iff}

abbrev thresholds : Thresholds
thresholds = record { warning = pos 16; critical = pos 128 }

abbrev data_directory : Directory
data_directory = record {
  has_settings = true;
  setting = some (codes "/data");
  configured = codes "/data";
  is_pg_dir = true;
}

-- 20 files wait to be archived.
abbrev node_state : NodeState
node_state = record {
  name = codes "node2";
  node_id = pos 2;
  archive = thresholds;
  files = pos 20;
  nodes = record { type = standby; label = codes "node3 (ID: 3)"; attached = true } ∷ [];
  lag = thresholds;
  lag_seconds = pos 1;
  type = standby;
  recovery_type = rectype_standby;
  role_type = rectype_standby;
  bdr_answer = record { not_bdr = none; is_active = false };
  slots = record { version = 110000; total = pos 1; inactive = pos 0 };
  missing = [];
  directory = data_directory;
}

configured : IsConfigured thresholds
configured = record {
  warning_fits = (ground arith, ground arith);
  critical_fits = (ground arith, ground arith);
  warning_positive = ground arith;
  critical_positive = ground arith;
}

parse_node_check_archiver-do_node_check_archive_ready_example :
    (r : Report) × (do_node_check_archive_ready om_optformat false thresholds (pos 20) ≡ some r)
    × (parse_node_check_archiver r.output
        ≡ told thresholds (pos 20) (archive_status thresholds (pos 20)))
parse_node_check_archiver-do_node_check_archive_ready_example =
    parse_node_check_archiver-do_node_check_archive_ready thresholds (pos 20) configured
      (ground arith, ground arith)

archiver_allows_iff_example :
    ((r : Report) × (do_node_check_archive_ready om_optformat false thresholds (pos 200) ≡ some r)
      × ((archiver_allows false (some r.output) ≡ true)
          ↔ ((false ≡ true) ⊎ ((pos 0 ≤ℤ pos 200) × (pos 200 ≤ℤ pos 128)))))
    × (archiver_allows false none ≡ false)
archiver_allows_iff_example =
    archiver_allows_iff false thresholds (pos 200) configured (ground arith, ground arith)

parse_data_directory_config_iff_example :
    (r : Report) × (do_node_check_data_directory om_optformat false data_directory ≡ some r)
    × ((parse_data_directory_config r.output ≡ true) ↔ (
        ((true ≡ true) × (some (codes "/data") ≡ some (codes "/data")))
        ⊎ ((true ≡ false) × (true ≡ true))))
parse_data_directory_config_iff_example = parse_data_directory_config_iff data_directory
