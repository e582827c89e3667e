-- ===== src/NodeCheck/Overview/Sound.antt =====
-- `do_node_check`: when an overview finds no issue.
use hg_repmgr.Base.{
  if◌then◌else◌, pos, Bool, true, false, List, [], ◌∷◌, Option, none, some, ◌≡◌, ◌≢◌, ◌⊎◌, ◌<◌,
  ◌≤ℤ◌, ◌<ℤ◌, All,
}
use hg_repmgr.Node.{witness, rectype_primary}
use hg_repmgr.NodeCheck.{Report}
use hg_repmgr.NodeCheck.State.{unknown_replication_lag}
use hg_repmgr.NodeCheck.Directory.{Directory}
use hg_repmgr.NodeCheck.Overview.{NodeState, is_ok, Overview}
use hg_repmgr.NodeCheck.Verdicts.{RoleFits}

-- What an overview asks of a node.
pub record Sound (v : NodeState) : Type 0 where
  pub role_fits : RoleFits v.type v.role_type v.bdr_answer
  pub lag_is_low :
      (v.recovery_type ≡ rectype_primary)
      ⊎ ((v.lag_seconds <ℤ v.lag.critical)
          × (v.lag_seconds ≤ℤ v.lag.warning)
          × (v.lag_seconds ≢ unknown_replication_lag))
  pub archives :
      (pos 0 ≤ℤ v.files) × (v.files ≤ℤ v.archive.warning) × (v.files ≤ℤ v.archive.critical)
  pub attached : All (λ d. (d.type ≡ witness) ⊎ (d.attached ≡ true)) v.nodes
  pub slots_active :
      (v.slots.version < 90400) ⊎ (v.slots.total ≡ pos 0) ⊎ (v.slots.inactive ≤ℤ pos 0)
  pub none_missing : (v.slots.version < 90400) ⊎ (v.missing ≡ [])
  pub directory_fits :
      ((v.directory.has_settings ≡ true) × (v.directory.setting ≡ some v.directory.configured))
      ⊎ ((v.directory.has_settings ≡ false) × (v.directory.is_pg_dir ≡ true))

passes : Option Report → Bool
passes none = false
passes (some r) = is_ok r.status

all_pass : List (Option Report) → Bool
all_pass [] = true
all_pass (r ∷ rs) = let rest = all_pass rs in if passes r then rest else false
