-- ===== src/NodeCheck/Verdicts.antt =====
-- When each check of `repmgr node check` finds its part of the node sound.
use hg_repmgr.Base.{
  Option-cases, ℤ, pos, ℕ, true, false, List, [], ◌∷◌, none, some, ◌≡◌, ◌≢◌, ◌↔◌, ◌⊎◌, inl, inr,
  refl, arith, ◌<◌, ◌≤ℤ◌, ◌<ℤ◌, eqb_codes→eq, eqb_codes_refl, All,
}
use hg_repmgr.Node.{
  ServerType, unknown, primary, standby, witness, bdr, RecoveryType, rectype_primary,
  rectype_standby,
}
use hg_repmgr.KeyValue.{OutputMode}
use hg_repmgr.NodeCheck.Checks.{Thresholds, Downstream, archive_status, with_attached}
use hg_repmgr.NodeCheck.State.{
  BdrAnswer, Slots, lag_status, role_of, slots_of, missing_of, unknown_replication_lag,
}
use hg_repmgr.NodeCheck.Directory.{Directory, directory_of}
use hg_repmgr.NodeCheck.Overview.{is_ok}

-- A server does what its record says.
abbrev pub RoleFits : ServerType → RecoveryType → BdrAnswer → Type 0
RoleFits primary r a = r ≢ rectype_standby
RoleFits witness r a = r ≢ rectype_standby
RoleFits standby r a = r ≢ rectype_primary
RoleFits bdr r a = (a.not_bdr ≡ none) × (a.is_active ≡ true)
RoleFits unknown r a = r ≡ r

pub role_iff :
    (t : ServerType) (r : RecoveryType) (a : BdrAnswer)
    → (is_ok (role_of t r a).0 ≡ true) ↔ RoleFits t r a
unfolding role_of
role_iff primary r a = (λ h e. ground (arith, h, e), λ h. ground (arith, h))
role_iff witness r a = (λ h e. ground (arith, h, e), λ h. ground (arith, h))
role_iff standby r a = (λ h e. ground (arith, h, e), λ h. ground (arith, h))
role_iff bdr r a = (λ h. (ground (arith, h), ground (arith, h)), λ h. ground (arith, h))
role_iff unknown r a = (λ h. refl, λ h. refl)

pub attached_iff :
    (ds : List Downstream)
    → (with_attached false ds ≡ []) ↔ All (λ d. (d.type ≡ witness) ⊎ (d.attached ≡ true)) ds
unfolding with_attached
attached_iff [] = (λ h. tt, λ h. refl)
attached_iff (d ∷ ds) =
    let (f, g) = attached_iff ds in
    (λ h. (ground (arith, h), f (ground (arith, h))), λ h. ground (arith, h.0, g h.1))

pub slots_iff :
    (v : Slots)
    → (is_ok (slots_of v).0 ≡ true)
      ↔ ((v.version < 90400) ⊎ (v.total ≡ pos 0) ⊎ (v.inactive ≤ℤ pos 0))
unfolding slots_of
slots_iff v = (λ h. ground (arith, h), λ h. ground (arith, h))

pub missing_iff :
    (version : ℕ) (slots : List (List ℕ))
    → (is_ok (missing_of version slots).0 ≡ true) ↔ ((version < 90400) ⊎ (slots ≡ []))
unfolding missing_of
missing_iff version [] = (λ h. inr refl, λ h. ground (arith, h))
missing_iff version (s ∷ ss) = (λ h. ground (arith, h), λ h. ground (arith, h))

pub directory_iff :
    (mode : OutputMode) (v : Directory)
    → (is_ok (directory_of mode v).0 ≡ true) ↔ (
        ((v.has_settings ≡ true) × (v.setting ≡ some v.configured))
        ⊎ ((v.has_settings ≡ false) × (v.is_pg_dir ≡ true)))
unfolding directory_of
directory_iff mode v = elim (Option-cases v.setting) [
  | inl n ↦ (λ h. ground (arith, h, n), λ h. ground (arith, h, n))
  | inr (s, e) ↦ (
    λ h. ground (arith, h, e, eqb_codes→eq s v.configured),
    λ h. ground (arith, h, e, eqb_codes_refl s),
  )
]

pub lag_iff :
    (t : Thresholds) (lag : ℤ)
    → (is_ok (lag_status t lag) ≡ true)
      ↔ ((lag <ℤ t.critical) × (lag ≤ℤ t.warning) × (lag ≢ unknown_replication_lag))
unfolding lag_status
lag_iff t lag =
    (λ h. (ground (arith, h), ground (arith, h), ground (arith, h)), λ h. ground (arith, h))

pub archive_iff :
    (t : Thresholds) (files : ℤ)
    → (is_ok (archive_status t files) ≡ true)
      ↔ ((pos 0 ≤ℤ files) × (files ≤ℤ t.warning) × (files ≤ℤ t.critical))
unfolding archive_status
archive_iff t files =
    (λ h. (ground (arith, h), ground (arith, h), ground (arith, h)), λ h. ground (arith, h))
