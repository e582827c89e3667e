-- ===== src/SyncMode/Switch.antt =====
-- `check_sync_async`: the setting in postgresql.conf and the variable that stands for it.
use hg_repmgr.Base.{
  ℕ, suc, ◌-◌, Bool, true, false, List, [], ◌∷◌, ◌≡◌, refl, arith, if◌then◌else◌, All, ap, ◌∙◌,
}
use hg_repmgr.SyncMode.{
  Mode, Command, comment_out, restore, Standby, Check, try_restore, check_sync_async,
  only_one_sync_node,
}

-- The number of # in front of the setting: one `sed` command puts one more there, the other takes
-- one away.
abbrev pub edit : ℕ → Command → ℕ
edit hashes comment_out = suc hashes
edit hashes restore = hashes - 1

abbrev pub edits : ℕ → List Command → ℕ
edits hashes [] = hashes
edits hashes (c ∷ cs) = edits (edit hashes c) cs

-- The variables and the file, after checks.
pub run_checks : Mode → ℕ → List Check → Mode × ℕ
run_checks m hashes [] = (m, hashes)
run_checks m hashes (c ∷ cs) =
    run_checks (check_sync_async c m).mode (edits hashes (check_sync_async c m).commands) cs

-- The variables at the start of the process.
abbrev pub started : Mode
started = record {
  switch_async_mode = false;
  unreachable_standby_counts = 0;
  unreachable_start = 0;
}

abbrev pub hashes_of : Bool → ℕ
hashes_of async = if async then 1 else 0

one_less : (b : Bool) (hashes : ℕ) → hashes ≡ hashes_of b → hashes - 1 ≡ 0
one_less true hashes h = ground arith
one_less false hashes h = ground arith

try_restore-hashes :
    (lsn : ℕ) (ss : List Standby) (m : Mode) (hashes : ℕ)
    → hashes ≡ hashes_of m.switch_async_mode
    → edits hashes (try_restore lsn ss m).commands
      ≡ hashes_of (try_restore lsn ss m).mode.switch_async_mode
unfolding try_restore
try_restore-hashes lsn [] m hashes h = h
try_restore-hashes lsn (s ∷ ss) m hashes h =
    let off =
      try_restore-hashes lsn ss (record m { switch_async_mode = false }) (hashes - 1)
        (one_less m.switch_async_mode hashes h) in
    let on = try_restore-hashes lsn ss m hashes h in ground arith

check-hashes :
    (c : Check) (m : Mode) (hashes : ℕ)
    → hashes ≡ hashes_of m.switch_async_mode
    → edits hashes (check_sync_async c m).commands
      ≡ hashes_of (check_sync_async c m).mode.switch_async_mode
unfolding check_sync_async
check-hashes c m hashes h =
    let r =
      try_restore-hashes c.primary_lsn c.nodes (record m { unreachable_standby_counts = 0 }) hashes
        h in
    ground arith

-- Whatever the checks find, the setting is commented out, by one #, exactly while the variable says
-- that the mode is asynchronous, if it was so before.
pub run_checks-hashes :
    (m : Mode) (hashes : ℕ) (cs : List Check)
    → hashes ≡ hashes_of m.switch_async_mode
    → (run_checks m hashes cs).1 ≡ hashes_of (run_checks m hashes cs).0.switch_async_mode
unfolding run_checks
run_checks-hashes m hashes [] h = h
run_checks-hashes m hashes (c ∷ cs) h =
    run_checks-hashes (check_sync_async c m).mode (edits hashes (check_sync_async c m).commands) cs
      (check-hashes c m hashes h)

-- The check sees no synchronous standby, as after the setting was commented out.
abbrev pub SeesNone : Check → Type 0
SeesNone c = c.sync_names ≡ []

check_idle :
    (c : Check) (m : Mode)
    → m.switch_async_mode ≡ false
    → c.sync_names ≡ []
    → ((check_sync_async c m).mode.switch_async_mode ≡ false)
      × ((check_sync_async c m).commands ≡ [])
unfolding check_sync_async only_one_sync_node
check_idle c m h e = (ground arith, ground arith)

-- The variable is lost with the process: after a restart in asynchronous mode, while no synchronous
-- standby is set, no check takes the # away again.
pub restart_stays_async :
    (m : Mode) (cs : List Check)
    → m.switch_async_mode ≡ false
    → All SeesNone cs
    → (run_checks m 1 cs).1 ≡ 1
unfolding run_checks
restart_stays_async m [] h a = refl
restart_stays_async m (c ∷ cs) h a =
    let (mode, none_run) = check_idle c m h a.0 in
    ap (λ k. (run_checks (check_sync_async c m).mode (edits 1 k) cs).1) none_run
    ∙ restart_stays_async (check_sync_async c m).mode cs mode a.1
