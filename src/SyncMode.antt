-- ===== src/SyncMode.antt =====
-- repmgrd-physical.c `check_sync_async` and `only_one_sync_node`: a primary whose only synchronous
-- standby is gone switches to asynchronous replication, and back.
pub mod Switch
use hg_repmgr.Base.{
  ℕ, suc, ◌+◌, ◌-◌, ◌*◌, ◌%◌, ◌^◌, Bool, true, false, ◌&&◌, ◌||◌, not, List, [], ◌∷◌, ltb, leb,
  ◌==◌, if◌then◌else◌,
}
use hg_repmgr.Node.{RecoveryType, rectype_primary, invalid_lsn}

abbrev pub has_paren : List ℕ → Bool
has_paren [] = false
has_paren (c ∷ cs) = c == b'(' || has_paren cs

-- A digit from 2 to 9 in front of the first parenthesis.
abbrev pub has_large_digit : List ℕ → Bool
has_large_digit [] = false
has_large_digit (c ∷ cs) =
    let rest = has_large_digit cs in
    if c == b'(' then false else if ltb b'1' c && leb c b'9' then true else rest

unfoldable pub only_one_sync_node : List ℕ → Bool
only_one_sync_node [] = false
only_one_sync_node (c ∷ cs) = if has_paren (c ∷ cs) then not (has_large_digit (c ∷ cs)) else true

-- The static variables: the count of checks is a `short`; the start is the time of the first one.
pub record Mode : Type 0 where
  pub switch_async_mode : Bool
  pub unreachable_standby_counts : ℕ
  pub unreachable_start : ℕ

pub data Command : Type 0 where
  comment_out restore : Command

pub record Standby : Type 0 where
  pub recovery_type : RecoveryType
  pub last_wal_receive_lsn : ℕ

-- What a check finds: the rows of pg_stat_replication, the setting, the time in seconds, the
-- primary's LSN, and the nodes.
pub record Check : Type 0 where
  pub records : ℕ
  pub sync_names : List ℕ
  pub now : ℕ
  pub primary_lsn : ℕ
  pub nodes : List Standby

-- The variables and the commands that were run, in order.
pub record Switched : Type 0 where
  pub mode : Mode
  pub commands : List Command

is_not_primary : RecoveryType → Bool
is_not_primary rectype_primary = false
is_not_primary _ = true

-- Is the standby within 5 MB of the primary?
has_caught_up : ℕ → Standby → Bool
unfolding is_not_primary
has_caught_up primary_lsn s =
    is_not_primary s.recovery_type
    && not (primary_lsn == invalid_lsn)
    && leb s.last_wal_receive_lsn primary_lsn
    && leb (primary_lsn - s.last_wal_receive_lsn) (1024 * 1024 * 5)

-- The loop over the nodes, which goes on after a switch.
unfoldable pub try_restore : ℕ → List Standby → Mode → Switched
unfolding has_caught_up
try_restore primary_lsn [] m = record { mode = m; commands = [] }
try_restore primary_lsn (s ∷ ss) m =
    let off = try_restore primary_lsn ss (record m { switch_async_mode = false }) in
    let rest = try_restore primary_lsn ss m in
    if has_caught_up primary_lsn s
    then record { mode = off.mode; commands = restore ∷ off.commands }
    else rest

-- No standby is connected, and one is the synchronous one. Elapsed seconds are a difference of
-- times of a clock that does not go back.
count_unreachable : ℕ → Mode → Switched
count_unreachable now m =
    let counts = (m.unreachable_standby_counts + 1) % 2 ^ 16 in
    let start = if counts == 1 then now else m.unreachable_start in
    let m' = record m { unreachable_standby_counts = counts; unreachable_start = start } in
    if ltb 30 (now - start) && not m.switch_async_mode
    then record { mode = record m' { switch_async_mode = true }; commands = comment_out ∷ [] }
    else record { mode = m'; commands = [] }

unfoldable pub check_sync_async : Check → Mode → Switched
unfolding count_unreachable
check_sync_async c m =
    let reset = record m { unreachable_standby_counts = 0 } in
    if c.records == 0
    then (if only_one_sync_node c.sync_names
        then count_unreachable c.now m
        else record { mode = m; commands = [] })
    else if m.switch_async_mode
    then try_restore c.primary_lsn c.nodes reset
    else record { mode = reset; commands = [] }
