-- ===== src/Monitoring/Rejoin.antt =====
-- repmgrd-physical.c: what a primary checks on its own host, and how it tries to rejoin.
pub mod Disk
use hg_repmgr.Base.{
  ℤ, pos, ℕ, zero, suc, Bool, true, false, ◌&&◌, ◌||◌, not, List, [], ◌∷◌, ◌++◌, Option, none, some,
  ◌≡◌, refl, arith, if◌then◌else◌, eqb_ℤ, ◌==◌, String, str_eq,
}
use hg_repmgr.Node.{
  NodeStatus, status_unknown, status_up, status_down, status_unclean_shutdown, invalid_lsn,
}
use hg_repmgr.Monitoring.{Deed, start_and_stop, node_rejoin, kill_service}

-- One `touch` of the data directory: does it succeed, and does the alarm go off meanwhile.
pub record Touch : Type 0 where
  pub succeeds : Bool
  pub alarmed : Bool

-- `touch_label`, a static variable, and whether an alarm is pending.
pub record DiskAlarm : Type 0 where
  pub touch_label : Bool
  pub armed : Bool

-- After the attempts: does the last one succeed?
pub record Touched : Type 0 where
  pub success : Bool
  pub alarm : DiskAlarm

-- The loop of `check_disk`. The alarm is armed when it begins and again after each failure; no touch
-- is no success.
unfoldable pub touch_loop : ℕ → (ℕ → Touch) → ℕ → Bool → Touched
touch_loop zero touches i label = record {
  success = false;
  alarm = record { touch_label = label; armed = true };
}
touch_loop (suc left) touches i label =
    let label' = label || (touches i).alarmed in
    let rest = touch_loop left touches (suc i) label' in
    if (touches i).succeeds
    then record {
      success = true;
      alarm = record { touch_label = label'; armed = not (touches i).alarmed };
    }
    else rest

-- Are the database processes killed, and the alarm after the check?
pub record DiskCheck : Type 0 where
  pub kills : Bool
  pub alarm : DiskAlarm

-- No label and no alarm.
abbrev pub calm : DiskAlarm
calm = record { touch_label = false; armed = false }

-- The pending alarm is called off only if the label is not set.
unfoldable pub finish_check : Touched → DiskCheck
finish_check t =
    let kills = not t.success || t.alarm.touch_label in
    record {
      kills = kills;
      alarm = record {
        touch_label = if kills then false else t.alarm.touch_label;
        armed = if t.alarm.touch_label then t.alarm.armed else false;
      };
    }

-- `late`: does an alarm that is pending since the last check go off before this one?
unfoldable pub check_disk : ℕ → (ℕ → Touch) → Bool → DiskAlarm → DiskCheck
unfolding touch_loop finish_check
check_disk device_check_times touches late a =
    finish_check (touch_loop device_check_times touches 0 (a.touch_label || a.armed && late))

carrier_up : Option ℤ → Bool
carrier_up none = true
carrier_up (some c) = eqb_ℤ c (pos b'1')

-- `check_network_card_status`: is there a connection, the card's name in the node's record, and the
-- first character of its carrier file, where it can be opened.
unfoldable pub check_network_card_status : Bool → Option String → Option ℤ → Bool
unfolding carrier_up
check_network_card_status false card carrier = true
check_network_card_status true none carrier = true
check_network_card_status true (some card) carrier = carrier_up carrier

-- What `getopt_long` finds in the output of `repmgr node status`, with each option's argument.
pub data StatusOption : Type 0 where
  last_checkpoint_lsn : ℕ → StatusOption
  state : String → StatusOption
  other_option : StatusOption

state_of : String → NodeStatus → NodeStatus
state_of arg status =
    if str_eq arg "RUNNING"
    then status_up
    else if str_eq arg "SHUTDOWN"
    then status_down
    else if str_eq arg "UNCLEAN_SHUTDOWN"
    then status_unclean_shutdown
    else if str_eq arg "UNKNOWN"
    then status_unknown
    else status

-- The loop over the options, from the status and the checkpoint so far.
unfoldable pub read_status : List StatusOption → NodeStatus × ℕ → NodeStatus × ℕ
unfolding state_of
read_status [] (status, lsn) = (status, lsn)
read_status (last_checkpoint_lsn lsn' ∷ os) (status, lsn) = read_status os (status, lsn')
read_status (state arg ∷ os) (status, lsn) = read_status os (state_of arg status, lsn)
read_status (other_option ∷ os) (status, lsn) = read_status os (status, lsn)

-- `check_service_status_is_shutdown_cleanly`. An empty output has no options.
unfoldable pub check_service_status_is_shutdown_cleanly : List StatusOption → NodeStatus × ℕ
unfolding read_status
check_service_status_is_shutdown_cleanly os = read_status os (status_unknown, invalid_lsn)

is_unclean : NodeStatus → Bool
is_unclean status_unclean_shutdown = true
is_unclean _ = false

-- The command's options if it succeeds, the nodes of the list, and the rejoin command's exit status
-- for each.
pub record RejoinView : Type 0 where
  pub node_status : Option (List StatusOption)
  pub nodes : List ℤ
  pub rejoin_status : ℤ → ℤ

-- The first part, which a standby shares: a server that was not shut down cleanly is started and
-- stopped.
unfoldable pub clean_up : Option (List StatusOption) → List Deed
unfolding check_service_status_is_shutdown_cleanly is_unclean
clean_up none = []
clean_up (some os) =
    if is_unclean (check_service_status_is_shutdown_cleanly os).0 then start_and_stop ∷ [] else []

-- Each node in turn, up to the first one where the command succeeds.
unfoldable pub rejoin_loop : (ℤ → ℤ) → List ℤ → List Deed
rejoin_loop status [] = []
rejoin_loop status (id ∷ ids) =
    let rest = rejoin_loop status ids in
    if eqb_ℤ (status id) (pos 0) then node_rejoin id ∷ [] else node_rejoin id ∷ rest

unfoldable pub exec_node_rejoin_primary : RejoinView → List Deed
unfolding clean_up rejoin_loop
exec_node_rejoin_primary v = clean_up v.node_status ++ rejoin_loop v.rejoin_status v.nodes
