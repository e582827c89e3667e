-- ===== src/Lib.antt =====
-- hg_repmgr: replication manager for PostgreSQL clusters, with the failover daemon repmgrd.
--
-- A cluster is one primary and its standbys. Each node has a row in the table repmgr.nodes, an
-- extension with a little shared memory (repmgr.c), and a repmgrd that monitors the node. When a
-- standby's repmgrd finds the primary gone, do_primary_failover (repmgrd-physical.c) runs: the
-- standby holds an election by asking its siblings, then promotes itself, follows a new primary
-- that it found, or waits for a notification, which another repmgrd writes into its shared memory
-- through the extension's SQL functions. A primary checks for a second primary (check_BS).
--
-- Files, and the code that each one models:
--   SharedState: repmgr.c, the struct repmgrdSharedState and one function per SQL function.
--     SharedState/Run: calls and their sequences. SharedState/Mailbox: notify_follow_primary,
--     reset_voting_status and get_new_primary. SharedState/Pause: repmgrd_pause, the state file and
--     set_local_node_id. SharedState/Handler: am_bdr_failover_handler by several backends.
--   Node: dbutils.h, dbutils.c, the node record, replication information, node types.
--   Follow: dbutils.c get_timeline_history; repmgrd-physical.c check_node_can_follow;
--     repmgr-client.c check_node_can_attach. Follow/History and Follow/Decision are about them.
--   Template: strutil.c parse_follow_command; repmgrd-physical.c
--     parse_failover_validation_command. Template/Expand, Template/Bounded.
--   Daemon: repmgrd-physical.c, configfile.h, the variables and options of a standby's repmgrd.
--   Election: repmgrd-physical.c do_election, from the body of its loop up; Election/Vote has the
--     loop and the whole function. Election/Ranking, Loop, Seen, Winner, Outcomes, Wins, Cancelled,
--     Quorum and Safety are about it.
--   BrainSplit: repmgrd-physical.c check_BS and check_timeline. BrainSplit/Duel.
--   Failover: repmgrd-physical.c check_connection, promote_self, notify_followers and the two loops
--     that wait. Failover/Steps: wait_primary_notification, follow_new_primary.
--     Failover/Primary: do_primary_failover. Failover/Primary/Safety, Kept, Endings and Notices are
--     about it; Failover/Waiting is about the loops, Failover/Cluster about two failovers beside
--     each other.
--     Failover/Cascade: do_upstream_standby_failover, and check_connection of the primary;
--     Failover/Cascade/Upstream. Failover/Witness: do_witness_failover and
--     witness_follow_new_primary; Failover/Witness/Resumes.
--   SyncMode: repmgrd-physical.c check_sync_async and only_one_sync_node. SyncMode/Switch.
--   Reconnect: repmgrd.c try_reconnect and check_upstream_connection. Reconnect/Attempts.
--     Reconnect/Handles: the same with the handles of the connections.
--   Monitoring: what the monitoring loops share; dbutils.c get_node_record, refresh_node_record and
--     get_primary_connection. Monitoring/Primary: repmgrd-physical.c monitor_streaming_primary, with
--     Status (check_primary_status) and Rejoin (check_disk, exec_node_rejoin_primary and their
--     helpers); Primary/Isolation, Primary/Healthy and Rejoin/Disk are about them.
--     Monitoring/Standby: monitor_streaming_standby, its first part; Standby/Degraded, Local, Turn
--     and Start have the rest, and Standby/Quiet, Causes, Paused, Stuck, Outage and Start/Entries
--     are about it; Monitoring/Deeds is about what is done outside.
--     Monitoring/Witness: monitor_streaming_witness; Witness/Turn, Witness/Adopts.
--   Bdr: repmgrd-bdr.c do_bdr_failover and do_bdr_recovery. Bdr/Turn: one node in the loop of
--     monitor_bdr. Bdr/Handover.
--   Config: configfile.c repmgr_atoi, parse_bool, parse_time_unit_parameter. Config/Numbers.
--     Config/Events: parse_event_notifications_list. Config/Tablespaces: tablespace_list_append,
--     with PostgreSQL's canonicalize_path as a parameter.
--   NodeCheck: repmgr-action-node.c, how a check of repmgr node check is reported. NodeCheck/Checks,
--     State and Directory have the do_node_check_* functions, NodeCheck/Overview do_node_check;
--     NodeCheck/Verdicts, Overview/Codes and Overview/Sound are about them.
--   Remote: repmgr-action-standby.c parse_node_check_archiver and parse_data_directory_config,
--     configfile.c parse_output_to_argv, strutil.c trim. Remote/Words is about lines of words,
--     Remote/Answers and Remote/Directory about what a switchover makes of the other host's answers.
--   ConnInfo: dbutils.c, lists of connection parameters. ConnInfo/Laws.
--   Quote: compat.c, connection values and shell arguments. Quote/ConnStr, Quote/Shell: what
--     libpq and a POSIX shell read there.
--   KeyValue: strutil.c key and value lists; configfile.c modify_auto_conf. KeyValue/Laws.
--   Base: shared names, the integers, lists and texts. Examples: the theorems at concrete inputs.
--
-- How the code is modelled. State is passed: the static variables of repmgrd are the record Daemon,
-- the shared memory is the record Shared, and a function that changes them returns them. What a
-- function finds outside of the process (may a connection be made, what does a query return, which
-- status has a command) is an argument, a record such as View or World, so each statement holds
-- for all answers. What it does outside (commands, notifications, the virtual IP, events) is a list
-- of actions in their order. Log messages, sleeps and freed memory are left out.
-- The monitoring loops are turns: a turn takes the state and a record of what its parts find, in
-- their order, and says how it ends (the next turn, a return to the caller, an exit). A label that
-- the code jumps to is a way for a part to end. A run is a list of turns, each with its options,
-- which a reload may change between two turns.
--
-- Integers: LSNs, timelines and counts are natural numbers, other C integers are integers. No sum
-- in the modelled code comes near the bounds of its type for values that PostgreSQL can report;
-- options are in a range where doubling monitor_interval_secs does not overflow. Texts are shorter
-- than the arrays that hold them, except in parse_follow_command and Config, where the arrays of
-- MAXPGPATH and MAXLEN bytes, both 1024, are modelled. In Config, long has 64 bits and int 32.
--
-- Loops are structural recursion: over the list of nodes, the lines of a file or the characters of
-- a text, or over the number of seconds or attempts that the code counts up to. So all definitions
-- are total. One loop is endless in the code, that of check_upstream_connection: it is on fuel, and
-- fuel for two rounds is enough.
--
-- Not modelled: the client's commands (repmgr-action-*.c) but for node check and a few decisions of
-- the switchover, the scanner of the configuration file and the checks after it, the start of
-- repmgrd and its signals, the monitoring history, the control file reader, files and processes.
pub mod Base
pub mod SharedState
pub mod Node
pub mod Follow
pub mod Template
pub mod Daemon
pub mod Election
pub mod BrainSplit
pub mod Failover
pub mod Quote
pub mod KeyValue
pub mod SyncMode
pub mod Reconnect
pub mod Monitoring
pub mod Bdr
pub mod Config
pub mod NodeCheck
pub mod Remote
pub mod ConnInfo
pub mod Examples
