-- ===== src/BrainSplit.antt =====
-- repmgrd-physical.c `check_BS` and `check_timeline`: a primary that finds another primary.
pub mod Duel
use hg_repmgr.Base.{
  ℤ, ℕ, zero, suc, Bool, true, false, ◌&&◌, ◌||◌, not, List, [], ◌∷◌, Option, none, some, eqb_ℤ,
  ltb_ℤ, ltb, if◌then◌else◌,
}
use hg_repmgr.Node.{
  NodeInfo, ServerType, witness, RecoveryType, rectype_unknown, rectype_primary, rectype_standby,
}
use hg_repmgr.Follow.{SystemIdentification}

-- `BS_ACTION`
pub data BsAction : Type 0 where
  do_nothing do_rejoin do_stop : BsAction

-- `TL_RET`
pub data TlRet : Type 0 where
  tl_low tl_high tl_same tl_unknown : TlRet

-- A node of the list, with what the local node finds: can it connect, what the node is at the count
-- and at the search after it, does it have the node's record, and the answers on its timeline.
pub record Other : Type 0 where
  pub info : NodeInfo
  pub connects : Bool
  pub counted_as : RecoveryType
  pub searched_as : RecoveryType
  pub record_found : Bool
  pub repl_conn_ok : Bool
  pub identification : Option SystemIdentification

abbrev pub is_primary : RecoveryType → Bool
is_primary rectype_primary = true
is_primary _ = false

abbrev pub is_witness_type : ServerType → Bool
is_witness_type witness = true
is_witness_type _ = false

-- Both loops pass over the local node and witnesses.
abbrev pub is_passed : ℤ → Other → Bool
is_passed local_id o = eqb_ℤ o.info.node_id local_id || is_witness_type o.info.type

-- `found_other_primary`
unfoldable pub count_primaries : ℤ → List Other → ℕ
count_primaries local_id [] = 0
count_primaries local_id (o ∷ os) =
    let rest = count_primaries local_id os in
    if o.connects && not (is_passed local_id o) && is_primary o.counted_as then suc rest else rest

pub data Search : Type 0 where
  peer : Other → Search
  no_record no_peer : Search

-- The second loop. A query over a closed connection reports an unknown type.
unfoldable pub find_primary : ℤ → List Other → Search
find_primary local_id [] = no_peer
find_primary local_id (o ∷ os) =
    let rest = find_primary local_id os in
    if is_passed local_id o
    then rest
    else if o.connects && is_primary o.searched_as
    then (if o.record_found then peer o else no_record)
    else rest

compare_timelines : ℕ → Option SystemIdentification → TlRet
compare_timelines local_tli none = tl_unknown
compare_timelines local_tli (some its) =
    if ltb local_tli its.timeline
    then tl_low
    else if ltb its.timeline local_tli
    then tl_high
    else tl_same

-- `local_tli` is the timeline in the local control file.
unfoldable pub check_timeline : ℕ → Other → TlRet
unfolding compare_timelines
check_timeline local_tli o =
    if o.repl_conn_ok then compare_timelines local_tli o.identification else tl_unknown

same_timeline_action : NodeInfo → NodeInfo → BsAction
same_timeline_action me its =
    if ltb_ℤ me.priority its.priority
    then do_rejoin
    else if ltb_ℤ its.priority me.priority
    then do_nothing
    else if ltb_ℤ me.node_id its.node_id
    then do_nothing
    else do_rejoin

timeline_action : NodeInfo → Other → TlRet → BsAction
unfolding same_timeline_action
timeline_action me o tl_low = do_rejoin
timeline_action me o tl_high = do_nothing
timeline_action me o tl_unknown = do_nothing
timeline_action me o tl_same = same_timeline_action me o.info

duel : NodeInfo → ℕ → Search → BsAction
unfolding timeline_action
duel me local_tli (peer o) = timeline_action me o (check_timeline local_tli o)
duel me local_tli no_record = do_nothing
duel me local_tli no_peer = do_nothing

by_count : NodeInfo → ℕ → List Other → ℕ → BsAction
unfolding duel
by_count me local_tli os zero = do_nothing
by_count me local_tli os (suc zero) = duel me local_tli (find_primary me.node_id os)
by_count me local_tli os (suc (suc n)) = do_stop

unfoldable pub check_bs : NodeInfo → ℕ → List Other → BsAction
unfolding by_count
check_bs me local_tli os = by_count me local_tli os (count_primaries me.node_id os)
