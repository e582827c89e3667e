-- ===== src/Examples/Checks.antt =====
-- Checks of one node against another: timelines, and two primaries.
use hg_repmgr.Base.{negsuc, ℕ, ◌+◌, true, false, List, [], ◌∷◌, some, ◌≡◌, ◌↔◌, refl, arith}
use hg_repmgr.Node.{primary, rectype_primary}
use hg_repmgr.Follow.{
  SystemIdentification, HistoryLine, three_fields, scan_history, get_timeline_history,
  check_node_can_follow, check_node_can_attach,
}
use hg_repmgr.Follow.History.{switch_point, get_timeline_history-switch_point}
use hg_repmgr.Follow.Decision.{
  CanFollow, check_node_can_follow_iff, check_node_can_attach-check_node_can_follow,
}
use hg_repmgr.BrainSplit.{Other, count_primaries, find_primary}
use hg_repmgr.BrainSplit.Duel.{Faces}
use hg_repmgr.Examples.Data.{node, forked, local_system, no_scan}

abbrev history : List HistoryLine
history = three_fields 1 0 300 ∷ three_fields 2 1 16 ∷ []

get_timeline_history-switch_point_example :
    get_timeline_history no_scan 3 (some history) ≡ switch_point 2 history
get_timeline_history-switch_point_example =
    get_timeline_history-switch_point no_scan 2 history (omega arith) tt

check_node_can_follow_iff_example : (check_node_can_follow local_system 250 forked ≡ true) ↔ (
    (me : SystemIdentification) × (its : SystemIdentification) × CanFollow local_system 250 forked
      me its)
check_node_can_follow_iff_example = check_node_can_follow_iff local_system 250 forked

abbrev me : SystemIdentification
me = record { system_identifier = 77; timeline = 1 }

abbrev its : SystemIdentification
its = record { system_identifier = 77; timeline = 2 }

check_node_can_attach-check_node_can_follow_example :
    check_node_can_attach true false 77 1 250 forked ≡ check_node_can_follow local_system 250 forked
check_node_can_attach-check_node_can_follow_example =
    check_node_can_attach-check_node_can_follow true false local_system me 250 forked refl refl refl

fork_end : get_timeline_history forked.garbage (1 + 1) forked.history ≡ some 300
unfolding get_timeline_history scan_history
fork_end = refl

-- A primary that can be reached, on a timeline.
abbrev pub primary_at : ℕ → ℕ → Other
primary_at id tli = record {
  info = node id primary (negsuc 0);
  connects = true;
  counted_as = rectype_primary;
  searched_as = rectype_primary;
  record_found = true;
  repl_conn_ok = true;
  identification = some (record { system_identifier = 77; timeline = tli });
}

faces :
    (tli tlj : ℕ)
    → Faces
        (node 1 primary (negsuc 0))
        (primary_at 1 tli ∷ primary_at 2 tlj ∷ [])
        (node 2 primary (negsuc 0))
        tlj
unfolding count_primaries find_primary
faces tli tlj = record {
  other = primary_at 2 tlj;
  system = record { system_identifier = 77; timeline = tlj };
  finds = record { counted = refl; searched = refl; answers = refl; identified = refl };
  same_id = refl;
  same_priority = refl;
  same_tli = refl;
}

faced_back :
    (tli tlj : ℕ)
    → Faces
        (node 2 primary (negsuc 0))
        (primary_at 1 tli ∷ primary_at 2 tlj ∷ [])
        (node 1 primary (negsuc 0))
        tli
unfolding count_primaries find_primary
faced_back tli tlj = record {
  other = primary_at 1 tli;
  system = record { system_identifier = 77; timeline = tli };
  finds = record { counted = refl; searched = refl; answers = refl; identified = refl };
  same_id = refl;
  same_priority = refl;
  same_tli = refl;
}

abbrev both : List Other
both = primary_at 1 4 ∷ primary_at 2 5 ∷ []
