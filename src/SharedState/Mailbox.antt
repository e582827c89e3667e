-- ===== src/SharedState/Mailbox.antt =====
-- repmgr.c: what `get_new_primary` reports after any calls, and the node ID that is set once.
use hg_repmgr.Base.{ℤ, some, List, [], ◌∷◌, ◌≡◌, ◌≢◌, refl, ◌∙◌, arith}
use hg_repmgr.SharedState.{Shared, unknown_node_id, get_new_primary}
use hg_repmgr.SharedState.Run.{Call, set_updated, notify, reset, step, run}

-- A call's effect on the notification that is waiting.
abbrev pub received : ℤ → Call → ℤ
received waiting (notify (some id)) = id
received waiting reset = unknown_node_id
received waiting _ = waiting

-- The notification that waits after the calls: the last one since the last reset.
abbrev pub latest : ℤ → List Call → ℤ
latest waiting [] = waiting
latest waiting (c ∷ cs) = latest (received waiting c) cs

step-local_node_id :
    (s : Shared) (c : Call)
    → s.local_node_id ≢ unknown_node_id
    → (step s c).local_node_id ≡ s.local_node_id
unfolding step
step-local_node_id s (set_updated now) h = refl
step-local_node_id s _ h = ground arith

-- Once the local node ID is set, no sequence of calls changes it.
pub run-local_node_id :
    (s : Shared) (cs : List Call)
    → s.local_node_id ≢ unknown_node_id
    → (run s cs).local_node_id ≡ s.local_node_id
unfolding run
run-local_node_id s [] h = refl
run-local_node_id s (c ∷ cs) h =
    let e = step-local_node_id s c h in run-local_node_id (step s c) cs (λ q. h (rw e at q)) ∙ e

step-get_new_primary :
    (s : Shared) (c : Call)
    → s.local_node_id ≢ unknown_node_id
    → get_new_primary (step s c) ≡ received (get_new_primary s) c
unfolding step get_new_primary
step-get_new_primary s (set_updated now) h = refl
step-get_new_primary s _ h = ground arith

-- On a node whose ID is set, after any sequence of calls, `get_new_primary` returns the node of the
-- last notification since the last reset; with neither in the sequence, what it returned before it.
pub get_new_primary-run :
    (s : Shared) (cs : List Call)
    → s.local_node_id ≢ unknown_node_id
    → get_new_primary (run s cs) ≡ latest (get_new_primary s) cs
unfolding run
get_new_primary-run s [] h = refl
get_new_primary-run s (c ∷ cs) h =
    let e = step-local_node_id s c h in
    get_new_primary-run (step s c) cs (λ q. h (rw e at q)) ∙ (rw (step-get_new_primary s c h))
