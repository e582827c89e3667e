-- ===== src/Failover/Waiting.antt =====
-- The two loops of a failover that wait: for the siblings' WAL receivers to stop, and for a
-- notification in the local server's shared memory.
use hg_repmgr.Base.{
  ℤ, ℕ, zero, suc, ◌+◌, ◌<◌, true, false, List, [], ◌∷◌, Option, some, ◌≡◌, ◌≢◌, refl, arith,
  if◌then◌else◌, ltb, Bool-cases, inl, inr,
}
use hg_repmgr.SharedState.{Shared, unknown_node_id, get_new_primary, notify_follow_primary}
use hg_repmgr.Daemon.{Options, Daemon}
use hg_repmgr.Failover.{any_connected, wait_wal_receivers, query_new_primary, poll_new_primary}
use hg_repmgr.Failover.Steps.{wait_primary_notification}

any_connected-true : (pids : List ℤ) → any_connected pids true ≡ true
any_connected-true [] = refl
any_connected-true (pid ∷ pids) = ground (arith, any_connected-true pids)

wait_connected :
    (left : ℕ) (pids : ℕ → List ℤ) (i : ℕ) → wait_wal_receivers left pids i true ≡ (left, true)
unfolding wait_wal_receivers
wait_connected zero pids i = refl
wait_connected (suc left) pids i =
    ground (arith, any_connected-true (pids i), wait_connected left pids (suc i))

-- If a sibling's WAL receiver runs in the first second, then the loop sleeps for the whole timeout
-- and ends with receivers reported as connected, whatever the siblings answer afterwards.
pub wait_wal_receivers_stuck :
    (left : ℕ) (pids : ℕ → List ℤ)
    → any_connected (pids 0) false ≡ true
    → wait_wal_receivers (suc left) pids 0 false ≡ (suc left, true)
unfolding wait_wal_receivers
wait_wal_receivers_stuck left pids h = ground (arith, wait_connected left pids 1)

-- The answers while the server's memory is `s`, and from second `k` on with a notification to
-- follow node `id`.
abbrev pub answers_from : ℕ → Shared → ℤ → ℕ → Option ℤ
answers_from k s id j =
    some (get_new_primary (if ltb j k then s else notify_follow_primary (some id) s))

module _ (s : Shared) (id : ℤ) (known : s.local_node_id ≢ unknown_node_id)
    (silent : get_new_primary s ≡ unknown_node_id) (proper : id ≢ unknown_node_id) where
  notified_answer : get_new_primary (notify_follow_primary (some id) s) ≡ id
  unfolding get_new_primary notify_follow_primary
  notified_answer = ground arith

  poll_answers :
      (left k i : ℕ)
      → k < i + left
      → i < suc k
      → poll_new_primary left (answers_from k s id) i ≡ some id
  unfolding poll_new_primary query_new_primary
  poll_answers zero k i h l = absurd (omega arith)
  poll_answers (suc left) k i h l = elim (Bool-cases (ltb i k)) [
    | inl e ↦ rw (e, silent) (poll_answers left k (suc i) (ground arith) (ground arith))
    | inr e ↦ rw (e, notified_answer) (ground arith)
  ]

-- A standby whose server's node ID is set, with no notification waiting, hears of a new primary
-- that is notified in any second before the timeout, and its variables stay as they are.
pub notification_heard :
    (opts : Options) (d : Daemon) (s : Shared) (id : ℤ) (k : ℕ)
    → s.local_node_id ≢ unknown_node_id
    → get_new_primary s ≡ unknown_node_id
    → id ≢ unknown_node_id
    → k < opts.primary_notification_timeout
    → wait_primary_notification opts (answers_from k s id) d ≡ (some id, d)
unfolding wait_primary_notification
notification_heard opts d s id k known silent proper h = rw (
    poll_answers s id known silent proper opts.primary_notification_timeout k 0 (omega arith)
      (omega arith))
