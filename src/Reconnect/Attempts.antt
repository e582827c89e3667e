-- ===== src/Reconnect/Attempts.antt =====
-- `try_reconnect`: when the node counts as up, and how long it can take; `check_upstream_connection`
-- ends after two rounds.
use hg_repmgr.Base.{
  ℕ, zero, suc, ◌+◌, ◌-◌, ◌<◌, ◌≤◌, Bool, true, false, ◌&&◌, ◌||◌, some, ◌≡◌, inl, inr, sym, ap,
  ◌∙◌, refl, arith, ltb, Bool-cases,
}
use mathlib.Core.Bool.{true≢false}
use hg_repmgr.Node.{status_up, status_down}
use hg_repmgr.Reconnect.{
  Attempt, original, reconnect_loop, try_reconnect, check_query, Round, query_loop,
  check_upstream_connection,
}

-- The first attempt from `i` on, of `left` attempts, at which the server is there and a connection
-- opens.
abbrev pub FirstSuccess : (ℕ → Attempt) → ℕ → ℕ → ℕ → Type 0
FirstSuccess attempts left i k =
    (i ≤ k)
    × (k < i + left)
    × (((attempts k).available && (attempts k).opens) ≡ true)
    × ((j : ℕ) → i ≤ j → j < k → ((attempts j).available && (attempts j).opens) ≡ false)

same_index : (i k : ℕ) → i ≤ k → ltb i k ≡ false → k ≡ i
same_index i k a l = ground arith

loop_up :
    (left : ℕ) (attempts : ℕ → Attempt) (i k : ℕ)
    → FirstSuccess attempts left i k
    → ((reconnect_loop left attempts i).node_status ≡ status_up)
      × ((reconnect_loop left attempts i).sleeps ≡ k - i)
unfolding reconnect_loop
loop_up zero attempts i k s = absurd (omega arith)
loop_up (suc left) attempts i k (a, b, c, d) =
    elim (Bool-cases ((attempts i).available && (attempts i).opens)) [
      | inl e ↦ elim (Bool-cases (ltb i k)) [
        | inl l ↦ absurd (true≢false (sym e ∙ d i (omega arith) (ground arith)))
        | inr l ↦ rw e (refl, ground arith)
      ]
      | inr e ↦ elim (Bool-cases (ltb i k)) [
        | inl l ↦
            (let (up, n) =
                loop_up left attempts (suc i) k
                  (ground arith, omega arith, c, λ j p q. d j (omega arith) q) in
              rw e (ground arith, ground arith))
        | inr l ↦ absurd (
            true≢false (
              sym c
              ∙ (ap (λ x. (attempts x).available && (attempts x).opens) (same_index i k a l))
              ∙ e))
      ]
    ]

loop_down :
    (left : ℕ) (attempts : ℕ → Attempt) (i : ℕ)
    → ((j : ℕ) → i ≤ j → j < i + left → ((attempts j).available && (attempts j).opens) ≡ false)
    → reconnect_loop left attempts i
      ≡ record { node_status = status_down; handle = original; sleeps = left - 1 }
unfolding reconnect_loop
loop_down zero attempts i h = refl
loop_down (suc left) attempts i h =
    let ih = loop_down left attempts (suc i) (λ j a b. h j (omega arith) (omega arith)) in
    let e = h i (omega arith) (omega arith) in ground arith

-- If the server is there and a connection opens at some attempt of those allowed, then after
-- `try_reconnect` the node is up, and the loop slept once before each attempt but the first up to
-- the first such attempt.
pub try_reconnect_up :
    (reconnect_attempts : ℕ) (attempts : ℕ → Attempt) (k : ℕ)
    → FirstSuccess attempts reconnect_attempts 0 k
    → ((try_reconnect reconnect_attempts attempts).node_status ≡ status_up)
      × ((try_reconnect reconnect_attempts attempts).sleeps ≡ k)
unfolding try_reconnect
try_reconnect_up n attempts k s =
    let (up, sleeps) = loop_up n attempts 0 k s in (up, sleeps ∙ (omega arith))

-- If no attempt of those allowed succeeds, then the node is down, the caller keeps its handle, and
-- the loop slept once less than there are attempts.
pub try_reconnect_down :
    (reconnect_attempts : ℕ) (attempts : ℕ → Attempt)
    → ((j : ℕ) → j < reconnect_attempts → ((attempts j).available && (attempts j).opens) ≡ false)
    → try_reconnect reconnect_attempts attempts
      ≡ record { node_status = status_down; handle = original; sleeps = reconnect_attempts - 1 }
unfolding try_reconnect
try_reconnect_down n attempts h = loop_down n attempts 0 (λ j a b. h j (omega arith))

-- A round that finds the connection usable.
abbrev pub is_usable : Round → Bool
is_usable r = r.status_ok && r.cancelled && r.free && r.sent && r.answered

-- The query check needs two rounds at most: with fuel for two it returns, and it is true exactly if
-- the first round, or the second over a new connection, finds the connection usable.
pub check_upstream_connection-two :
    (fuel : ℕ) (ping connects : Bool) (rounds : ℕ → Round)
    → check_upstream_connection (suc (suc fuel)) check_query ping connects rounds
      ≡ some (is_usable (rounds 0) || is_usable (rounds 1))
unfolding check_upstream_connection query_loop
check_upstream_connection-two fuel ping connects rounds = ground arith
