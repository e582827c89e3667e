-- ===== src/Reconnect.antt =====
-- repmgrd.c `try_reconnect` and `check_upstream_connection`.
pub mod Attempts
pub mod Handles
use hg_repmgr.Base.{
  ℕ, zero, suc, Bool, true, false, ◌&&◌, not, Option, none, some, if◌then◌else◌, ltb,
}
use hg_repmgr.Node.{NodeStatus, status_up, status_down}

-- One attempt: is the server there, does a new connection open, is the original handle bad, and
-- does a ping over it succeed.
pub record Attempt : Type 0 where
  pub available : Bool
  pub opens : Bool
  pub original_bad : Bool
  pub ping_ok : Bool

-- The handle that the caller has afterwards: the original one, or the one of attempt `i`.
pub data Handle : Type 0 where
  original : Handle
  opened : ℕ → Handle

-- The node's status and handle, and how many times the loop slept.
pub record Reconnection : Type 0 where
  pub node_status : NodeStatus
  pub handle : Handle
  pub sleeps : ℕ

keep_or_replace : ℕ → Attempt → Handle
keep_or_replace i a = if a.original_bad then opened i else if a.ping_ok then original else opened i

abbrev pub slept : Bool → Reconnection → Reconnection
slept b r = if b then record r { sleeps = suc r.sleeps } else r

-- `left` more attempts, the next one being `i`; the loop sleeps between attempts.
unfoldable pub reconnect_loop : ℕ → (ℕ → Attempt) → ℕ → Reconnection
unfolding keep_or_replace
reconnect_loop zero attempts i = record { node_status = status_down; handle = original; sleeps = 0 }
reconnect_loop (suc left) attempts i =
    let rest = slept (ltb 0 left) (reconnect_loop left attempts (suc i)) in
    if (attempts i).available && (attempts i).opens
    then record { node_status = status_up; handle = keep_or_replace i (attempts i); sleeps = 0 }
    else rest

unfoldable pub try_reconnect : ℕ → (ℕ → Attempt) → Reconnection
try_reconnect reconnect_attempts attempts = reconnect_loop reconnect_attempts attempts 0

pub data ConnectionCheckType : Type 0 where
  check_ping check_query check_connection : ConnectionCheckType

-- One round of the query check: is the handle good, can a query be cancelled, is the handle free,
-- can the query be sent, and is it answered.
pub record Round : Type 0 where
  pub status_ok : Bool
  pub cancelled : Bool
  pub free : Bool
  pub sent : Bool
  pub answered : Bool

-- The endless loop, on fuel; `none` is out of fuel.
unfoldable pub query_loop : ℕ → (ℕ → Round) → ℕ → Bool → Option Bool
query_loop zero rounds i twice = none
query_loop (suc fuel) rounds i twice =
    let again = query_loop fuel rounds (suc i) true in
    let r = rounds i in
    if not r.status_ok
    then (if twice then some false else again)
    else if not r.cancelled
    then (if twice then some false else again)
    else if not r.free
    then (if twice then some false else again)
    else if not r.sent
    then (if twice then some false else again)
    else if not r.answered
    then (if twice then some false else again)
    else some true

-- `ping` is the server's answer to a ping, `connects` whether a new connection opens.
unfoldable pub check_upstream_connection :
    ℕ → ConnectionCheckType → Bool → Bool → (ℕ → Round) → Option Bool
check_upstream_connection fuel check_ping ping connects rounds = some ping
check_upstream_connection fuel check_connection ping connects rounds = some connects
check_upstream_connection fuel check_query ping connects rounds = query_loop fuel rounds 0 false
