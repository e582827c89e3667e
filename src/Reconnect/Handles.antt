-- ===== src/Reconnect/Handles.antt =====
-- repmgrd.c `check_upstream_connection` with the connection that it replaces, over a store of
-- connections. repmgrd-physical.c has a second name for it: a standby of a primary sets
-- `primary_conn = upstream_conn`.
use hg_repmgr.Base.{
  ℕ, zero, suc, ◌<◌, Bool, true, false, List, ◌∷◌, Option, none, some, ◌≡◌, ◌≢◌, refl, arith,
  if◌then◌else◌, In, here,
}
use mathlib.Core.Option.{some-injective}
use hg_repmgr.Reconnect.{Round, query_loop}
use hg_repmgr.Reconnect.Attempts.{is_usable}

-- Connections are numbered in the order in which they are opened; `none` is the null pointer.
pub record Store : Type 0 where
  pub upstream_conn : Option ℕ
  pub primary_conn : Option ℕ
  pub finished : List ℕ
  pub opened : ℕ

-- PQfinish of the null pointer does nothing.
finish_conn : Option ℕ → List ℕ → List ℕ
finish_conn none finished = finished
finish_conn (some c) finished = c ∷ finished

-- PQfinish and PQconnectdb: `*conn` is the upstream node's.
unfoldable pub reopen : Store → Store
unfolding finish_conn
reopen s = record s {
  upstream_conn = some s.opened;
  finished = finish_conn s.upstream_conn s.finished;
  opened = suc s.opened;
}

-- The loop with what it does to the connection. The five ways in which a round fails lead to the
-- same place.
unfoldable pub query_loop_store : ℕ → (ℕ → Round) → ℕ → Bool → Store → Option Bool × Store
unfolding reopen
query_loop_store zero rounds i twice s = (none, s)
query_loop_store (suc fuel) rounds i twice s =
    let again = query_loop_store fuel rounds (suc i) true (reopen s) in
    if is_usable (rounds i) then (some true, s) else if twice then (some false, s) else again

-- The loop of a standby whose upstream node is a primary: both names are of one connection.
abbrev pub share_connection : Store → Store
share_connection s = record s { primary_conn = s.upstream_conn }

-- The loop over the store has the result of the loop without it.
pub query_loop_store-query_loop :
    (fuel : ℕ) (rounds : ℕ → Round) (i : ℕ) (twice : Bool) (s : Store)
    → (query_loop_store fuel rounds i twice s).0 ≡ query_loop fuel rounds i twice
unfolding query_loop_store query_loop
query_loop_store-query_loop zero rounds i twice s = refl
query_loop_store-query_loop (suc fuel) rounds i twice s =
    ground (arith, query_loop_store-query_loop fuel rounds (suc i) true (reopen s))

reopens_once :
    (rounds : ℕ → Round) (s : Store)
    → is_usable (rounds 0) ≡ false
    → (query_loop_store 2 rounds 0 false s).1 ≡ reopen s
unfolding query_loop_store
reopens_once rounds s u = ground (arith, u)

In-finish_conn :
    (conn : Option ℕ) (c : ℕ) (finished : List ℕ) → conn ≡ some c → In c (finish_conn conn finished)
unfolding finish_conn
In-finish_conn none c finished h = absurd (ground arith)
In-finish_conn (some x) c finished h = rw (some-injective _ _ h) here

-- The query check of a standby whose upstream node is a primary: if the first round finds the
-- connection unusable, then `primary_conn` names a connection that was finished, whether the second
-- round succeeds or not, and `upstream_conn` another one.
pub primary_conn_finished :
    (rounds : ℕ → Round) (c : ℕ) (s : Store)
    → s.upstream_conn ≡ some c
    → c < s.opened
    → is_usable (rounds 0) ≡ false
    → let t = (query_loop_store 2 rounds 0 false (share_connection s)).1 in
      (t.primary_conn ≡ some c) × In c t.finished × (t.upstream_conn ≢ t.primary_conn)
unfolding reopen
primary_conn_finished rounds c s e l u =
    rw (reopens_once rounds (share_connection s) u)
      (e, In-finish_conn s.upstream_conn c s.finished e, λ q. ground (arith, e, l, q))
