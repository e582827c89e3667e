-- ===== src/SharedState/Handler.antt =====
-- repmgr.c: the BDR failover handler, asked for by several backends. `am_bdr_failover_handler`
-- reads under a shared lock, gives it up, and writes under an exclusive lock: two steps of an
-- interleaving.
use hg_repmgr.Base.{
  ℤ, eqb_ℤ, Bool, true, Option, none, some, List, [], ◌∷◌, ◌≡◌, ◌≢◌, refl, arith, eqb_ℤ→eq, ◌∙◌,
  if◌then◌else◌,
}
use hg_repmgr.SharedState.{Shared, unknown_node_id, am_bdr_failover_handler}
use hg_repmgr.SharedState.Run.{Call, unset_handler, step, run}

-- Does no call of the sequence unset the handler?
abbrev pub NoUnset : List Call → Type 0
NoUnset [] = Unit
NoUnset (unset_handler ∷ cs) = ⊥
NoUnset (_ ∷ cs) = NoUnset cs

step-handler :
    (s : Shared) (c : Call) (cs : List Call)
    → s.bdr_failover_handler ≢ unknown_node_id
    → NoUnset (c ∷ cs)
    → ((step s c).bdr_failover_handler ≡ s.bdr_failover_handler) × NoUnset cs
unfolding step
step-handler s unset_handler cs h k = absurd k
step-handler s _ cs h k = (ground arith, k)

run-handler :
    (s : Shared) (cs : List Call)
    → s.bdr_failover_handler ≢ unknown_node_id
    → NoUnset cs
    → (run s cs).bdr_failover_handler ≡ s.bdr_failover_handler
unfolding run
run-handler s [] h k = refl
run-handler s (c ∷ cs) h k =
    let (e, rest) = step-handler s c cs h k in
    rw (run-handler (step s c) cs (λ q. h (rw e at q)) rest) e

handler_of_true :
    (s : Shared) (n : ℤ)
    → (am_bdr_failover_handler (some n) s).1 ≡ some true
    → (am_bdr_failover_handler (some n) s).0.bdr_failover_handler ≡ n
unfolding am_bdr_failover_handler
handler_of_true s n h = ground (arith, eqb_ℤ→eq s.bdr_failover_handler n)

answer_of_handler :
    (s : Shared) (n m : ℤ)
    → s.bdr_failover_handler ≡ n
    → n ≢ unknown_node_id
    → (am_bdr_failover_handler (some m) s).1 ≡ some (eqb_ℤ n m)
unfolding am_bdr_failover_handler
answer_of_handler s n m e h = ground arith

-- Calls one after another have one handler at most: once node `n` (not the unknown ID) was told
-- that it is the handler, and while no call unsets it, each node is told so exactly if it is `n`.
pub handler_exclusive :
    (s : Shared) (n m : ℤ) (cs : List Call)
    → n ≢ unknown_node_id
    → (am_bdr_failover_handler (some n) s).1 ≡ some true
    → NoUnset cs
    → (am_bdr_failover_handler (some m) (run (am_bdr_failover_handler (some n) s).0 cs)).1
      ≡ some (eqb_ℤ n m)
handler_exclusive s n m cs h told k =
    let e = handler_of_true s n told in
    answer_of_handler (run (am_bdr_failover_handler (some n) s).0 cs) n m
      (run-handler (am_bdr_failover_handler (some n) s).0 cs (λ q. h (cc)) k ∙ e) h

-- Where a caller stands: before the shared lock; between the locks, having read that there is no
-- handler; done, with its answer.
pub data Caller : Type 0 where
  entering : Caller
  between_locks : Caller
  returned : Bool → Caller

-- The part under the shared lock.
pub read_handler : ℤ → Shared → Caller
read_handler id s =
    if eqb_ℤ s.bdr_failover_handler unknown_node_id
    then between_locks
    else returned (eqb_ℤ s.bdr_failover_handler id)

-- The part under the exclusive lock.
pub claim_handler : ℤ → Shared → Shared
claim_handler id s = record s { bdr_failover_handler = id }

-- Two callers, for the nodes `n` and `m`, and the memory that they share.
pub record System : Type 0 where
  pub shared : Shared
  pub first : Caller
  pub second : Caller

pub data Interleave (n m : ℤ) : System → System → Type 0 where
  first_reads :
      {s : Shared} {c : Caller}
      → Interleave n m
          (record { shared = s; first = entering; second = c })
          (record { shared = s; first = read_handler n s; second = c })
  first_claims :
      {s : Shared} {c : Caller}
      → Interleave n m
          (record { shared = s; first = between_locks; second = c })
          (record { shared = claim_handler n s; first = returned true; second = c })
  second_reads :
      {s : Shared} {c : Caller}
      → Interleave n m
          (record { shared = s; first = c; second = entering })
          (record { shared = s; first = c; second = read_handler m s })
  second_claims :
      {s : Shared} {c : Caller}
      → Interleave n m
          (record { shared = s; first = c; second = between_locks })
          (record { shared = claim_handler m s; first = c; second = returned true })

pub data Reach (n m : ℤ) (s : System) : System → Type 0 where
  stay : Reach n m s s
  after : {t u : System} → Reach n m s t → Interleave n m t u → Reach n m s u

abbrev pub entered : Shared → System
entered s = record { shared = s; first = entering; second = entering }

-- The answer of a caller whose two parts run with nothing in between.
pub settle : ℤ → Shared → Caller → Shared × Option Bool
settle id s entering = (s, none)
settle id s between_locks = (claim_handler id s, some true)
settle id s (returned told) = (s, some told)

-- The two parts, run with nothing in between, are `am_bdr_failover_handler`.
pub settle-read_handler :
    (id : ℤ) (s : Shared) → settle id s (read_handler id s) ≡ am_bdr_failover_handler (some id) s
unfolding settle read_handler claim_handler am_bdr_failover_handler
settle-read_handler id s = ground arith

no_handler_read :
    (id : ℤ) (s : Shared)
    → s.bdr_failover_handler ≡ unknown_node_id
    → read_handler id s ≡ between_locks
unfolding read_handler
no_handler_read id s h = ground arith

both_claim :
    (n m : ℤ) (s : Shared)
    → read_handler n s ≡ between_locks
    → read_handler m s ≡ between_locks
    → Reach n m (entered s) (record {
      shared = claim_handler m (claim_handler n s);
      first = returned true;
      second = returned true;
    })
both_claim n m s p q =
    let one : Reach n m (entered s)
        (record { shared = s; first = read_handler n s; second = entering }) =
      after stay first_reads in
    let two : Reach n m (entered s)
        (record { shared = s; first = between_locks; second = read_handler m s }) =
      after (rw p at one) second_reads in
    let three : Reach n m (entered s)
        (record { shared = s; first = between_locks; second = between_locks }) =
      rw q at two in
    after (after three first_claims) second_claims

-- While no handler is set, two backends that ask at once, for any two nodes, can both be told that
-- they are the handler. The handler that stays is the second.
pub handler_race :
    (n m : ℤ) (s : Shared)
    → s.bdr_failover_handler ≡ unknown_node_id
    → (t : System) × Reach n m (entered s) t
      × (t.first ≡ returned true)
      × (t.second ≡ returned true)
      × (t.shared.bdr_failover_handler ≡ m)
unfolding claim_handler
handler_race n m s h = (
  record {
    shared = claim_handler m (claim_handler n s);
    first = returned true;
    second = returned true;
  },
  both_claim n m s (no_handler_read n s h) (no_handler_read m s h),
  refl,
  refl,
  refl,
)
