-- ===== src/Config/Events.antt =====
-- `parse_event_notifications_list`: the list of event names in `event_notifications`.
use mathlib.Core.List.{append-nil, append_assoc}
use hg_repmgr.Base.{
  sym, length-append, Bool-cases, inl, inr, ℕ, ◌+◌, ◌≤◌, ◌<◌, Bool, true, ◌||◌, List, [], ◌∷◌, ◌++◌,
  Option, none, some, ◌≡◌, refl, arith, ltb, ◌==◌, if◌then◌else◌, length,
}

-- `MAXLEN`
abbrev pub maxlen : ℕ
maxlen = 1024

-- The buffer's text, and the list so far.
pub record Reader : Type 0 where
  pub buffer : List ℕ
  pub events : List (List ℕ)

abbrev pub is_blank : ℕ → Bool
is_blank c = c == b' ' || c == 9

-- The end of an event's name, if there is one.
abbrev pub add_event : List ℕ → List (List ℕ) → List (List ℕ)
add_event [] es = es
add_event (x ∷ xs) es = es ++ (x ∷ xs) ∷ []

abbrev pub push : Reader → Reader
push r = record { buffer = []; events = add_event r.buffer r.events }

-- The loop; `none` is a write behind the end of `event_type_buf`, which is not looked for.
unfoldable pub read_events : Reader → List ℕ → Option Reader
read_events r [] = some (push r)
read_events r (c ∷ cs) =
    let skipped = read_events r cs in
    let pushed = read_events (push r) cs in
    let added = read_events (record r { buffer = r.buffer ++ c ∷ [] }) cs in
    if is_blank c
    then skipped
    else if c == b','
    then pushed
    else if ltb (length r.buffer) maxlen
    then added
    else none

unfoldable pub parse_event_notifications_list : List (List ℕ) → List ℕ → Option (List (List ℕ))
parse_event_notifications_list events arg =
    result (read_events (record { buffer = []; events = events }) arg)
  where
    result : Option Reader → Option (List (List ℕ))
    result none = none
    result (some r) = some r.events

-- The specification: the text is cut at each comma, blanks are dropped, and names that are empty
-- then are left out. `item` is the name so far.
abbrev pub items : List ℕ → List ℕ → List (List ℕ)
items item [] = item ∷ []
items item (c ∷ cs) =
    let dropped = items item cs in
    let cut = item ∷ items [] cs in
    let kept = items (item ++ c ∷ []) cs in
    if is_blank c then dropped else if c == b',' then cut else kept

abbrev pub named : List (List ℕ) → List (List ℕ)
named [] = []
named ([] ∷ is) = named is
named ((x ∷ xs) ∷ is) = (x ∷ xs) ∷ named is

add_event-named :
    (item : List ℕ) (es is : List (List ℕ))
    → add_event item es ++ named is ≡ es ++ named (item ∷ is)
add_event-named [] es is = refl
add_event-named (x ∷ xs) es is = append_assoc es ((x ∷ xs) ∷ []) (named is)

read_events-items :
    (r : Reader) (cs : List ℕ)
    → length r.buffer + length cs ≤ maxlen
    → read_events r cs
      ≡ some (record { buffer = []; events = r.events ++ named (items r.buffer cs) })
unfolding read_events
read_events-items r [] h =
    rw (sym (add_event-named r.buffer r.events []))
      (rw (append-nil (add_event r.buffer r.events)) refl)
read_events-items r (c ∷ cs) h = elim (Bool-cases (is_blank c)) [
  | inl e ↦ rw e (read_events-items r cs (omega arith))
  | inr e ↦ elim (Bool-cases (c == b',')) [
    | inl k ↦ rw e (
        rw k (
          rw (sym (add_event-named r.buffer r.events (items [] cs)))
            (read_events-items (push r) cs (omega arith))))
    | inr k ↦
        (let room : ltb (length r.buffer) maxlen ≡ true = ground (arith, h) in
          let longer : length (r.buffer ++ c ∷ []) ≡ length r.buffer + 1 =
            length-append r.buffer (c ∷ []) in
          rw e (
            rw k (
              rw room (
                read_events-items (record r { buffer = r.buffer ++ c ∷ [] }) cs
                  (rw longer (omega arith))))))
  ]
]

-- A value of `event_notifications` that is shorter than the buffer adds the names between its
-- commas, in their order, without their blanks and without the empty ones, and never writes behind
-- the buffer.
pub parse_event_notifications_list-items :
    (events : List (List ℕ)) (arg : List ℕ)
    → length arg < maxlen
    → parse_event_notifications_list events arg ≡ some (events ++ named (items [] arg))
unfolding parse_event_notifications_list
parse_event_notifications_list-items events arg h =
    rw (read_events-items (record { buffer = []; events = events }) arg (omega arith)) refl
