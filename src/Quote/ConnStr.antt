-- ===== src/Quote/ConnStr.antt =====
-- `appendConnStrVal` against libpq's syntax of a connection string's values.
use mathlib.Core.List.{append_assoc}
use hg_repmgr.Base.{
  ◌∙◌, ℕ, true, false, ◌||◌, List, [], ◌∷◌, ◌++◌, Option, none, some, ◌≡◌, ◌≢◌, inl, inr, refl,
  arith, if◌then◌else◌, ◌==◌, Bool-cases,
}
use hg_repmgr.Config.{is_space}
use hg_repmgr.Quote.{is_plain_char, all_plain, needs_quotes, escape_quoted, append_conn_str_val}

abbrev pub with_head : ℕ → Option (List ℕ × List ℕ) → Option (List ℕ × List ℕ)
with_head c none = none
with_head c (some (v, rest)) = some (c ∷ v, rest)

-- The syntax: between ' and ', a \ takes the next character as it is.
abbrev pub read_quoted : List ℕ → Option (List ℕ × List ℕ)
read_quoted [] = none
read_quoted (c ∷ []) = if c == b'\'' then some ([], []) else none
read_quoted (c ∷ d ∷ rest) =
    let escaped = with_head d (read_quoted rest) in
    let next = with_head c (read_quoted (d ∷ rest)) in
    if c == b'\\' then escaped else if c == b'\'' then some ([], d ∷ rest) else next

-- Without quotes, up to the next white space; a \ takes the next character as it is, and is dropped
-- at the end of the text.
abbrev pub read_bare : List ℕ → Option (List ℕ × List ℕ)
read_bare [] = some ([], [])
read_bare (c ∷ []) =
    if is_space c
    then some ([], c ∷ [])
    else if c == b'\\'
    then some ([], [])
    else some (c ∷ [], [])
read_bare (c ∷ d ∷ rest) =
    let escaped = with_head d (read_bare rest) in
    let next = with_head c (read_bare (d ∷ rest)) in
    if is_space c then some ([], c ∷ d ∷ rest) else if c == b'\\' then escaped else next

-- One value, behind white space, and what follows it.
abbrev pub read_value : List ℕ → Option (List ℕ × List ℕ)
read_value [] = some ([], [])
read_value (c ∷ cs) =
    let skipped = read_value cs in
    if is_space c then skipped else if c == b'\'' then read_quoted cs else read_bare (c ∷ cs)

-- A value ends at the end of the string or at white space.
abbrev pub Ends : List ℕ → Type 0
Ends [] = Unit
Ends (c ∷ cs) = is_space c ≡ true

read_quoted-literal :
    (c : ℕ) (cs : List ℕ)
    → cs ≢ []
    → (c == b'\'' || c == b'\\') ≡ false
    → read_quoted (c ∷ cs) ≡ with_head c (read_quoted cs)
read_quoted-literal c [] n h = absurd (n refl)
read_quoted-literal c (d ∷ cs) n h = ground arith

tail_ne_nil : (s rest : List ℕ) → s ++ b'\'' ∷ rest ≢ []
tail_ne_nil [] rest e = cc
tail_ne_nil (c ∷ s) rest e = cc

read_quoted-close : (rest : List ℕ) → read_quoted (b'\'' ∷ rest) ≡ some ([], rest)
read_quoted-close [] = refl
read_quoted-close (c ∷ rest) = refl

read_quoted-escape_quoted :
    (s rest : List ℕ) → read_quoted (escape_quoted s ++ b'\'' ∷ rest) ≡ some (s, rest)
unfolding escape_quoted
read_quoted-escape_quoted [] rest = read_quoted-close rest
read_quoted-escape_quoted (c ∷ s) rest = elim (Bool-cases (c == b'\'' || c == b'\\')) [
  | inl e ↦ rw (e, read_quoted-escape_quoted s rest)
  | inr e ↦ rw e (
      rw
        (read_quoted-literal c (escape_quoted s ++ b'\'' ∷ rest)
          (tail_ne_nil (escape_quoted s) rest) e)
        (rw (read_quoted-escape_quoted s rest)))
]

read_bare-Ends : (rest : List ℕ) → Ends rest → read_bare rest ≡ some ([], rest)
read_bare-Ends [] e = refl
read_bare-Ends (c ∷ []) e = ground (arith, e)
read_bare-Ends (c ∷ d ∷ rest) e = ground (arith, e)

-- A plain character is no white space and no backslash.
read_bare-cons :
    (c : ℕ) (cs : List ℕ) → is_plain_char c ≡ true → read_bare (c ∷ cs) ≡ with_head c (read_bare cs)
unfolding is_plain_char
read_bare-cons c [] h = ground (arith, h)
read_bare-cons c (d ∷ cs) h = ground (arith, h)

read_bare-plain :
    (s rest : List ℕ)
    → Ends rest
    → all_plain is_plain_char s ≡ true
    → read_bare (s ++ rest) ≡ some (s, rest)
read_bare-plain [] rest e h = read_bare-Ends rest e
read_bare-plain (c ∷ s) rest e h =
    let ih = read_bare-plain s rest e (ground (arith, h)) in
    rw (read_bare-cons c (s ++ rest) (ground (arith, h))) (rw ih refl)

read_value-plain_char :
    (c : ℕ) (cs : List ℕ) → is_plain_char c ≡ true → read_value (c ∷ cs) ≡ read_bare (c ∷ cs)
unfolding is_plain_char
read_value-plain_char c cs h = ground (arith, h)

read_value-quoted :
    (s rest : List ℕ)
    → read_value (b'\'' ∷ (escape_quoted s ++ b'\'' ∷ []) ++ rest) ≡ some (s, rest)
read_value-quoted s rest =
    rw (append_assoc (escape_quoted s) (b'\'' ∷ []) rest) (read_quoted-escape_quoted s rest)

read_value-plain :
    (s rest : List ℕ) → Ends rest → needs_quotes s ≡ false → read_value (s ++ rest) ≡ some (s, rest)
unfolding needs_quotes
read_value-plain [] rest e h = ground arith
read_value-plain (c ∷ s) rest e h =
    let plain : all_plain is_plain_char (c ∷ s) ≡ true = ground (arith, h) in
    read_value-plain_char c (s ++ rest) (ground (arith, plain))
    ∙ read_bare-plain (c ∷ s) rest e plain

-- Whatever the value, quoted or not, a reader of libpq's syntax gets it back: it ends where the
-- appended text ends, if nothing or white space follows. That reader skips white space in front,
-- takes a backslash as an escape in quotes and without them, and ends an unquoted value at white
-- space.
pub read_value-append_conn_str_val :
    (s rest : List ℕ) → Ends rest → read_value (append_conn_str_val s ++ rest) ≡ some (s, rest)
unfolding append_conn_str_val
read_value-append_conn_str_val s rest e = elim (Bool-cases (needs_quotes s)) [
  | inl q ↦ rw (q, append_conn_str_val) (read_value-quoted s rest)
  | inr q ↦ rw (q, append_conn_str_val) (read_value-plain s rest e q)
]
