-- ===== src/Quote/Shell.antt =====
-- `appendShellString` against the quoting rules of a POSIX shell.
use mathlib.Core.Option
use mathlib.Core.Option.{some-injective}
use mathlib.Core.Path.{subst}
use hg_repmgr.Base.{
  codes, ℕ, Bool, false, ◌||◌, List, [], ◌∷◌, ◌++◌, Option, none, some, ◌≡◌, inl, inr, refl, sym,
  ap, ◌∙◌, arith, if◌then◌else◌, ◌==◌, Bool-cases, Option-cases, In, here, there, length, ◌<◌, ◌≤◌,
}
use hg_repmgr.Quote.{shell_char, escape_shell, append_shell_string}

pub data Mode : Type 0 where
  bare single double bare_escape double_escape : Mode

abbrev pub with_char : ℕ → Option (List ℕ) → Option (List ℕ)
with_char c none = none
with_char c (some w) = some (c ∷ w)

abbrev pub is_in : ℕ → List ℕ → Bool
is_in c [] = false
is_in c (d ∷ ds) = c == d || is_in c ds

abbrev pub is_double_special : ℕ → Bool
is_double_special c = c == b'$' || c == b'`' || c == b'"' || c == b'\\'

-- What is not literal outside of quotes: it ends a word, or may be an operator, an expansion, a
-- pattern or a comment.
abbrev pub is_special : ℕ → Bool
is_special c = is_in c (codes "|&;<>()$` *?[]#~=%!{}^\t\n\r")

-- The shell's rules, for a text that is one word: '…' takes all as it is, in "…" a \ escapes four
-- characters and $ and ` begin an expansion, elsewhere a \ escapes any character but a newline.
-- Texts that a shell may not take as one literal word have no result.
abbrev pub read_word : Mode → List ℕ → Option (List ℕ)
read_word bare [] = some []
read_word single [] = none
read_word double [] = none
read_word bare_escape [] = none
read_word double_escape [] = none
read_word bare (c ∷ cs) =
    let in_single = read_word single cs in
    let in_double = read_word double cs in
    let in_escape = read_word bare_escape cs in
    let next = with_char c (read_word bare cs) in
    if c == b'\''
    then in_single
    else if c == b'"'
    then in_double
    else if c == b'\\'
    then in_escape
    else if is_special c
    then none
    else next
read_word single (c ∷ cs) =
    let closed = read_word bare cs in
    let next = with_char c (read_word single cs) in if c == b'\'' then closed else next
read_word double (c ∷ cs) =
    let closed = read_word bare cs in
    let in_escape = read_word double_escape cs in
    let next = with_char c (read_word double cs) in
    if c == b'"'
    then closed
    else if c == b'\\'
    then in_escape
    else if c == b'$' || c == b'`'
    then none
    else next
read_word bare_escape (c ∷ cs) =
    let next = with_char c (read_word bare cs) in if c == b'\n' then none else next
read_word double_escape (c ∷ cs) =
    let next = with_char c (read_word double cs) in
    if is_double_special c then next else if c == b'\n' then none else with_char b'\\' next

-- One argument: an empty text is none.
abbrev pub read_argument : List ℕ → Option (List ℕ)
read_argument [] = none
read_argument (c ∷ cs) = read_word bare (c ∷ cs)

-- The text with a \ in front of each &.
abbrev pub mark_ampersands : List ℕ → List ℕ
mark_ampersands [] = []
mark_ampersands (c ∷ cs) =
    let rest = mark_ampersands cs in if c == b'&' then b'\\' ∷ c ∷ rest else c ∷ rest

abbrev pub is_line_end : ℕ → Bool
is_line_end c = c == b'\n' || c == b'\r'

-- A character as it is read back, in front of a text.
abbrev pub marked : ℕ → List ℕ → List ℕ
marked c w = if c == b'&' then b'\\' ∷ c ∷ w else c ∷ w

read_word-shell_char :
    (c : ℕ) (r t w : List ℕ)
    → read_word single (r ++ t) ≡ some w
    → read_word single (shell_char c r ++ t) ≡ some (marked c w)
unfolding shell_char
read_word-shell_char c r t w h = elim (Bool-cases (c == b'\'')) [
  | inl e ↦ rw e (ground arith)
  | inr e ↦ elim (Bool-cases (c == b'&')) [
    | inl f ↦ rw (e, f) (ground arith)
    | inr f ↦ rw (e, f) (ground arith)
  ]
]

escape_shell-cons :
    (c : ℕ) (s r : List ℕ)
    → escape_shell (c ∷ s) ≡ some r
    → (is_line_end c ≡ false) × ((q : List ℕ) × (escape_shell s ≡ some q) × (r ≡ shell_char c q))
unfolding escape_shell
escape_shell-cons c s r h = elim (Option-cases (escape_shell s)) [
  | inl e ↦ absurd (ground arith)
  | inr (q, e) ↦ (ground arith, (q, e, ground arith))
]

escape_shell_nil : {r : List ℕ} → escape_shell [] ≡ some r → [] ≡ r
unfolding escape_shell
escape_shell_nil h = some-injective _ _ h

read_word-escape_shell :
    (s r : List ℕ)
    → escape_shell s ≡ some r
    → read_word single (r ++ b'\'' ∷ []) ≡ some (mark_ampersands s)
read_word-escape_shell [] r h = rw (← escape_shell_nil h) refl
read_word-escape_shell (c ∷ s) r h =
    let (plain, more) = escape_shell-cons c s r h in
    let (q, e, f) = more in
    rw f (read_word-shell_char c q (b'\'' ∷ []) (mark_ampersands s) (read_word-escape_shell s q e))

quoted_of :
    (s : List ℕ) {r q : List ℕ}
    → append_shell_string s ≡ some q
    → escape_shell s ≡ some r
    → b'\'' ∷ (r ++ b'\'' ∷ []) ≡ q
unfolding append_shell_string
quoted_of s h e = some-injective _ _ (sym (ap (Option.map (λ r. b'\'' ∷ (r ++ b'\'' ∷ []))) e) ∙ h)

-- Where `appendShellString` does not end the program, a POSIX shell reads what it appends as one
-- literal argument, with no operator, expansion or pattern in it: the text with a backslash in front of
-- each &.
pub read_argument-append_shell_string :
    (s : List ℕ) {q : List ℕ}
    → append_shell_string s ≡ some q
    → read_argument q ≡ some (mark_ampersands s)
unfolding append_shell_string
read_argument-append_shell_string s {q} h = elim (Option-cases (escape_shell s)) [
  | inl e ↦ absurd (ground arith)
  | inr (r, e) ↦
      subst (λ x. read_argument x ≡ some (mark_ampersands s)) (quoted_of s h e)
        (read_word-escape_shell s r e)
]

mark_ampersands_lem : (s : List ℕ) → length s ≤ length (mark_ampersands s)
mark_ampersands_lem [] = omega arith
mark_ampersands_lem (c ∷ cs) =
    let ih = mark_ampersands_lem cs in
    elim (Bool-cases (c == b'&')) [ inl e ↦ rw e (omega arith) | inr e ↦ rw e (omega arith) ]

mark_ampersands_grows : {s : List ℕ} → In b'&' s → length s < length (mark_ampersands s)
mark_ampersands_grows (here {xs = xs}) = let p = mark_ampersands_lem xs in omega arith
mark_ampersands_grows (there {x = c} {xs = cs} i) =
    let ih = mark_ampersands_grows i in
    elim (Bool-cases (c == b'&')) [ inl e ↦ rw e (omega arith) | inr e ↦ rw e (omega arith) ]

-- A text with an & in it, quoted by `appendShellString`, is not read by a POSIX shell as that text.
pub append_shell_string_ampersand :
    {s q : List ℕ} → In b'&' s → append_shell_string s ≡ some q → ¬ (read_argument q ≡ some s)
append_shell_string_ampersand {s} {q} i h k =
    let e = some-injective _ _ (sym (read_argument-append_shell_string s h) ∙ k) in
    let p = mark_ampersands_grows i in let f = ap length e in omega arith
