-- ===== src/Quote.antt =====
-- compat.c: quoting of connection string values and of shell arguments; strutil.c
-- `escape_double_quotes`. Texts are lists of character codes with no NUL.
pub mod ConnStr
pub mod Shell
use mathlib.Core.Option
use hg_repmgr.Base.{
  ℕ, Bool, true, false, ◌&&◌, ◌||◌, not, List, [], ◌∷◌, ◌++◌, Option, none, some, if◌then◌else◌,
  leb, ◌==◌, codes,
}

is_plain_char : ℕ → Bool
is_plain_char c =
    (leb b'a' c && leb c b'z')
    || (leb b'A' c && leb c b'Z')
    || (leb b'0' c && leb c b'9')
    || c == b'_'
    || c == b'.'

abbrev pub all_plain : (ℕ → Bool) → List ℕ → Bool
all_plain f [] = true
all_plain f (c ∷ cs) = f c && all_plain f cs

-- The loop over the text: an empty text needs quotes.
unfoldable pub needs_quotes : List ℕ → Bool
unfolding is_plain_char
needs_quotes [] = true
needs_quotes (c ∷ cs) = not (all_plain is_plain_char (c ∷ cs))

-- ' and \ behind a \.
unfoldable pub escape_quoted : List ℕ → List ℕ
escape_quoted [] = []
escape_quoted (c ∷ cs) =
    let rest = escape_quoted cs in if c == b'\'' || c == b'\\' then b'\\' ∷ c ∷ rest else c ∷ rest

-- `appendConnStrVal`: what it appends.
unfoldable pub append_conn_str_val : List ℕ → List ℕ
unfolding needs_quotes escape_quoted
append_conn_str_val s = if needs_quotes s then b'\'' ∷ (escape_quoted s ++ b'\'' ∷ []) else s

-- One character of a shell argument, before the rest.
unfoldable pub shell_char : ℕ → List ℕ → List ℕ
shell_char c r =
    if c == b'\'' then codes "'\"'\"'" ++ r else if c == b'&' then b'\\' ∷ b'&' ∷ r else c ∷ r

-- The loop of the two shell functions. `none`: the program ends with ERR_BAD_CONFIG at a newline or
-- a carriage return.
unfoldable pub escape_shell : List ℕ → Option (List ℕ)
escape_shell [] = some []
escape_shell (c ∷ cs) =
    let rest = escape_shell cs in
    if c == b'\n' || c == b'\r' then none else Option.map (shell_char c) rest

-- `appendShellString`
unfoldable pub append_shell_string : List ℕ → Option (List ℕ)
unfolding escape_shell
append_shell_string s = Option.map (λ r. b'\'' ∷ (r ++ b'\'' ∷ [])) (escape_shell s)

-- `appendRemoteShellString`: the quotes around the text are escaped for a shell before the remote
-- one.
unfoldable pub append_remote_shell_string : List ℕ → Option (List ℕ)
unfolding escape_shell
append_remote_shell_string s =
    Option.map (λ r. b'\\' ∷ b'\'' ∷ (r ++ b'\\' ∷ b'\'' ∷ [])) (escape_shell s)
