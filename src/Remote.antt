-- ===== src/Remote.antt =====
-- repmgr-action-standby.c: how a switchover reads what `repmgr node check` and `repmgr node status`
-- print on another host. A text is a list of character codes.
pub mod Words
pub mod Answers
pub mod Directory
use hg_repmgr.Base.{
  ℤ, pos, ℕ, Bool, true, false, ◌&&◌, not, List, [], ◌∷◌, ◌++◌, Option, none, some, if◌then◌else◌,
  ◌==◌, codes, eqb_codes,
}
use hg_repmgr.Node.{NodeStatus, status_unknown, status_up, status_down, status_unclean_shutdown}
use hg_repmgr.Config.{is_space, strtol, to_int32}
use hg_repmgr.NodeCheck.{CheckStatus, check_ok, check_warning, check_critical, check_unknown}

-- `strtok(string, " ")` up to the end; `item` is the token so far.
unfoldable pub strtok_from : List ℕ → List ℕ → List (List ℕ)
strtok_from [] [] = []
strtok_from (x ∷ item) [] = (x ∷ item) ∷ []
strtok_from item (c ∷ cs) =
    let ended = strtok_from [] cs in
    let longer = strtok_from (item ++ c ∷ []) cs in
    if c == b' ' then end_token item ended else longer
  where
    end_token : List ℕ → List (List ℕ) → List (List ℕ)
    end_token [] rest = rest
    end_token (x ∷ xs) rest = (x ∷ xs) ∷ rest

unfoldable pub trim_right : List ℕ → List ℕ
trim_right [] = []
trim_right (c ∷ cs) = add c (trim_right cs)
  where
    add : ℕ → List ℕ → List ℕ
    add c [] = if is_space c then [] else c ∷ []
    add c (d ∷ ds) = c ∷ d ∷ ds

unfoldable pub trim_left : List ℕ → List ℕ
trim_left [] = []
trim_left (c ∷ cs) = let rest = trim_left cs in if is_space c then rest else c ∷ cs

unfoldable pub trim : List ℕ → List ℕ
unfolding trim_left trim_right
trim s = trim_left (trim_right s)

trim_all : List (List ℕ) → List (List ℕ)
unfolding trim
trim_all [] = []
trim_all (s ∷ ss) = trim s ∷ trim_all ss

-- The arguments, without the program's empty name.
unfoldable pub parse_output_to_argv : List ℕ → List (List ℕ)
unfolding strtok_from trim_all
parse_output_to_argv s = trim_all (strtok_from [] s)

-- An option with its argument.
pub record Given : Type 0 where
  pub name : List ℕ
  pub optarg : List ℕ

-- "NAME=ARGUMENT"
unfoldable pub split_option : List ℕ → List ℕ → Option Given
split_option name [] = none
split_option name (c ∷ cs) =
    let more = split_option (name ++ c ∷ []) cs in
    if c == b'=' then some (record { name = name; optarg = cs }) else more

-- A long option with its argument behind a "=", which is the only form that is printed.
unfoldable pub long_option : List ℕ → Option Given
unfolding split_option
long_option (a ∷ b ∷ cs) = if a == b'-' && b == b'-' then split_option [] cs else none
long_option _ = none

-- The options in turn; others are passed over.
unfoldable pub getopt_long : List (List ℕ) → List Given
unfolding long_option
getopt_long [] = []
getopt_long (arg ∷ args) = given (long_option arg) (getopt_long args)
  where
    given : Option Given → List Given → List Given
    given none rest = rest
    given (some g) rest = g ∷ rest

-- C's `atoi`.
abbrev pub atoi : List ℕ → ℤ
atoi s = to_int32 (strtol s).value

pub record Archiver : Type 0 where
  pub status : CheckStatus
  pub files : ℤ
  pub threshold : ℤ

unfoldable pub status_of : List ℕ → CheckStatus
status_of arg =
    if eqb_codes arg (codes "OK")
    then check_ok
    else if eqb_codes arg (codes "WARNING")
    then check_warning
    else if eqb_codes arg (codes "CRITICAL")
    then check_critical
    else check_unknown

archiver_option : Given → Archiver → Archiver
unfolding status_of
archiver_option g a =
    if eqb_codes g.name (codes "files")
    then record a { files = atoi g.optarg }
    else if eqb_codes g.name (codes "threshold")
    then record a { threshold = atoi g.optarg }
    else if eqb_codes g.name (codes "status")
    then record a { status = status_of g.optarg }
    else a

unfoldable pub read_archiver : List Given → Archiver → Archiver
unfolding archiver_option
read_archiver [] a = a
read_archiver (g ∷ gs) a = read_archiver gs (archiver_option g a)

-- An empty output gives no arguments.
unfoldable pub parse_node_check_archiver : List ℕ → Archiver
unfolding parse_output_to_argv getopt_long read_archiver
parse_node_check_archiver out =
    read_archiver (getopt_long (parse_output_to_argv out))
      (record { status = check_unknown; files = pos 0; threshold = pos 0 })

unfoldable pub read_directory : List Given → Bool → Bool
read_directory [] ok = ok
read_directory (g ∷ gs) ok = read_directory gs (
    if eqb_codes g.name (codes "configured-data-directory") && not (starts_ok g.optarg)
    then false
    else ok)
  where
    starts_ok : List ℕ → Bool
    starts_ok (a ∷ b ∷ cs) = a == b'O' && b == b'K'
    starts_ok _ = false

unfoldable pub parse_data_directory_config : List ℕ → Bool
unfolding parse_output_to_argv getopt_long read_directory
parse_data_directory_config [] = false
parse_data_directory_config (c ∷ cs) =
    read_directory (getopt_long (parse_output_to_argv (c ∷ cs))) true

-- The status that a switchover takes, `none` for a command that fails.
unfoldable pub archiver_status : Option (List ℕ) → CheckStatus
unfolding parse_node_check_archiver
archiver_status none = check_unknown
archiver_status (some s) = (parse_node_check_archiver s).status

-- Does it go on?
unfoldable pub allows : Bool → CheckStatus → Bool
allows force check_ok = true
allows force check_warning = true
allows force check_critical = force
allows force check_unknown = force

unfoldable pub archiver_allows : Bool → Option (List ℕ) → Bool
unfolding archiver_status allows
archiver_allows force out = allows force (archiver_status out)
