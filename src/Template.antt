-- ===== src/Template.antt =====
-- strutil.c `parse_follow_command`, repmgrd-physical.c `parse_failover_validation_command`: command
-- templates with %% and %n (and %a).
pub mod Expand
pub mod Bounded
use hg_repmgr.Base.{
  ℤ, ℕ, zero, suc, ◌-◌, List, [], ◌∷◌, ◌++◌, length, print_int, ◌==◌, if◌then◌else◌,
}

-- With the text of the node's name.
unfoldable pub parse_failover_validation_command : ℤ → List ℕ → List ℕ → List ℕ
parse_failover_validation_command node_id node_name [] = []
parse_failover_validation_command node_id node_name (c ∷ []) = c ∷ []
parse_failover_validation_command node_id node_name (c ∷ d ∷ rest) =
    let after = parse_failover_validation_command node_id node_name rest in
    let next = parse_failover_validation_command node_id node_name (d ∷ rest) in
    if c == b'%'
    then (if d == b'%'
        then d ∷ after
        else if d == b'n'
        then print_int node_id ++ after
        else if d == b'a'
        then node_name ++ after
        else c ∷ next)
    else c ∷ next

-- MAXPGPATH
abbrev pub maxpgpath : ℕ
maxpgpath = 1024

-- The first `n` characters: `snprintf` into `suc n` bytes.
abbrev pub take : ℕ → List ℕ → List ℕ
take zero xs = []
take (suc n) [] = []
take (suc n) (x ∷ xs) = x ∷ take n xs

-- One character, where the buffer has room.
abbrev pub put : ℕ → ℕ → List ℕ
put zero c = []
put (suc room) c = c ∷ []

-- `room` is `end_ptr - dst_ptr`. The result is what is written from `dst_ptr` on. A "%%" that finds
-- no room does not move `src_ptr` to its second character.
unfoldable pub fill : ℤ → ℕ → List ℕ → List ℕ
fill node_id room [] = []
fill node_id room (c ∷ []) = put room c
fill node_id room (c ∷ d ∷ rest) =
    let number = take (room - 1) (print_int node_id) in
    let after_number = fill node_id (room - length number) rest in
    let after_percent = fill node_id (room - 1) rest in
    let next = fill node_id (room - 1) (d ∷ rest) in
    if c == b'%'
    then (if d == b'%'
        then (if room == 0 then next else d ∷ after_percent)
        else if d == b'n'
        then number ++ after_number
        else put room c ++ next)
    else put room c ++ next

unfoldable pub parse_follow_command : List ℕ → ℤ → List ℕ
unfolding fill
parse_follow_command template node_id = fill node_id (maxpgpath - 1) template
