-- ===== src/Template/Bounded.antt =====
-- `parse_follow_command` writes into a buffer of MAXPGPATH bytes.
use mathlib.Core.List.{append-nil}
use hg_repmgr.Base.{
  ℤ, ℕ, zero, suc, ◌+◌, ◌-◌, ◌<◌, ◌≤◌, List, [], ◌∷◌, ◌++◌, ◌≡◌, ◌≢◌, refl, ap, arith, print_int,
  length, length-append, All, sym,
}
use hg_repmgr.Template.{fill, take, put, parse_follow_command, maxpgpath}
use hg_repmgr.Template.Expand.{Token, plain, percent, number, name, render, expand}

-- `parse_follow_command` does not know %a.
abbrev pub IsFollow : Token → Type 0
IsFollow (plain c) = c ≢ b'%'
IsFollow name = ⊥
IsFollow _ = Unit

take_all : (n : ℕ) (xs : List ℕ) → length xs ≤ n → take n xs ≡ xs
take_all zero [] h = refl
take_all zero (x ∷ xs) h = absurd (omega arith)
take_all (suc n) [] h = refl
take_all (suc n) (x ∷ xs) h = ap (λ r. x ∷ r) (take_all n xs (omega arith))

length-take_le : (n : ℕ) (xs : List ℕ) → length (take n xs) ≤ n
length-take_le zero xs = omega arith
length-take_le (suc n) [] = omega arith
length-take_le (suc n) (x ∷ xs) = omega (arith, length-take_le n xs)

length-put_le :
    (room c : ℕ) (xs : List ℕ) → length (put room c ++ xs) ≤ length xs + (room - (room - 1))
length-put_le zero c xs = omega arith
length-put_le (suc room) c xs = omega arith

length-put_le_room : (room c : ℕ) → length (put room c) ≤ room
length-put_le_room zero c = omega arith
length-put_le_room (suc room) c = omega arith

put_room : (room c : ℕ) (xs : List ℕ) → 0 < room → put room c ++ xs ≡ c ∷ xs
put_room zero c xs h = absurd (omega arith)
put_room (suc room) c xs h = refl

fill_plain :
    (id : ℤ) (room c : ℕ) (cs : List ℕ)
    → c ≢ b'%'
    → fill id room (c ∷ cs) ≡ put room c ++ fill id (room - 1) cs
unfolding fill
fill_plain id room c [] h = sym (append-nil (put room c))
fill_plain id room c (d ∷ cs) h = ground arith

fill_percent :
    (id : ℤ) (room : ℕ) (cs : List ℕ)
    → 0 < room
    → fill id room (b'%' ∷ b'%' ∷ cs) ≡ b'%' ∷ fill id (room - 1) cs
unfolding fill
fill_percent id room cs h = ground arith

fill_number :
    (id : ℤ) (room : ℕ) (cs : List ℕ)
    → length (print_int id) ≤ room - 1
    → fill id room (b'%' ∷ b'n' ∷ cs) ≡ print_int id ++ fill id (room - length (print_int id)) cs
unfolding fill
fill_number id room cs h = rw (take_all (room - 1) (print_int id) h)

-- Whatever the template and the buffer's size, no more characters are written than there is room
-- for.
length-fill : (id : ℤ) (room : ℕ) (cs : List ℕ) → length (fill id room cs) ≤ room
unfolding fill
length-fill id room [] = omega arith
length-fill id room (c ∷ []) = length-put_le_room room c
length-fill id room (c ∷ d ∷ cs) = ground (
  arith,
  length-fill id (room - 1) (d ∷ cs),
  length-fill id (room - 1) cs,
  length-put_le room c (fill id (room - 1) (d ∷ cs)),
  length-take_le (room - 1) (print_int id),
  length-append (take (room - 1) (print_int id))
      (fill id (room - length (take (room - 1) (print_int id))) cs),
  length-fill id (room - length (take (room - 1) (print_int id))) cs,
)

fill-render :
    (id : ℤ) (node_name : List ℕ) (room : ℕ) (ts : List Token)
    → All IsFollow ts
    → length (expand id node_name ts) < room
    → fill id room (render ts) ≡ expand id node_name ts
fill-render id node_name room [] h k = unfold fill in refl
fill-render id node_name room (plain c ∷ ts) h k =
    rw
      (
        fill_plain id room c (render ts) h.0,
        put_room room c (fill id (room - 1) (render ts)) (omega arith),
      )
      (ap (λ r. c ∷ r) (fill-render id node_name (room - 1) ts h.1 (omega arith)))
fill-render id node_name room (percent ∷ ts) h k =
    rw (fill_percent id room (render ts) (omega arith))
      (ap (λ r. b'%' ∷ r) (fill-render id node_name (room - 1) ts h.1 (omega arith)))
fill-render id node_name room (number ∷ ts) h k =
    let room_for = length-append (print_int id) (expand id node_name ts) in
    rw (fill_number id room (render ts) (omega (arith, room_for))) (
      ap (λ r. print_int id ++ r)
        (fill-render id node_name (room - length (print_int id)) ts h.1 (omega (arith, room_for))))
fill-render id node_name room (name ∷ ts) h k = absurd h.0

-- The parsed follow command never overruns its buffer of MAXPGPATH bytes: whatever the template, it
-- leaves room for the byte that ends it.
pub length-parse_follow_command :
    (template : List ℕ) (id : ℤ) → length (parse_follow_command template id) < maxpgpath
unfolding parse_follow_command
length-parse_follow_command template id = omega (arith, length-fill id (maxpgpath - 1) template)

-- Where the expansion of a template is shorter than MAXPGPATH - 1, the parsed follow command is the
-- whole expansion: %% stands for %, %n for the node ID, and every other character for itself.
pub parse_follow_command-render :
    (ts : List Token) (id : ℤ)
    → All IsFollow ts
    → length (expand id [] ts) < maxpgpath - 1
    → parse_follow_command (render ts) id ≡ expand id [] ts
unfolding parse_follow_command
parse_follow_command-render ts id h k = fill-render id [] (maxpgpath - 1) ts h k
