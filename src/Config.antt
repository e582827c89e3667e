-- ===== src/Config.antt =====
-- configfile.c: how the values of configuration parameters are read. A text is a list of character
-- codes, none of which is 0.
pub mod Numbers
pub mod Events
pub mod Tablespaces
use hg_repmgr.Base.{
  ℤ, pos, negsuc, ℕ, zero, suc, ◌+◌, ◌-◌, ◌*◌, ◌%◌, ◌^◌, Bool, true, false, ◌&&◌, ◌||◌, not, List,
  [], ◌∷◌, ◌++◌, Option, none, some, ltb, leb, ◌==◌, ltb_ℤ, if◌then◌else◌, codes, eqb_codes, length,
}

-- C's `isspace` and `isdigit`.
abbrev pub is_space : ℕ → Bool
is_space c = c == b' ' || leb 9 c && leb c 13

abbrev pub is_digit : ℕ → Bool
is_digit c = leb b'0' c && leb c b'9'

-- What `strtol` in base 10 gives: the value, is it out of range (`errno`), was there a number, and
-- the text behind it. `long` has 64 bits.
pub record Strtol : Type 0 where
  pub value : ℤ
  pub out_of_range : Bool
  pub converted : Bool
  pub rest : List ℕ

-- The number that the digits in front of a text continue.
unfoldable pub digits_of : ℕ → List ℕ → ℕ × List ℕ
digits_of acc [] = (acc, [])
digits_of acc (c ∷ cs) =
    let more = digits_of (acc * 10 + (c - b'0')) cs in if is_digit c then more else (acc, c ∷ cs)

abbrev pub starts_with_digit : List ℕ → Bool
starts_with_digit [] = false
starts_with_digit (c ∷ cs) = is_digit c

-- The value of a sign and a number, clamped.
abbrev pub signed : Bool → ℕ → ℤ × Bool
signed false n = if ltb n (2 ^ 63) then (pos n, false) else (pos (2 ^ 63 - 1), true)
signed true zero = (pos zero, false)
signed true (suc n) = if ltb n (2 ^ 63) then (negsuc n, false) else (negsuc (2 ^ 63 - 1), true)

unfoldable pub strtol_digits : Bool → List ℕ → Strtol
unfolding digits_of
strtol_digits negative cs =
    let (n, rest) = digits_of 0 cs in
    let (v, out) = signed negative n in
    if starts_with_digit cs
    then record { value = v; out_of_range = out; converted = true; rest = rest }
    else record { value = pos 0; out_of_range = false; converted = false; rest = cs }

-- Behind white space and a sign.
unfoldable pub strtol_skip : List ℕ → Strtol
unfolding strtol_digits
strtol_skip [] = strtol_digits false []
strtol_skip (c ∷ cs) =
    let spaced = strtol_skip cs in
    if is_space c
    then spaced
    else if c == b'-'
    then strtol_digits true cs
    else if c == b'+'
    then strtol_digits false cs
    else strtol_digits false (c ∷ cs)

-- Without a number, the whole text is left.
unfoldable pub strtol : List ℕ → Strtol
unfolding strtol_skip
strtol cs = let s = strtol_skip cs in if s.converted then s else record s { rest = cs }

-- The cast to `int32`.
unfoldable pub to_int32 : ℤ → ℤ
to_int32 (pos n) = let r = n % 2 ^ 32 in if ltb r (2 ^ 31) then pos r else negsuc (2 ^ 32 - 1 - r)
to_int32 (negsuc n) =
    let r = n % 2 ^ 32 in if ltb r (2 ^ 31) then negsuc r else pos (2 ^ 32 - 1 - r)

pub data AtoiError : Type 0 where
  invalid_value too_large too_small : AtoiError

-- The value that is returned, and what is added to the list of errors.
pub record Atoi : Type 0 where
  pub result : ℤ
  pub error : Option AtoiError

unfoldable pub atoi_error : Strtol → ℤ → Option AtoiError
atoi_error s minval =
    if not s.converted || s.out_of_range
    then some invalid_value
    else if ltb_ℤ (to_int32 s.value) s.value
    then some too_large
    else if ltb_ℤ (to_int32 s.value) minval
    then some too_small
    else none

unfoldable pub repmgr_atoi : List ℕ → ℤ → Atoi
unfolding atoi_error
repmgr_atoi [] minval = record { result = pos 0; error = none }
repmgr_atoi (c ∷ cs) minval = record {
  result = to_int32 (strtol (c ∷ cs)).value;
  error = atoi_error (strtol (c ∷ cs)) minval;
}

-- `strcasecmp` in the C locale.
abbrev pub to_lower : ℕ → ℕ
to_lower c = if leb b'A' c && leb c b'Z' then c + 32 else c

unfoldable pub eq_case : List ℕ → List ℕ → Bool
eq_case [] [] = true
eq_case (x ∷ xs) (y ∷ ys) =
    let rest = eq_case xs ys in if to_lower x == to_lower y then rest else false
eq_case _ _ = false

-- The value, and whether an error is added.
unfoldable pub parse_bool : Option (List ℕ) → Bool × Bool
unfolding eq_case
parse_bool none = (true, false)
parse_bool (some s) =
    if eq_case s (codes "0")
    then (false, false)
    else if eq_case s (codes "1")
    then (true, false)
    else if eq_case s (codes "false")
    then (false, false)
    else if eq_case s (codes "true")
    then (true, false)
    else if eq_case s (codes "off")
    then (false, false)
    else if eq_case s (codes "on")
    then (true, false)
    else if eq_case s (codes "no")
    then (false, false)
    else if eq_case s (codes "yes")
    then (true, false)
    else (false, true)

pub data TimeUnitError : Type 0 where
  negative_value bad_unit : TimeUnitError

is_time_unit : List ℕ → Bool
is_time_unit s =
    eqb_codes s (codes "ms")
    || eqb_codes s (codes "s")
    || eqb_codes s (codes "min")
    || eqb_codes s (codes "h")
    || eqb_codes s (codes "d")

-- The text that is stored; where there is no list of errors, a wrong unit is stored all the same.
unfoldable pub parse_time_unit_parameter : Bool → List ℕ → List ℕ → List ℕ × Option TimeUnitError
unfolding is_time_unit
parse_time_unit_parameter collects value dest =
    let s = strtol value in
    if ltb_ℤ (to_int32 s.value) (pos 0)
    then (dest, if collects then some negative_value else none)
    else if not (eqb_codes s.rest []) && not (is_time_unit s.rest) && collects
    then (dest, some bad_unit)
    else (value, none)
