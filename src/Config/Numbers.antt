-- ===== src/Config/Numbers.antt =====
-- `repmgr_atoi`: which numbers a parameter takes.
use hg_repmgr.Base.{
  ◌⊎◌, ltb_ℤ, ap, inr, inl, ◌∙◌, ltb, Bool-cases, ℤ, pos, negsuc, ℕ, zero, suc, ◌+◌, ◌-◌, ◌*◌, ◌/◌,
  ◌%◌, ◌^◌, ◌<◌, ◌≤ℤ◌, Bool, true, false, List, [], ◌∷◌, none, ◌≡◌, ◌≢◌, refl, arith, digits_onto,
  print_nat, print_int,
}
use hg_repmgr.Config.{
  strtol_skip, atoi_error, is_digit, signed, starts_with_digit, strtol, strtol_digits, digits_of,
  to_int32, repmgr_atoi,
}

to_int32_small : (n : ℕ) → n < 2 ^ 31 → to_int32 (pos n) ≡ pos n
unfolding to_int32
to_int32_small n h = ground (arith, h)

to_int32_wraps : (m : ℕ) → m < 2 ^ 31 → to_int32 (negsuc (2 ^ 32 - 1 - m)) ≡ pos m
unfolding to_int32
to_int32_wraps m h = ground (arith, h)

digits_of-nil : (n : ℕ) → digits_of n [] ≡ (n, [])
unfolding digits_of
digits_of-nil n = refl

digits_of_digit :
    (a d : ℕ) (cs : List ℕ) → d < 10 → digits_of a ((d + b'0') ∷ cs) ≡ digits_of (a * 10 + d) cs
unfolding digits_of
digits_of_digit a d cs h =
    let value : a * 10 + (d + b'0' - b'0') ≡ a * 10 + d = omega arith in
    let digit : is_digit (d + b'0') ≡ true = ground (arith, h) in
    rw digit (ap (λ k. digits_of k cs) value)

-- A printed number is read back.
digits_of-digits_onto :
    (f n : ℕ) (acc : List ℕ) → n < f → digits_of 0 (digits_onto f n acc) ≡ digits_of n acc
unfolding digits_of digits_onto
digits_of-digits_onto zero n acc h = absurd (omega arith)
digits_of-digits_onto (suc f) n acc h = elim (Bool-cases (ltb n 10)) [
  | inl e ↦
      rw e (digits_of_digit 0 n acc (ground (arith, e)) ∙ ap (λ k. digits_of k acc) (omega arith))
  | inr e ↦
      (let more = digits_of-digits_onto f (n / 10) ((n % 10 + b'0') ∷ acc) (ground (arith, e, h)) in
        let last = digits_of_digit (n / 10) (n % 10) acc (omega arith) in
        let whole : n / 10 * 10 + n % 10 ≡ n = omega arith in
        rw e (more ∙ last ∙ ap (λ k. digits_of k acc) whole))
]

starts_with_digit-digits_onto :
    (f n : ℕ) (acc : List ℕ) → n < f → starts_with_digit (digits_onto f n acc) ≡ true
unfolding digits_onto
starts_with_digit-digits_onto zero n acc h = absurd (omega arith)
starts_with_digit-digits_onto (suc f) n acc h = elim (Bool-cases (ltb n 10)) [
  | inl e ↦ ground (arith, e)
  | inr e ↦
      rw e (starts_with_digit-digits_onto f (n / 10) ((n % 10 + b'0') ∷ acc) (ground (arith, e, h)))
]

digits_of-print_nat : (n : ℕ) → digits_of 0 (print_nat n) ≡ (n, [])
unfolding print_nat
digits_of-print_nat n = digits_of-digits_onto (suc n) n [] (omega arith) ∙ digits_of-nil n

starts_with_digit-print_nat : (n : ℕ) → starts_with_digit (print_nat n) ≡ true
unfolding print_nat
starts_with_digit-print_nat n = starts_with_digit-digits_onto (suc n) n [] (omega arith)

strtol_unsigned :
    (cs : List ℕ) → starts_with_digit cs ≡ true → strtol_skip cs ≡ strtol_digits false cs
unfolding strtol_skip
strtol_unsigned [] h = refl
strtol_unsigned (c ∷ cs) h = ground (arith, h)

strtol_negative : (cs : List ℕ) → strtol_skip (b'-' ∷ cs) ≡ strtol_digits true cs
unfolding strtol_skip
strtol_negative cs = refl

strtol_digits-print_nat :
    (negative : Bool) (n : ℕ)
    → strtol_digits negative (print_nat n) ≡ record {
      value = (signed negative n).0;
      out_of_range = (signed negative n).1;
      converted = true;
      rest = [];
    }
unfolding strtol_digits
strtol_digits-print_nat negative n =
    rw (starts_with_digit-print_nat n) (rw (digits_of-print_nat n) refl)

-- The bounds of a 32-bit integer.
abbrev pub IsInt32 : ℤ → Type 0
IsInt32 v = (negsuc (2 ^ 31 - 1) ≤ℤ v) × (v ≤ℤ pos (2 ^ 31 - 1))

pub to_int32-IsInt32 : (v : ℤ) → IsInt32 v → to_int32 v ≡ v
unfolding to_int32
to_int32-IsInt32 (pos n) h = ground (arith, h)
to_int32-IsInt32 (negsuc n) h = ground (arith, h)

to_int32_same :
    (v : ℤ) → negsuc (2 ^ 31 - 1) ≤ℤ v → ltb_ℤ (to_int32 v) v ≡ false → (to_int32 v ≡ v) × IsInt32 v
unfolding to_int32
to_int32_same (pos n) l h = (ground (arith, l, h), ground (arith, l, h))
to_int32_same (negsuc n) l h = (ground (arith, l, h), ground (arith, l, h))

-- A number is not below the least 32-bit integer.
abbrev pub IsNotFarBelow : List ℕ → Type 0
IsNotFarBelow cs = negsuc (2 ^ 31 - 1) ≤ℤ (strtol cs).value

-- What is read of a value with no error: nothing gives 0, and otherwise it begins with a number,
-- which is the result and not below the parameter's least value.
abbrev pub IsRead : List ℕ → ℤ → ℤ → Type 0
IsRead cs minval result =
    ((cs ≡ []) × (result ≡ pos 0))
    ⊎ ((strtol cs).converted ≡ true) × (result ≡ (strtol cs).value) × (minval ≤ℤ result)

-- A value that is read with no error, and whose number is not below the least 32-bit integer, gives
-- a 32-bit integer. An empty value gives 0, even if that is below the parameter's least value; any
-- other one begins with a number, behind white space, and gives that number, whatever follows it,
-- and the number is not below the least value.
pub repmgr_atoi_bounds :
    (cs : List ℕ) (minval : ℤ)
    → IsNotFarBelow cs
    → (repmgr_atoi cs minval).error ≡ none
    → IsInt32 (repmgr_atoi cs minval).result × IsRead cs minval (repmgr_atoi cs minval).result
unfolding repmgr_atoi atoi_error
repmgr_atoi_bounds [] minval l h = ((ground arith, ground arith), inl (refl, refl))
repmgr_atoi_bounds (c ∷ cs) minval l h =
    let (same, bounded) = to_int32_same (strtol (c ∷ cs)).value l (ground (arith, h)) in
    (rw same bounded, inr (ground (arith, h), same, ground (arith, h)))

-- A text that reads as the number m - 2^32, which is far below the least 32-bit integer for an m
-- below 2^31, is taken with no error as the number m, if that is not below the parameter's least
-- value.
pub repmgr_atoi_wraps :
    (c : ℕ) (cs : List ℕ) (minval : ℤ) (m : ℕ)
    → (strtol (c ∷ cs)).converted ≡ true
    → (strtol (c ∷ cs)).out_of_range ≡ false
    → (strtol (c ∷ cs)).value ≡ negsuc (2 ^ 32 - 1 - m)
    → m < 2 ^ 31
    → minval ≤ℤ pos m
    → repmgr_atoi (c ∷ cs) minval ≡ record { result = pos m; error = none }
unfolding repmgr_atoi atoi_error
repmgr_atoi_wraps c cs minval m k r v h l =
    let wraps : to_int32 (strtol (c ∷ cs)).value ≡ pos m = rw v (to_int32_wraps m h) in
    ground (arith, k, r, v, h, l, wraps)

repmgr_atoi_of :
    (cs : List ℕ) (v minval : ℤ)
    → cs ≢ []
    → strtol cs ≡ record { value = v; out_of_range = false; converted = true; rest = [] }
    → IsInt32 v
    → minval ≤ℤ v
    → repmgr_atoi cs minval ≡ record { result = v; error = none }
unfolding repmgr_atoi atoi_error
repmgr_atoi_of [] v minval n e h l = absurd (n refl)
repmgr_atoi_of (c ∷ cs) v minval n e h l =
    rw e (let same = to_int32-IsInt32 v h in ground (arith, same, l))

print_nat_nonempty : (n : ℕ) → print_nat n ≢ []
print_nat_nonempty n e = ground (arith, rw e at (starts_with_digit-print_nat n))

print_int_nonempty : (n : ℤ) → print_int n ≢ []
unfolding print_int
print_int_nonempty (pos n) e = print_nat_nonempty n e
print_int_nonempty (negsuc n) e = cc

strtol_skip-print_int :
    (n : ℤ)
    → IsInt32 n
    → strtol_skip (print_int n)
      ≡ record { value = n; out_of_range = false; converted = true; rest = [] }
unfolding print_int
strtol_skip-print_int (pos n) h =
    strtol_unsigned (print_nat n) (starts_with_digit-print_nat n)
    ∙ strtol_digits-print_nat false n
    ∙ ground (arith, h)
strtol_skip-print_int (negsuc n) h =
    strtol_negative (print_nat (suc n)) ∙ strtol_digits-print_nat true (suc n) ∙ ground (arith, h)

pub strtol-print_int :
    (n : ℤ)
    → IsInt32 n
    → strtol (print_int n) ≡ record { value = n; out_of_range = false; converted = true; rest = [] }
unfolding strtol
strtol-print_int n h = rw (strtol_skip-print_int n h) refl

-- Every 32-bit integer that is not below the parameter's least value is read back, with no error,
-- from its printed form.
pub repmgr_atoi-print_int :
    (n minval : ℤ)
    → IsInt32 n
    → minval ≤ℤ n
    → repmgr_atoi (print_int n) minval ≡ record { result = n; error = none }
repmgr_atoi-print_int n minval h l =
    repmgr_atoi_of (print_int n) n minval (print_int_nonempty n) (strtol-print_int n h) h l
