-- ===== src/Base/Text.antt =====
-- Texts as lists of character codes, and C's "%i".
use Prim.Native.Char.{code}
use Prim.Native.String.{String}
use Prim.Native.Nat.{ℕ, zero, suc, ◌+◌, ◌/◌, ◌%◌}
use mathlib.Core.Path.{◌≡◌, refl}
use mathlib.Core.Bool.{Bool, true, false}
use mathlib.Core.List.{List, [], ◌∷◌}
use native.Mathlib.Omega.{arith}
use hg_repmgr.Base.Tests.{ltb, ◌==◌, if◌then◌else◌}
use hg_repmgr.Base.Int.{ℤ, pos, negsuc}

-- The code points of a text. `String` has its own `[]` and `∷`.
abbrev pub codes : String → List ℕ
codes String.[] = []
codes (String.◌∷◌ c s) = code c ∷ codes s

abbrev pub eqb_codes : List ℕ → List ℕ → Bool
eqb_codes [] [] = true
eqb_codes [] (y ∷ ys) = false
eqb_codes (x ∷ xs) [] = false
eqb_codes (x ∷ xs) (y ∷ ys) = let rest = eqb_codes xs ys in if x == y then rest else false

-- The decimal digits in front of `acc`, with fuel above the number.
unfoldable pub digits_onto : ℕ → ℕ → List ℕ → List ℕ
digits_onto zero n acc = acc
digits_onto (suc f) n acc =
    let more = digits_onto f (n / 10) ((n % 10 + b'0') ∷ acc) in
    if ltb n 10 then (n + b'0') ∷ acc else more

unfoldable pub print_nat : ℕ → List ℕ
unfolding digits_onto
print_nat n = digits_onto (suc n) n []

-- "%i"
unfoldable pub print_int : ℤ → List ℕ
unfolding print_nat
print_int (pos n) = print_nat n
print_int (negsuc n) = b'-' ∷ print_nat (suc n)

pub eqb_codes→eq : (xs ys : List ℕ) → eqb_codes xs ys ≡ true → xs ≡ ys
eqb_codes→eq [] [] h = refl
eqb_codes→eq [] (y ∷ ys) h = cc
eqb_codes→eq (x ∷ xs) [] h = cc
eqb_codes→eq (x ∷ xs) (y ∷ ys) h = ground (arith, eqb_codes→eq xs ys)

pub eqb_codes_refl : (xs : List ℕ) → eqb_codes xs xs ≡ true
eqb_codes_refl [] = refl
eqb_codes_refl (x ∷ xs) = ground (arith, eqb_codes_refl xs)

print_int_test : print_int (negsuc 1023) ≡ codes "-1024"
unfolding print_int
print_int_test = refl
