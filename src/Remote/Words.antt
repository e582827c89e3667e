-- ===== src/Remote/Words.antt =====
-- `parse_output_to_argv`: a line of words is cut into the words.
use hg_repmgr.Base.{
  ℤ, pos, negsuc, ℕ, zero, suc, ◌+◌, ◌/◌, ◌%◌, false, List, [], ◌∷◌, ◌++◌, ◌≡◌, ◌≢◌, refl, ap, ◌∙◌,
  arith, All, ltb, ◌==◌, print_int, print_nat, digits_onto, Bool-cases, inl, inr,
}
use mathlib.Core.List.{append-nil, append_assoc}
use hg_repmgr.Config.{is_space}
use hg_repmgr.Remote.{strtok_from, trim_right, trim_left, trim, trim_all, parse_output_to_argv}

abbrev pub Printable : List ℕ → Type 0
Printable = All (λ c. is_space c ≡ false)

abbrev pub IsWord : List ℕ → Type 0
IsWord w = (w ≢ []) × Printable w

-- Words with a blank between them and a new line at the end.
abbrev pub line : List (List ℕ) → List ℕ
line [] = []
line (w ∷ []) = w ++ 10 ∷ []
line (w ∷ v ∷ ws) = w ++ b' ' ∷ line (v ∷ ws)

strtok_word :
    (x : ℕ) (item w rest : List ℕ)
    → Printable w
    → strtok_from (x ∷ item) (w ++ b' ' ∷ rest) ≡ (x ∷ item ++ w) ∷ strtok_from [] rest
unfolding strtok_from
strtok_word x item [] rest h = rw (append-nil item) refl
strtok_word x item (c ∷ w) rest h =
    let other : (c == b' ') ≡ false = ground (arith, h.0) in
    rw other (
      strtok_word x (item ++ c ∷ []) w rest h.1
      ∙ ap (λ i. (x ∷ i) ∷ strtok_from [] rest) (append_assoc item (c ∷ []) w))

strtok_last :
    (x : ℕ) (item w : List ℕ)
    → Printable w
    → strtok_from (x ∷ item) (w ++ 10 ∷ []) ≡ (x ∷ item ++ (w ++ 10 ∷ [])) ∷ []
unfolding strtok_from
strtok_last x item [] h = refl
strtok_last x item (c ∷ w) h =
    let other : (c == b' ') ≡ false = ground (arith, h.0) in
    rw other (
      strtok_last x (item ++ c ∷ []) w h.1
      ∙ ap (λ i. (x ∷ i) ∷ []) (append_assoc item (c ∷ []) (w ++ 10 ∷ [])))

trim_right-Printable : (w : List ℕ) → Printable w → trim_right w ≡ w
unfolding trim_right
trim_right-Printable [] h = refl
trim_right-Printable (c ∷ []) h = rw (h.0) refl
trim_right-Printable (c ∷ d ∷ w) h = rw (trim_right-Printable (d ∷ w) h.1) refl

trim_right_line : (w : List ℕ) → Printable w → trim_right (w ++ 10 ∷ []) ≡ w
unfolding trim_right
trim_right_line [] h = refl
trim_right_line (c ∷ []) h = rw (h.0) refl
trim_right_line (c ∷ d ∷ w) h = rw (trim_right_line (d ∷ w) h.1) refl

trim_left-Printable : (w : List ℕ) → Printable w → trim_left w ≡ w
unfolding trim_left
trim_left-Printable [] h = refl
trim_left-Printable (c ∷ w) h = rw (h.0) refl

trim-Printable : (w : List ℕ) → Printable w → trim w ≡ w
unfolding trim
trim-Printable w h = rw (trim_right-Printable w h) (trim_left-Printable w h)

trim_line : (w : List ℕ) → Printable w → trim (w ++ 10 ∷ []) ≡ w
unfolding trim
trim_line w h = rw (trim_right_line w h) (trim_left-Printable w h)

strtok_start :
    (c : ℕ) (cs : List ℕ) → is_space c ≡ false → strtok_from [] (c ∷ cs) ≡ strtok_from (c ∷ []) cs
unfolding strtok_from
strtok_start c cs h = let other : (c == b' ') ≡ false = ground (arith, h) in rw other refl

-- A line of words is cut into its words.
pub parse_output_to_argv-line :
    (ws : List (List ℕ)) → All IsWord ws → parse_output_to_argv (line ws) ≡ ws
unfolding parse_output_to_argv trim_all
parse_output_to_argv-line [] h = refl
parse_output_to_argv-line ([] ∷ ws) h = absurd (h.0.0 refl)
parse_output_to_argv-line ((c ∷ w) ∷ []) h =
    ap trim_all (strtok_start c (w ++ 10 ∷ []) h.0.1.0 ∙ strtok_last c [] w h.0.1.1)
    ∙ ap (λ x. x ∷ []) (trim_line (c ∷ w) h.0.1)
parse_output_to_argv-line ((c ∷ w) ∷ v ∷ ws) h =
    ap trim_all (
      strtok_start c (w ++ b' ' ∷ line (v ∷ ws)) h.0.1.0
      ∙ strtok_word c [] w (line (v ∷ ws)) h.0.1.1)
    ∙ ap (λ x. x ∷ trim_all (strtok_from [] (line (v ∷ ws)))) (trim-Printable (c ∷ w) h.0.1)
    ∙ ap (λ r. (c ∷ w) ∷ r) (parse_output_to_argv-line (v ∷ ws) h.1)

pub Printable-append : (xs ys : List ℕ) → Printable xs → Printable ys → Printable (xs ++ ys)
Printable-append [] ys h k = k
Printable-append (x ∷ xs) ys h k = (h.0, Printable-append xs ys h.1 k)

digits_onto-Printable : (f n : ℕ) (acc : List ℕ) → Printable acc → Printable (digits_onto f n acc)
unfolding digits_onto
digits_onto-Printable zero n acc h = h
digits_onto-Printable (suc f) n acc h = elim (Bool-cases (ltb n 10)) [
  | inl e ↦ rw e (ground (arith, e), h)
  | inr e ↦ rw e (digits_onto-Printable f (n / 10) ((n % 10 + b'0') ∷ acc) (ground arith, h))
]

pub print_int-Printable : (n : ℤ) → Printable (print_int n)
unfolding print_int print_nat
print_int-Printable (pos n) = digits_onto-Printable (suc n) n [] tt
print_int-Printable (negsuc n) = (refl, digits_onto-Printable (suc (suc n)) (suc n) [] tt)
