-- ===== src/Template/Expand.antt =====
-- Command templates as sequences of escapes and plain characters, and what they stand for.
use hg_repmgr.Base.{ℤ, ℕ, List, [], ◌∷◌, ◌++◌, ◌≡◌, ◌≢◌, refl, ap, arith, print_int, All}
use hg_repmgr.Template.{parse_failover_validation_command}

pub data Token : Type 0 where
  plain : ℕ → Token
  percent number name : Token

-- The text of the template.
abbrev pub render : List Token → List ℕ
render [] = []
render (plain c ∷ ts) = c ∷ render ts
render (percent ∷ ts) = b'%' ∷ b'%' ∷ render ts
render (number ∷ ts) = b'%' ∷ b'n' ∷ render ts
render (name ∷ ts) = b'%' ∷ b'a' ∷ render ts

-- The text that it stands for.
abbrev pub expand : ℤ → List ℕ → List Token → List ℕ
expand id node_name [] = []
expand id node_name (plain c ∷ ts) = c ∷ expand id node_name ts
expand id node_name (percent ∷ ts) = b'%' ∷ expand id node_name ts
expand id node_name (number ∷ ts) = print_int id ++ expand id node_name ts
expand id node_name (name ∷ ts) = node_name ++ expand id node_name ts

-- A plain character is none that starts an escape.
abbrev pub IsPlain : Token → Type 0
IsPlain (plain c) = c ≢ b'%'
IsPlain _ = Unit

parse_plain :
    (id : ℤ) (node_name : List ℕ) (c : ℕ) (cs : List ℕ)
    → c ≢ b'%'
    → parse_failover_validation_command id node_name (c ∷ cs)
      ≡ c ∷ parse_failover_validation_command id node_name cs
unfolding parse_failover_validation_command
parse_plain id node_name c [] h = refl
parse_plain id node_name c (d ∷ cs) h = ground arith

-- The validation command is expanded as its template says: %% to %, %n to the node ID, %a to the
-- node name, and every other character to itself.
pub parse_failover_validation_command-render :
    (id : ℤ) (node_name : List ℕ) (ts : List Token)
    → All IsPlain ts
    → parse_failover_validation_command id node_name (render ts) ≡ expand id node_name ts
unfolding parse_failover_validation_command
parse_failover_validation_command-render id node_name [] h = refl
parse_failover_validation_command-render id node_name (plain c ∷ ts) h =
    rw (parse_plain id node_name c (render ts) h.0)
      (ap (λ r. c ∷ r) (parse_failover_validation_command-render id node_name ts h.1))
parse_failover_validation_command-render id node_name (percent ∷ ts) h =
    ap (λ r. b'%' ∷ r) (parse_failover_validation_command-render id node_name ts h.1)
parse_failover_validation_command-render id node_name (number ∷ ts) h =
    ap (λ r. print_int id ++ r) (parse_failover_validation_command-render id node_name ts h.1)
parse_failover_validation_command-render id node_name (name ∷ ts) h =
    ap (λ r. node_name ++ r) (parse_failover_validation_command-render id node_name ts h.1)
