-- ===== src/Examples/Texts.antt =====
-- Texts that are quoted, expanded and parsed, and lists of items.
use hg_repmgr.Base.{
  pos, List, [], ◌∷◌, ◌++◌, some, ◌≡◌, ◌<◌, refl, arith, length, codes, String, print_int,
  print_nat, digits_onto, ◌-◌,
}
use hg_repmgr.Template.{maxpgpath}
use hg_repmgr.Template.Expand.{Token, plain, percent, number, expand}
use hg_repmgr.Quote.{append_conn_str_val, append_shell_string, escape_shell, shell_char}
use hg_repmgr.Quote.ConnStr.{read_value, read_value-append_conn_str_val}
use hg_repmgr.Quote.Shell.{read_argument, mark_ampersands, read_argument-append_shell_string}
use hg_repmgr.KeyValue.{Cell, om_not_set}

abbrev tokens : List Token
tokens = plain 97 ∷ number ∷ percent ∷ []

short : length (expand (pos 12) [] tokens) < maxpgpath - 1
unfolding print_int print_nat digits_onto
short = omega arith

read_value-append_conn_str_val_example :
    read_value (append_conn_str_val (codes "it's") ++ codes " dbname=x")
    ≡ some (codes "it's", codes " dbname=x")
read_value-append_conn_str_val_example =
    read_value-append_conn_str_val (codes "it's") (codes " dbname=x") refl

quoted : append_shell_string (codes "a&b") ≡ some (codes "'a\\&b'")
unfolding append_shell_string escape_shell shell_char
quoted = refl

read_argument-append_shell_string_example :
    read_argument (codes "'a\\&b'") ≡ some (mark_ampersands (codes "a&b"))
read_argument-append_shell_string_example = read_argument-append_shell_string (codes "a&b") quoted

abbrev item : String → String → Cell
item key value = record { key = key; value = value; output_mode = om_not_set }
