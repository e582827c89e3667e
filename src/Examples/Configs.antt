-- ===== src/Examples/Configs.antt =====
-- Values of configuration parameters.
use hg_repmgr.Base.{
  ◌==◌, if◌then◌else◌, ℕ, List, pos, negsuc, true, false, [], ◌∷◌, ◌++◌, none, some, ◌≡◌, refl,
  arith, codes, print_int, print_nat, digits_onto,
}
use hg_repmgr.Config.{
  strtol_skip, strtol, strtol_digits, digits_of, to_int32, repmgr_atoi, atoi_error,
}
use hg_repmgr.Config.Numbers.{IsRead, IsInt32, repmgr_atoi_bounds, repmgr_atoi-print_int}
use hg_repmgr.Config.Events.{
  parse_event_notifications_list, items, named, parse_event_notifications_list-items,
}
use hg_repmgr.Config.Tablespaces.{
  tablespace_list_append, mapped, escape_dir, tablespace_list_append-escape_dir,
}

repmgr_atoi-print_int_example :
    repmgr_atoi (print_int (negsuc 41)) (negsuc 99) ≡ record { result = negsuc 41; error = none }
repmgr_atoi-print_int_example =
    repmgr_atoi-print_int (negsuc 41) (negsuc 99) (ground arith, ground arith) (ground arith)

prints : print_int (negsuc 41) ≡ codes "-42"
unfolding print_int print_nat digits_onto
prints = refl

read_42 :
    strtol (codes "42")
    ≡ record { value = pos 42; out_of_range = false; converted = true; rest = [] }
unfolding strtol strtol_skip strtol_digits digits_of
read_42 = refl

no_error : (repmgr_atoi (codes "42") (pos 1)).error ≡ none
unfolding repmgr_atoi atoi_error strtol strtol_skip strtol_digits digits_of to_int32
no_error = refl

repmgr_atoi_bounds_example :
    IsInt32 (repmgr_atoi (codes "42") (pos 1)).result
    × IsRead (codes "42") (pos 1) (repmgr_atoi (codes "42") (pos 1)).result
repmgr_atoi_bounds_example =
    repmgr_atoi_bounds (codes "42") (pos 1) (rw read_42 (ground arith)) no_error

parse_event_notifications_list-items_example :
    parse_event_notifications_list [] (codes "a, b,,c")
    ≡ some ([] ++ named (items [] (codes "a, b,,c")))
parse_event_notifications_list-items_example =
    parse_event_notifications_list-items [] (codes "a, b,,c") (omega arith)

three_names : named (items [] (codes "a, b,,c")) ≡ codes "a" ∷ codes "b" ∷ codes "c" ∷ []
three_names = refl

-- A canonical path without the slash at its end.
abbrev drop_slash : List ℕ → List ℕ
drop_slash [] = []
drop_slash (c ∷ []) = if c == b'/' then [] else c ∷ []
drop_slash (c ∷ d ∷ cs) = c ∷ drop_slash (d ∷ cs)

tablespace_list_append-escape_dir_example :
    tablespace_list_append drop_slash (escape_dir (codes "/a=b/") ++ b'=' ∷ escape_dir (codes "/c"))
    ≡ mapped (drop_slash (codes "/a=b/")) (drop_slash (codes "/c"))
tablespace_list_append-escape_dir_example =
    tablespace_list_append-escape_dir drop_slash (codes "/a=b/") (codes "/c") (λ e. cc) (λ e. cc)
      refl refl (omega arith) (omega arith)

slash_dropped : drop_slash (codes "/a=b/") ≡ codes "/a=b"
slash_dropped = refl

escaped_name : escape_dir (codes "/a=b") ≡ codes "/a\\=b"
escaped_name = refl
