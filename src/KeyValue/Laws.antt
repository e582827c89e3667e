-- ===== src/KeyValue/Laws.antt =====
-- `modify_auto_conf`'s list of items against what each key's cells hold.
use mathlib.Core.List.{append-nil}
use hg_repmgr.Base.{
  true, false, List, [], ◌∷◌, ◌++◌, ◌≡◌, refl, ap, ◌∙◌, if◌then◌else◌, String, str_eq, eq_iff,
  arith, Bool-cases, inl, inr,
}
use hg_repmgr.KeyValue.{
  Cell, remove_key, key_value_list_set_as, key_value_list_replace_or_set, merge_items,
}

-- The values of a key's cells, in the list's order.
abbrev pub values : String → List Cell → List String
values key [] = []
values key (c ∷ cs) = let rest = values key cs in if str_eq c.key key then c.value ∷ rest else rest

-- What a key's cells hold once the last of the requests for it has replaced them all.
abbrev pub requested : String → List Cell → List String → List String
requested key [] old = old
requested key (c ∷ cs) old = requested key cs (if str_eq c.key key then c.value ∷ [] else old)

values-append :
    (key : String) (xs ys : List Cell) → values key (xs ++ ys) ≡ values key xs ++ values key ys
values-append key [] ys = refl
values-append key (c ∷ cs) ys = let ih = values-append key cs ys in ground arith

values-remove_key_same : (key : String) (cs : List Cell) → values key (remove_key key cs) ≡ []
unfolding remove_key
values-remove_key_same key [] = refl
values-remove_key_same key (c ∷ cs) = let ih = values-remove_key_same key cs in ground arith

-- A key that is equal to another is the other, so it has no third key's answer.
str_eq_swap :
    (a key other : String) → str_eq key other ≡ false → str_eq a key ≡ true → str_eq a other ≡ false
str_eq_swap a key other h e = rw ((eq_iff a key).0 e) h

values-remove_key_other :
    (key other : String) (cs : List Cell)
    → str_eq key other ≡ false
    → values other (remove_key key cs) ≡ values other cs
unfolding remove_key
values-remove_key_other key other [] h = refl
values-remove_key_other key other (c ∷ cs) h =
    let ih = values-remove_key_other key other cs h in
    let p = str_eq_swap c.key key other h in ground arith

values-replace :
    (key value : String) (other : String) (cs : List Cell)
    → values other (key_value_list_replace_or_set cs key value)
      ≡ (if str_eq key other then value ∷ [] else values other cs)
unfolding key_value_list_replace_or_set key_value_list_set_as
values-replace key value other cs = elim (Bool-cases (str_eq key other)) [
  | inl e ↦
      rw
        (
          values-append other (remove_key key cs) _,
          e,
          (eq_iff key other).0 e,
          values-remove_key_same other cs,
        )
        refl
  | inr e ↦
      rw (values-append other (remove_key key cs) _, e, values-remove_key_other key other cs e)
        (append-nil (values other cs))
]

-- After the merge a key's cells hold what the last request for it asks, one cell of it, and what
-- the file had where no request names the key.
pub values-merge_items :
    (key : String) (config items : List Cell)
    → values key (merge_items config items) ≡ requested key items (values key config)
unfolding merge_items
values-merge_items key config [] = refl
values-merge_items key config (c ∷ cs) =
    values-merge_items key (key_value_list_replace_or_set config c.key c.value) cs
    ∙ ap (requested key cs) (values-replace c.key c.value key config)
