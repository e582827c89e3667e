-- ===== src/KeyValue.antt =====
-- strutil.c: the list of keys and values that configuration items are collected in.
pub mod Laws
use hg_repmgr.Base.{
  ℕ, Bool, true, false, List, [], ◌∷◌, ◌++◌, Option, none, some, if◌then◌else◌, String, str_eq,
}

-- `OutputMode`
pub data OutputMode : Type 0 where
  om_not_set om_text om_csv om_nagios om_optformat : OutputMode

-- `KeyValueListCell`; the list's `head` and `tail` are the ends of the list.
pub record Cell : Type 0 where
  pub key : String
  pub value : String
  pub output_mode : OutputMode

-- The loop that unlinks every cell of the key.
unfoldable pub remove_key : String → List Cell → List Cell
remove_key key [] = []
remove_key key (c ∷ cs) =
    let rest = remove_key key cs in if str_eq c.key key then rest else c ∷ rest

-- `_key_value_list_set`
unfoldable pub key_value_list_set_as : List Cell → Bool → String → String → List Cell
key_value_list_set_as items replace key value =
    (if replace then remove_key key items else items)
    ++ record { key = key; value = value; output_mode = om_not_set } ∷ []

unfoldable pub key_value_list_set : List Cell → String → String → List Cell
unfolding key_value_list_set_as
key_value_list_set items key value = key_value_list_set_as items false key value

unfoldable pub key_value_list_replace_or_set : List Cell → String → String → List Cell
unfolding key_value_list_set_as
key_value_list_replace_or_set items key value = key_value_list_set_as items true key value

unfoldable pub key_value_list_set_output_mode : List Cell → String → OutputMode → List Cell
key_value_list_set_output_mode [] key mode = []
key_value_list_set_output_mode (c ∷ cs) key mode =
    let rest = key_value_list_set_output_mode cs key mode in
    if str_eq key c.key then record c { output_mode = mode } ∷ rest else c ∷ rest

-- The function always returns the null pointer.
unfoldable pub key_value_list_get : List Cell → String → Option String
key_value_list_get items key = none

-- configfile.c `modify_auto_conf`: the items of the file, with the requested ones put over them.
unfoldable pub merge_items : List Cell → List Cell → List Cell
unfolding key_value_list_replace_or_set
merge_items config [] = config
merge_items config (c ∷ cs) = merge_items (key_value_list_replace_or_set config c.key c.value) cs
