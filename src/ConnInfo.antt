-- ===== src/ConnInfo.antt =====
-- dbutils.c: lists of connection parameters. Texts are lists of character codes; a list has the
-- entries up to the first keyword that is NULL.
pub mod Laws
use hg_repmgr.Base.{
  ℕ, zero, suc, Bool, true, false, ◌||◌, ◌&&◌, not, List, [], ◌∷◌, ◌++◌, Option, none, some,
  if◌then◌else◌, codes, eqb_codes,
}

pub record Param : Type 0 where
  pub keyword : List ℕ
  pub value : List ℕ

abbrev pub cons_to : Param → Option (List Param) → Option (List Param)
cons_to p none = none
cons_to p (some ps) = some (p ∷ ps)

-- `size` is the space that is left; `none` is the failed Assert on a full list.
unfoldable pub param_set : ℕ → List Param → List ℕ → List ℕ → Option (List Param)
param_set zero ps k v = none
param_set (suc size) [] k v = some (record { keyword = k; value = v } ∷ [])
param_set (suc size) (p ∷ ps) k v =
    let rest = param_set size ps k v in
    if eqb_codes p.keyword k then some (record p { value = v } ∷ ps) else cons_to p rest

unfoldable pub param_set_ine : ℕ → List Param → List ℕ → List ℕ → Option (List Param)
param_set_ine zero ps k v = none
param_set_ine (suc size) [] k v = some (record { keyword = k; value = v } ∷ [])
param_set_ine (suc size) (p ∷ ps) k v =
    let rest = param_set_ine size ps k v in
    if eqb_codes p.keyword k then some (p ∷ ps) else cons_to p rest

-- An empty value counts as none.
abbrev pub set_value : List ℕ → Option (List ℕ)
set_value [] = none
set_value (c ∷ cs) = some (c ∷ cs)

unfoldable pub param_get : List Param → List ℕ → Option (List ℕ)
param_get [] k = none
param_get (p ∷ ps) k =
    let rest = param_get ps k in if eqb_codes p.keyword k then set_value p.value else rest

unfoldable pub set_each : ℕ → Option (List Param) → Param → Option (List Param)
set_each size none p = none
set_each size (some ps) p = by_value (set_value p.value)
  where
    by_value : Option (List ℕ) → Option (List Param)
    by_value none = some ps
    by_value (some v) = param_set size ps p.keyword v

-- The entries with a value are set in turn.
unfoldable pub set_all : ℕ → Option (List Param) → List Param → Option (List Param)
unfolding set_each
set_all size dest [] = dest
set_all size dest (p ∷ ps) = set_all size (set_each size dest p) ps

unfoldable pub copy_conninfo_params : ℕ → List Param → List Param → Option (List Param)
unfolding set_all
copy_conninfo_params size dest source = set_all size (some dest) source

-- `defs` are the defaults of libpq, one for each parameter.
unfoldable pub initialize_conninfo_params : ℕ → Bool → List Param → Option (List Param)
unfolding set_all
initialize_conninfo_params size set_defaults defs =
    if set_defaults then set_all size (some []) defs else some []

is_local : List ℕ → Bool
is_local k =
    eqb_codes k (codes "application_name")
    || eqb_codes k (codes "passfile")
    || eqb_codes k (codes "servicefile")

abbrev pub drop_if : (List ℕ → Bool) → List Param → List Param
drop_if f [] = []
drop_if f (p ∷ ps) = let rest = drop_if f ps in if f p.keyword then rest else p ∷ rest

-- `parsed` is what PQconninfoParse gives, if it succeeds: then the result is true.
unfoldable pub parse_conninfo_string :
    ℕ → Option (List Param) → List Param → Bool → Option (Bool × List Param)
unfolding set_all is_local
parse_conninfo_string size none ps ignore = some (false, ps)
parse_conninfo_string size (some parsed) ps ignore =
    done (set_all size (some ps) (if ignore then drop_if is_local parsed else parsed))
  where
    done : Option (List Param) → Option (Bool × List Param)
    done none = none
    done (some qs) = some (true, qs)

-- The parameters of a connection, without its password.
unfoldable pub conn_to_param_list : ℕ → List Param → List Param → Option (List Param)
unfolding set_all
conn_to_param_list size params ps =
    set_all size (some ps) (drop_if (λ k. eqb_codes k (codes "password")) params)

written : Bool → Param → Option (List ℕ) → List ℕ
written first p none = []
written first p (some v) = (if first then [] else codes " ") ++ p.keyword ++ codes "=" ++ p.value

strings : Bool → List Param → List ℕ
unfolding written
strings first [] = []
strings first (p ∷ ps) = written first p (set_value p.value) ++ strings false ps

-- Values are not quoted; a blank is in front of each entry but the list's first.
unfoldable pub param_list_to_string : List Param → List ℕ
unfolding strings
param_list_to_string ps = strings true ps
