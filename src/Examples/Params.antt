-- ===== src/Examples/Params.antt =====
-- The parameters of one connection copied onto those of another.
use hg_repmgr.Base.{List, [], ◌∷◌, some, ◌≡◌, refl, codes}
use hg_repmgr.ConnInfo.{Param, param_get, copy_conninfo_params, set_all, set_each, param_set}
use hg_repmgr.ConnInfo.Laws.{or_else, param_get-copy_conninfo_params}

abbrev upstream_params : List Param
upstream_params =
    record { keyword = codes "host"; value = codes "node1" }
    ∷ record { keyword = codes "port"; value = [] }
    ∷ []

abbrev own_params : List Param
own_params =
    record { keyword = codes "port"; value = codes "5432" }
    ∷ record { keyword = codes "host"; value = codes "node2" }
    ∷ []

abbrev copied_params : List Param
copied_params =
    record { keyword = codes "port"; value = codes "5432" }
    ∷ record { keyword = codes "host"; value = codes "node1" }
    ∷ []

copies : copy_conninfo_params 4 own_params upstream_params ≡ some copied_params
unfolding copy_conninfo_params set_all set_each param_set
copies = refl

param_get-copy_conninfo_params_example :
    param_get copied_params (codes "port")
    ≡ or_else (param_get upstream_params (codes "port")) (param_get own_params (codes "port"))
param_get-copy_conninfo_params_example =
    param_get-copy_conninfo_params 4 own_params upstream_params copied_params (codes "port")
      ((refl, tt), (tt, tt)) copies
