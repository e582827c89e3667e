-- ===== src/ConnInfo/Laws.antt =====
-- Lists of connection parameters as maps from keywords to values.
use hg_repmgr.Base.{
  All, ℕ, zero, suc, ◌<◌, true, false, List, [], ◌∷◌, Option, none, some, ◌≡◌, inl, inr, refl, sym,
  ◌∙◌, arith, if◌then◌else◌, eqb_codes, eqb_codes→eq, eqb_codes_refl, length, Bool-cases,
  Option-cases,
}
use hg_repmgr.ConnInfo.{
  Param, param_set, set_value, param_get, set_each, set_all, copy_conninfo_params,
}

eqb_codes_same :
    (x y z : List ℕ) → eqb_codes x z ≡ true → eqb_codes y z ≡ true → eqb_codes x y ≡ true
eqb_codes_same x y z h k = rw (eqb_codes→eq x z h) (rw (eqb_codes→eq y z k) (eqb_codes_refl z))

some_injective : {A : Type 0} (x y : A) → some x ≡ some y → x ≡ y
some_injective x y h = cc

-- Setting a keyword changes what is read for it, and for no other keyword.
pub param_get-param_set :
    (size : ℕ) (ps qs : List Param) (k v j : List ℕ)
    → param_set size ps k v ≡ some qs
    → param_get qs j ≡ (if eqb_codes k j then set_value v else param_get ps j)
unfolding param_get param_set
param_get-param_set zero ps qs k v j h = cc
param_get-param_set (suc size) [] qs k v j h =
    rw (sym (some_injective (record { keyword = k; value = v } ∷ []) qs h)) refl
param_get-param_set (suc size) (p ∷ ps) qs k v j h = elim (Bool-cases (eqb_codes p.keyword k)) [
  | inl e ↦
      (let found = some_injective (record p { value = v } ∷ ps) qs (rw e at h) in
        let same = eqb_codes→eq p.keyword k e in
        rw (sym found)
          (rw same (elim (Bool-cases (eqb_codes k j)) [ inl x ↦ rw x refl | inr x ↦ rw x refl ])))
  | inr e ↦ elim (Option-cases (param_set size ps k v)) [
    | inl n ↦ absurd (ground (arith, h, e, n))
    | inr (rs, r) ↦
        (let found = some_injective (p ∷ rs) qs (ground (arith, h, e, r)) in
          let ih = param_get-param_set size ps rs k v j r in
          let apart = eqb_codes_same p.keyword k j in rw (sym found) (ground (arith, ih, apart, e)))
  ]
]

-- A list with room takes a further keyword.
pub param_set_room :
    (size : ℕ) (ps : List Param) (k v : List ℕ)
    → length ps < size
    → (qs : List Param) × (param_set size ps k v ≡ some qs)
unfolding param_set
param_set_room zero ps k v h = absurd (omega (arith, h))
param_set_room (suc size) [] k v h = (record { keyword = k; value = v } ∷ [], refl)
param_set_room (suc size) (p ∷ ps) k v h =
    let (rs, r) = param_set_room size ps k v (omega (arith, h)) in
    elim (Bool-cases (eqb_codes p.keyword k)) [
      | inl e ↦ (record p { value = v } ∷ ps, rw e refl)
      | inr e ↦ (p ∷ rs, rw e (rw r refl))
    ]

-- Each keyword once.
abbrev pub Distinct : List Param → Type 0
Distinct [] = Unit
Distinct (p ∷ ps) = All (λ q. eqb_codes q.keyword p.keyword ≡ false) ps × Distinct ps

-- The first that is there.
abbrev pub or_else : Option (List ℕ) → Option (List ℕ) → Option (List ℕ)
or_else none d = d
or_else (some v) d = some v

fresh :
    (ps : List Param) (k j : List ℕ)
    → All (λ q. eqb_codes q.keyword k ≡ false) ps
    → eqb_codes k j ≡ true
    → param_get ps j ≡ none
unfolding param_get
fresh [] k j h e = refl
fresh (p ∷ ps) k j h e =
    let apart = eqb_codes_same p.keyword k j in
    let ih = fresh ps k j h.1 e in ground (arith, h.0, apart, e, ih)

set_all-none : (size : ℕ) (ps : List Param) → set_all size none ps ≡ none
unfolding set_all set_each
set_all-none size [] = refl
set_all-none size (p ∷ ps) = set_all-none size ps

set_value_twice : (s v : List ℕ) → set_value s ≡ some v → set_value v ≡ some v
set_value_twice [] v h = cc
set_value_twice (c ∷ cs) v h = rw (sym (some_injective (c ∷ cs) v h)) refl

-- Copying a list whose keywords are distinct onto another one: a keyword then has the value that it
-- has in the first list, or else the one that it had in the other.
pub param_get-copy_conninfo_params :
    (size : ℕ) (dest source qs : List Param) (j : List ℕ)
    → Distinct source
    → copy_conninfo_params size dest source ≡ some qs
    → param_get qs j ≡ or_else (param_get source j) (param_get dest j)
unfolding copy_conninfo_params set_all set_each param_get
param_get-copy_conninfo_params size dest [] qs j g h = rw (some_injective dest qs h) refl
param_get-copy_conninfo_params size dest (p ∷ ps) qs j g h =
    let gone = fresh ps p.keyword j g.0 in
    elim (Option-cases (set_value p.value)) [
      | inl n ↦
          (let ih = param_get-copy_conninfo_params size dest ps qs j g.1 (rw n at h) in
            ground (arith, ih, gone, n))
      | inr (v, e) ↦ elim (Option-cases (param_set size dest p.keyword v)) [
        | inl n ↦
            (let none_left : none ≡ some qs = sym (set_all-none size ps) ∙ rw n at (rw e at h) in
              cc)
        | inr (ds, d) ↦
            (let ih = param_get-copy_conninfo_params size ds ps qs j g.1 (rw d at (rw e at h)) in
              let got = param_get-param_set size dest ds p.keyword v j d in
              let v_set = set_value_twice p.value v e in ground (arith, ih, got, gone, e, v_set))
      ]
    ]
