-- ===== src/Sandbox/Discovery.antt =====
-- The `cap` instruction of a compiled program (`op_cap` of the C text in comp/src/prelude.rs) against
-- the compiler's own answer (`Caps::cap_i64` of comp/src/sandbox.rs).
use u_flux.Prelude.{
  ℕ, suc, ◌≡◌, refl, sym, ap, ◌∙◌, inl, inr, Bool-cases, true, false, List, [], ◌∷◌, ◌++◌, map,
  some, Text, codes, text_eq, text_eq_iff, length, get_elem?, contains, append_assoc,
}
use u_flux.Sandbox.Pattern.{cap_names}
use u_flux.Sandbox.Caps.{Caps, cap_i64}
use u_flux.Sandbox.Bake.{baked_globals}
use u_flux.Sandbox.BakeLaws.{baked_globals_lem}
use u_flux.Sandbox.Gate.{uf_cap_names, cap_index, index_from, value_at, op_cap}

get_elem-length : (xs ys : List ℕ) (y : ℕ) → get_elem? (xs ++ y ∷ ys) (length xs) ≡ some y
get_elem-length [] ys y = refl
get_elem-length (x ∷ xs) ys y = get_elem-length xs ys y

length_snoc : (xs : List ℕ) (y : ℕ) → suc (length xs) ≡ length (xs ++ y ∷ [])
length_snoc [] y = refl
length_snoc (x ∷ xs) y = ap suc (length_snoc xs y)

-- The value at a name's index, in a table that starts with `xs`.
value_at-index_from :
    (f : Text → ℕ) (name : Text) (xs : List ℕ) (ns : List Text)
    → contains ns name ≡ true
    → value_at (xs ++ map f ns) (index_from (length xs) ns name) ≡ some (f name)
unfolding contains
value_at-index_from f name xs [] h = cc
value_at-index_from f name xs (n ∷ ns) h = elim (Bool-cases (text_eq name n)) [
  | inl e ↦
      rw e (
        get_elem-length xs (map f ns) (f n) ∙ ap (λ t. some (f t)) (sym ((text_eq_iff name n).0 e)))
  | inr e ↦ rw e (
      rw (sym (append_assoc xs (f n ∷ []) (map f ns)), length_snoc xs (f n))
        (value_at-index_from f name (xs ++ f n ∷ []) ns (in_rest e)))
]
  where
    in_rest : text_eq name n ≡ false → contains ns name ≡ true
    in_rest e = elim (Bool-cases (text_eq n name)) [
      | inl d ↦ cc ((text_eq_iff name n).1 (sym ((text_eq_iff n name).0 d)))
      | inr d ↦ rw d at h
    ]

cap_i64-compute :
    (c : Caps) (name : Text)
    → text_eq name (codes "fs.workspace") ≡ false
    → text_eq name (codes "compute") ≡ true
    → some 1 ≡ some (cap_i64 c name)
unfolding cap_i64
cap_i64-compute c name w h = rw (w, h) refl

is_known :
    (name : Text)
    → contains (codes "compute" ∷ cap_names) name ≡ true
    → text_eq name (codes "compute") ≡ false
    → contains cap_names name ≡ true
unfolding contains
is_known name h e = elim (Bool-cases (text_eq (codes "compute") name)) [
  | inl d ↦
      cc ((text_eq_iff name (codes "compute")).1 (sym ((text_eq_iff (codes "compute") name).0 d)))
  | inr d ↦ rw d at h
]

not_workspace :
    (name : Text)
    → contains (codes "compute" ∷ cap_names) name ≡ true
    → text_eq name (codes "fs.workspace") ≡ true
    → false ≡ true
unfolding contains text_eq
not_workspace name h e = rw ((text_eq_iff name (codes "fs.workspace")).0 e) at h

-- The table of the run time and the compiler's hold the same names in the same order.
tables_agree : uf_cap_names ≡ cap_names
tables_agree = refl

cap_index-cap_names : (name : Text) → cap_index name ≡ index_from 0 cap_names name
unfolding cap_index
cap_index-cap_names name = ap (λ ns. index_from 0 ns name) tables_agree

-- The `cap` instruction of a compiled program answers for every capability, and for `compute`, with
-- the number that the compiler gives it.
pub op_cap-baked_globals :
    (c : Caps) (device name : Text)
    → contains (codes "compute" ∷ cap_names) name ≡ true
    → op_cap (baked_globals c device) name ≡ some (cap_i64 c name)
unfolding op_cap
op_cap-baked_globals c device name h =
    rw baked_globals_lem (elim (Bool-cases (text_eq name (codes "fs.workspace"))) [
      | inl e ↦ cc (not_workspace name h e)
      | inr e ↦ elim (Bool-cases (text_eq name (codes "compute"))) [
        | inl d ↦ rw (e, d) (cap_i64-compute c name e d)
        | inr d ↦
            rw (e, d, cap_index-cap_names)
              (value_at-index_from (cap_i64 c) name [] cap_names (is_known name h d))
      ]
    ])
