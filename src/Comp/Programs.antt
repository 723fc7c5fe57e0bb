-- ===== src/Comp/Programs.antt =====
-- Programs as the compiler holds them, and the theorems about the passes over them at concrete inputs.
use u_flux.Prelude.{◌≡◌, refl, [], ◌∷◌, codes, pos, ok, err, drop}
use u_flux.Comp.Ast.{Parsed, no_code, push_i, simple, set_v, local_set, call, ret, local}
use u_flux.Comp.Arity.{check_label_arity}
use u_flux.Comp.Heights.{run_block, short}

-- `1 2 add f`, where `f` takes `x`.
abbrev one_call : Parsed
one_call = record no_code {
  ins =
      push_i (pos 1)
      ∷ push_i (pos 2)
      ∷ simple (codes "op_add")
      ∷ call (codes "f")
      ∷ ret
      ∷ local_set (codes "x")
      ∷ ret
      ∷ [];
  labels = (codes "f", 5) ∷ [];
  label_params = (5, local (codes "x") ∷ []) ∷ [];
  param_pcs = (5, 0) ∷ [];
}

-- `1 n! f`: the store to the shared `n` takes the value, and the check still counts it.
abbrev stored_call : Parsed
stored_call = record no_code {
  ins =
      push_i (pos 1)
      ∷ set_v (codes "n")
      ∷ call (codes "f")
      ∷ ret
      ∷ local_set (codes "x")
      ∷ ret
      ∷ [];
  labels = (codes "f", 4) ∷ [];
  label_params = (4, local (codes "x") ∷ []) ∷ [];
  param_pcs = (4, 0) ∷ [];
}

stored_call_checks : check_label_arity stored_call ≡ ok tt
unfolding check_label_arity
stored_call_checks = refl

stored_call_runs :
    run_block stored_call 0 stored_call.ins (record { cells = 0; marks = [] }) ≡ err short
unfolding run_block
stored_call_runs = refl

-- `g`, behind `f`, takes nothing and calls `f`, which takes `x`.
abbrev later_label : Parsed
later_label = record no_code {
  ins = ret ∷ local_set (codes "x") ∷ ret ∷ call (codes "f") ∷ ret ∷ [];
  labels = (codes "f", 1) ∷ (codes "g", 3) ∷ [];
  label_params = (1, local (codes "x") ∷ []) ∷ [];
  param_pcs = (1, 0) ∷ [];
}

later_label_checks : check_label_arity later_label ≡ ok tt
unfolding check_label_arity
later_label_checks = refl

later_label_runs :
    run_block later_label 3 (drop 3 later_label.ins) (record { cells = 0; marks = [] }) ≡ err short
unfolding run_block
later_label_runs = refl
