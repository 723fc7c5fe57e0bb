-- ===== src/Compute/Stores.antt =====
-- An assignment in the middle of a task: the analysis takes the value off its stack, the code that the
-- compiler emits for the CPU leaves it there.
use u_flux.Prelude.{ℕ, [], ◌∷◌, codes}
use u_flux.Comp.Ast.{Parsed, no_code, push_f, simple, ret, local_set_i, local_get_i}

-- `a! u v a b! add`, with the input bind first.
abbrev pub assigning : ℕ → ℕ → Parsed
assigning u v = record no_code {
  ins =
      local_set_i 0
      ∷ push_f u
      ∷ push_f v
      ∷ local_get_i 0
      ∷ local_set_i 1
      ∷ simple (codes "op_add")
      ∷ ret
      ∷ [];
  param_pcs = (0, 0) ∷ [];
}
