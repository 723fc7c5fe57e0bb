-- ===== src/Compute/Examples.antt =====
-- Expressions and tasks, and each theorem at a concrete input.
use u_flux.Prelude.{
  ℕ, ◌+◌, ◌*◌, ◌-◌, ◌/◌, ◌≡◌, ◌↔◌, ◌⊎◌, List, ok, err, ◌==◌, refl, arith, Bool, true, false, [],
  ◌∷◌, none, some, codes, All, drop, text_eq, ℤ, pos, ltb, leb, if◌then◌else◌,
}
use u_flux.Compute.Expr.{
  TExpr, input, const, add, mul, sqrt, cat, while_, init, no_inits, f_state, expr, no_exprs, state,
  cmp, on_one, expr_width, expr_input_free, remap_input, fuse_binop,
}
use u_flux.Compute.Equal.{same_expr, same_expr_iff}
use u_flux.Compute.Inputs.{inputs, expr_input_free_iff}
use u_flux.Compute.Renumbering.{renumber, inputs-remap_input}
use u_flux.Comp.Ast.{Parsed, no_code, bind_pcs, push_f, simple, ret, local_set, local_get}
use u_flux.Compute.Tasks.{analyze_one_task}
use u_flux.Compute.Domains.{reads, Inside, InRange, fuse_binop-InRange}
use u_flux.Compute.Machine.{Numbers, Cell, real, by_zero, real_code, task_cells, eval}
use u_flux.Compute.TaskRuns.{task_cells-analyze_one_task}

-- A loop whose state starts from input 2.
abbrev looped : TExpr
looped =
    while_ (init f_state (input 2) no_inits) (cmp (codes "lt") (state 0) (const 0))
      (expr (add (state 0) (input 0)) no_exprs) (state 0)

same_expr_iff_example : (same_expr looped (sqrt (input 2)) ≡ true) ↔ (looped ≡ sqrt (input 2))
same_expr_iff_example = same_expr_iff looped (sqrt (input 2))

expr_input_free_iff_example : (expr_input_free looped ≡ true) ↔ (inputs looped ≡ [])
expr_input_free_iff_example = expr_input_free_iff looped

inputs-remap_input_example :
    on_one inputs (remap_input looped (some 0 ∷ none ∷ some 1 ∷ []))
    ≡ renumber (some 0 ∷ none ∷ some 1 ∷ []) (inputs looped)
inputs-remap_input_example = inputs-remap_input looped (some 0 ∷ none ∷ some 1 ∷ [])

-- A wide side does not go with one that reads the domain.
wide_declined : fuse_binop (codes "op_add") (cat (input 0) (input 1)) (input 0) ≡ none
unfolding fuse_binop
wide_declined = refl

wide_with_constant :
    fuse_binop (codes "op_mul") (cat (input 0) (input 1)) (const 7)
    ≡ some (mul (cat (input 0) (input 1)) (const 7))
unfolding fuse_binop
wide_with_constant = refl

-- Of the inputs a and b, bound from the top: a times b, plus 3.
abbrev product_task : Parsed
product_task = record no_code {
  ins =
      ret
      ∷ local_set (codes "b")
      ∷ local_set (codes "a")
      ∷ local_get (codes "a")
      ∷ local_get (codes "b")
      ∷ simple (codes "op_mul")
      ∷ push_f 3
      ∷ simple (codes "op_add")
      ∷ ret
      ∷ [];
  param_pcs = (1, 0) ∷ (2, 0) ∷ [];
}

abbrev as_is : ℤ → ℕ
as_is (pos n) = n
as_is _ = 0

product_kernel :
    analyze_one_task as_is product_task 1 ≡ some (2, add (mul (input 0) (input 1)) (const 3))
unfolding analyze_one_task text_eq
product_kernel = refl

product_real : real_code (bind_pcs product_task) 1 (drop 1 product_task.ins) ≡ true
unfolding real_code
product_real = refl

abbrev naturals : Numbers ℕ
naturals = record {
  literal = λ v. v;
  plus = λ a b. a + b;
  minus = λ a b. a - b;
  times = λ a b. a * b;
  over = λ a b. a / b;
  root = λ a. a;
  is_zero = λ a. a == 0;
  as_double = as_is;
  int_plus = λ a b. a;
  int_minus = λ a b. a;
  int_times = λ a b. a;
  int_over = λ a b. a;
}

task_cells-analyze_one_task_example :
    (task_cells naturals product_task 1 (λ i. i + 5) 2 ≡ err by_zero)
    ⊎ ((d : ℕ) × (rest : List (Cell ℕ)) × (task_cells naturals product_task 1 (λ i. i + 5) 2
          ≡ ok (real d ∷ rest))
        × (eval naturals (λ i. i + 5) (add (mul (input 0) (input 1)) (const 3)) ≡ some d))
task_cells-analyze_one_task_example =
    task_cells-analyze_one_task naturals as_is product_task 1 2
      (add (mul (input 0) (input 1)) (const 3)) product_kernel product_real (λ i. i + 5)

-- `a! b! a b ret`: two cells stand at the return, and the kernel is the one on top.
abbrev two_left : Parsed
two_left = record no_code {
  ins =
      local_set (codes "b")
      ∷ local_set (codes "a")
      ∷ local_get (codes "a")
      ∷ local_get (codes "b")
      ∷ ret
      ∷ [];
  param_pcs = (0, 0) ∷ (1, 0) ∷ [];
}

two_left_runs :
    (analyze_one_task as_is two_left 0 ≡ some (2, input 1))
    × (task_cells naturals two_left 0 (λ i. i + 5) 2 ≡ ok (real 6 ∷ real 5 ∷ []))
unfolding analyze_one_task task_cells text_eq
two_left_runs = (refl, refl)

-- The 2n-wide concatenation of two inputs of n elements, and a constant.
pair-InRange : InRange 4 (cat (input 0) (input 1))
unfolding reads expr_width
pair-InRange q lt = by_half (ltb q 4) refl
  where
    by_half :
        (b : Bool)
        → ltb q 4 ≡ b
        → All (Inside 4) (if b then reads (input 0) 4 q 0 else reads (input 1) 4 q 4)
    by_half true e = (ground (arith, e), tt)
    by_half false e = if_inside (leb 4 q) refl
      where
        if_inside :
            (c : Bool) → leb 4 q ≡ c → All (Inside 4) ((if c then some (q - 4) else none) ∷ [])
        if_inside true f = (ground (arith, lt), tt)
        if_inside false f = ground (arith, e, f)

constant-InRange : InRange 4 (const 7)
unfolding reads
constant-InRange q lt = tt

fuse_binop-InRange_example : InRange 4 (mul (cat (input 0) (input 1)) (const 7))
fuse_binop-InRange_example =
    fuse_binop-InRange (codes "op_mul") (cat (input 0) (input 1)) (const 7)
      (mul (cat (input 0) (input 1)) (const 7)) 4 wide_with_constant pair-InRange constant-InRange
