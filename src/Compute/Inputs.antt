-- ===== src/Compute/Inputs.antt =====
-- The inputs that an expression reads, and what the functions on expressions do to them.
use u_flux.Prelude.{ℕ, ◌≡◌, ◌↔◌, refl, arith, Bool, true, false, ◌&&◌, List, [], ◌∷◌, ◌++◌}
use u_flux.Compute.Expr.{
  TExpr, input, const, state, dom, dom_len, add, sub, mul, div, cat, and_, sqrt, not_, at, idx, cmp,
  while_, Inits, no_inits, init, Exprs, no_exprs, expr, expr_input_free, inits_input_free,
  exprs_input_free,
}

unfoldable mutual
  pub inputs : TExpr → List ℕ
  inputs (input i) = i ∷ []
  inputs (const v) = []
  inputs (state i) = []
  inputs (dom l) = []
  inputs (dom_len l) = []
  inputs (idx k) = []
  inputs (add a b) = inputs a ++ inputs b
  inputs (sub a b) = inputs a ++ inputs b
  inputs (mul a b) = inputs a ++ inputs b
  inputs (div a b) = inputs a ++ inputs b
  inputs (cat a b) = inputs a ++ inputs b
  inputs (and_ a b) = inputs a ++ inputs b
  inputs (sqrt a) = inputs a
  inputs (not_ a) = inputs a
  inputs (at a s) = inputs a
  inputs (cmp op a b) = inputs a ++ inputs b
  inputs (while_ is c us r) = inputs_of is ++ (inputs c ++ (inputs_in us ++ inputs r))

  pub inputs_of : Inits → List ℕ
  inputs_of no_inits = []
  inputs_of (init t e is) = inputs e ++ inputs_of is

  pub inputs_in : Exprs → List ℕ
  inputs_in no_exprs = []
  inputs_in (expr e es) = inputs e ++ inputs_in es

abbrev is_nil : List ℕ → Bool
is_nil [] = true
is_nil (i ∷ is) = false

is_nil-append : (a b : List ℕ) → is_nil (a ++ b) ≡ (is_nil a && is_nil b)
is_nil-append [] b = refl
is_nil-append (i ∷ a) b = refl

&&-third : (c r i u : Bool) → (c && r && i && u) ≡ (i && (c && (u && r)))
&&-third true true true true = refl
&&-third _ _ _ _ = ground arith

mutual
  unfolding expr_input_free inputs

  free-inputs : (e : TExpr) → expr_input_free e ≡ is_nil (inputs e)
  free-inputs (input i) = refl
  free-inputs (const v) = refl
  free-inputs (state i) = refl
  free-inputs (dom l) = refl
  free-inputs (dom_len l) = refl
  free-inputs (idx k) = refl
  free-inputs (add a b) = rw (is_nil-append, free-inputs a, free-inputs b) refl
  free-inputs (sub a b) = rw (is_nil-append, free-inputs a, free-inputs b) refl
  free-inputs (mul a b) = rw (is_nil-append, free-inputs a, free-inputs b) refl
  free-inputs (div a b) = rw (is_nil-append, free-inputs a, free-inputs b) refl
  free-inputs (cat a b) = rw (is_nil-append, free-inputs a, free-inputs b) refl
  free-inputs (and_ a b) = rw (is_nil-append, free-inputs a, free-inputs b) refl
  free-inputs (sqrt a) = free-inputs a
  free-inputs (not_ a) = free-inputs a
  free-inputs (at a s) = free-inputs a
  free-inputs (cmp op a b) = rw (is_nil-append, free-inputs a, free-inputs b) refl
  free-inputs (while_ is c us r) =
      rw
        (
          is_nil-append,
          is_nil-append,
          is_nil-append,
          free-inputs_of is,
          free-inputs c,
          free-inputs_in us,
          free-inputs r,
        )
        (&&-third (is_nil (inputs c)) _ _ _)

  free-inputs_of : (is : Inits) → inits_input_free is ≡ is_nil (inputs_of is)
  free-inputs_of no_inits = refl
  free-inputs_of (init t e is) = rw (is_nil-append, free-inputs e, free-inputs_of is) refl

  free-inputs_in : (es : Exprs) → exprs_input_free es ≡ is_nil (inputs_in es)
  free-inputs_in no_exprs = refl
  free-inputs_in (expr e es) = rw (is_nil-append, free-inputs e, free-inputs_in es) refl

-- An expression is said to be free of inputs exactly when it reads none, in whatever part of it.
pub expr_input_free_iff : (e : TExpr) → (expr_input_free e ≡ true) ↔ (inputs e ≡ [])
expr_input_free_iff e = rw (free-inputs e) (by_list (inputs e))
  where
    by_list : (is : List ℕ) → (is_nil is ≡ true) ↔ (is ≡ [])
    by_list [] = (λ h. refl, λ h. refl)
    by_list (i ∷ is) = (λ h. cc, λ h. cc)
