-- ===== src/Compute/Expr.antt =====
-- `TExpr` of comp/src/compute.rs, the expressions that a kernel computes, and the functions on them.
-- An f64 is the number of its bits.
use u_flux.Prelude.{
  ℕ, min, Bool, true, false, ◌&&◌, ◌||◌, List, Option, none, some, ltb, ◌==◌, if◌then◌else◌, Text,
  codes, text_eq, get_elem?, ℤ,
}
use Prim.Native.Nat.{max}

-- The type of a loop's state.
pub data STy : Type 0 where
  f_state i_state : STy

pub data Shift : Type 0 where
  by : ℤ → Shift
  len : Shift

mutual
  pub data TExpr : Type 0 where
    input const state dom dom_len : ℕ → TExpr
    add sub mul div cat and_ : TExpr → TExpr → TExpr
    sqrt not_ : TExpr → TExpr
    at : TExpr → Shift → TExpr
    idx : ℤ → TExpr
    cmp : Text → TExpr → TExpr → TExpr
    while_ : Inits → TExpr → Exprs → TExpr → TExpr

  pub data Inits : Type 0 where
    no_inits : Inits
    init : STy → TExpr → Inits → Inits

  pub data Exprs : Type 0 where
    no_exprs : Exprs
    expr : TExpr → Exprs → Exprs

-- 0 for constants, 1 for the domain and 2 for its double.
unfoldable mutual
  pub expr_width : TExpr → ℕ
  expr_width (const v) = 0
  expr_width (input i) = 1
  expr_width (at a s) = min (max (expr_width a) 1) 1
  expr_width (cat a b) = 2
  expr_width (idx k) = 1
  expr_width (state i) = 0
  expr_width (dom l) = 1
  expr_width (dom_len l) = 1
  expr_width (cmp op a b) = min (max (expr_width a) (expr_width b)) 1
  expr_width (and_ a b) = min (max (expr_width a) (expr_width b)) 1
  expr_width (not_ a) = min (expr_width a) 1
  expr_width (while_ is c us r) =
      min (exprs_width (max (inits_width (expr_width r) is) (expr_width c)) us) 1
  expr_width (add a b) = max (expr_width a) (expr_width b)
  expr_width (sub a b) = max (expr_width a) (expr_width b)
  expr_width (mul a b) = max (expr_width a) (expr_width b)
  expr_width (div a b) = max (expr_width a) (expr_width b)
  expr_width (sqrt a) = expr_width a

  pub inits_width : ℕ → Inits → ℕ
  inits_width w no_inits = w
  inits_width w (init t e is) = inits_width (max w (expr_width e)) is

  pub exprs_width : ℕ → Exprs → ℕ
  exprs_width w no_exprs = w
  exprs_width w (expr e es) = exprs_width (max w (expr_width e)) es

unfoldable mutual
  pub expr_uses_input : TExpr → Bool
  expr_uses_input (input i) = true
  expr_uses_input (const v) = false
  expr_uses_input (add a b) = expr_uses_input a || expr_uses_input b
  expr_uses_input (sub a b) = expr_uses_input a || expr_uses_input b
  expr_uses_input (mul a b) = expr_uses_input a || expr_uses_input b
  expr_uses_input (div a b) = expr_uses_input a || expr_uses_input b
  expr_uses_input (sqrt a) = expr_uses_input a
  expr_uses_input (cat a b) = expr_uses_input a || expr_uses_input b
  expr_uses_input (at a s) = expr_uses_input a
  expr_uses_input (idx k) = true
  expr_uses_input (state i) = false
  expr_uses_input (dom l) = true
  expr_uses_input (dom_len l) = true
  expr_uses_input (cmp op a b) = expr_uses_input a || expr_uses_input b
  expr_uses_input (and_ a b) = expr_uses_input a || expr_uses_input b
  expr_uses_input (not_ a) = expr_uses_input a
  expr_uses_input (while_ is c us r) =
      expr_uses_input r || expr_uses_input c || inits_use_input is || exprs_use_input us

  pub inits_use_input : Inits → Bool
  inits_use_input no_inits = false
  inits_use_input (init t e is) = expr_uses_input e || inits_use_input is

  pub exprs_use_input : Exprs → Bool
  exprs_use_input no_exprs = false
  exprs_use_input (expr e es) = expr_uses_input e || exprs_use_input es

unfoldable mutual
  pub expr_input_free : TExpr → Bool
  expr_input_free (input i) = false
  expr_input_free (const v) = true
  expr_input_free (idx k) = true
  expr_input_free (state i) = true
  expr_input_free (dom l) = true
  expr_input_free (dom_len l) = true
  expr_input_free (add a b) = expr_input_free a && expr_input_free b
  expr_input_free (sub a b) = expr_input_free a && expr_input_free b
  expr_input_free (mul a b) = expr_input_free a && expr_input_free b
  expr_input_free (div a b) = expr_input_free a && expr_input_free b
  expr_input_free (cat a b) = expr_input_free a && expr_input_free b
  expr_input_free (and_ a b) = expr_input_free a && expr_input_free b
  expr_input_free (sqrt a) = expr_input_free a
  expr_input_free (not_ a) = expr_input_free a
  expr_input_free (at a s) = expr_input_free a
  expr_input_free (cmp op a b) = expr_input_free a && expr_input_free b
  expr_input_free (while_ is c us r) =
      expr_input_free c && expr_input_free r && inits_input_free is && exprs_input_free us

  pub inits_input_free : Inits → Bool
  inits_input_free no_inits = true
  inits_input_free (init t e is) = expr_input_free e && inits_input_free is

  pub exprs_input_free : Exprs → Bool
  exprs_input_free no_exprs = true
  exprs_input_free (expr e es) = expr_input_free e && exprs_input_free es

-- `map.get(i).copied().flatten()`
abbrev pub flatten : Option (Option ℕ) → Option ℕ
flatten none = none
flatten (some o) = o

abbrev pub on_one : {A B : Type 0} → (A → B) → Option A → Option B
on_one f none = none
on_one f (some a) = some (f a)

abbrev pub on_both : {A B C : Type 0} → (A → B → C) → Option A → Option B → Option C
on_both f none b = none
on_both f (some a) b = on_one (f a) b

abbrev pub loop_of : Option Inits → Option TExpr → Option Exprs → Option TExpr → Option TExpr
loop_of (some is) (some c) (some us) (some r) = some (while_ is c us r)
loop_of _ _ _ _ = none

unfoldable mutual
  pub remap_input : TExpr → List (Option ℕ) → Option TExpr
  remap_input (input i) m = on_one input (flatten (get_elem? m i))
  remap_input (const v) m = some (const v)
  remap_input (add a b) m = on_both add (remap_input a m) (remap_input b m)
  remap_input (sub a b) m = on_both sub (remap_input a m) (remap_input b m)
  remap_input (mul a b) m = on_both mul (remap_input a m) (remap_input b m)
  remap_input (div a b) m = on_both div (remap_input a m) (remap_input b m)
  remap_input (sqrt a) m = on_one sqrt (remap_input a m)
  remap_input (cat a b) m = on_both cat (remap_input a m) (remap_input b m)
  remap_input (at a s) m = on_one (λ e. at e s) (remap_input a m)
  remap_input (idx k) m = some (idx k)
  remap_input (state i) m = some (state i)
  remap_input (dom l) m = some (dom l)
  remap_input (dom_len l) m = some (dom_len l)
  remap_input (cmp op a b) m = on_both (cmp op) (remap_input a m) (remap_input b m)
  remap_input (and_ a b) m = on_both and_ (remap_input a m) (remap_input b m)
  remap_input (not_ a) m = on_one not_ (remap_input a m)
  remap_input (while_ is c us r) m =
      loop_of (remap_inits is m) (remap_input c m) (remap_exprs us m) (remap_input r m)

  pub remap_inits : Inits → List (Option ℕ) → Option Inits
  remap_inits no_inits m = some no_inits
  remap_inits (init t e is) m = on_both (init t) (remap_input e m) (remap_inits is m)

  pub remap_exprs : Exprs → List (Option ℕ) → Option Exprs
  remap_exprs no_exprs m = some no_exprs
  remap_exprs (expr e es) m = on_both expr (remap_input e m) (remap_exprs es m)

-- A side that is not wide, and reads the domain.
abbrev pub narrow : TExpr → Bool
narrow e = ltb (expr_width e) 2 && expr_uses_input e

abbrev pub fused : Text → TExpr → TExpr → TExpr
fused h a b =
    if text_eq h (codes "op_add")
    then add a b
    else if text_eq h (codes "op_sub")
    then sub a b
    else if text_eq h (codes "op_mul")
    then mul a b
    else div a b

unfoldable pub fuse_binop : Text → TExpr → TExpr → Option TExpr
unfolding text_eq expr_width expr_uses_input
fuse_binop h a b =
    if max (expr_width a) (expr_width b) == 2 && (narrow a || narrow b)
    then none
    else some (fused h a b)
