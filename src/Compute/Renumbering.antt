-- ===== src/Compute/Renumbering.antt =====
-- `remap_input` of comp/src/compute.rs beside the list of the inputs that an expression reads.
use u_flux.Prelude.{ℕ, ◌≡◌, refl, sym, ◌∙◌, ap, List, [], ◌∷◌, ◌++◌, Option, none, some, get_elem?}
use u_flux.Compute.Expr.{
  TExpr, input, const, state, dom, dom_len, add, sub, mul, div, cat, and_, sqrt, not_, at, idx, cmp,
  while_, Inits, no_inits, init, Exprs, no_exprs, expr, flatten, on_one, on_both, loop_of,
  remap_input, remap_inits, remap_exprs,
}
use u_flux.Compute.Inputs.{inputs, inputs_of, inputs_in}

-- Each input by its new number, if all have one.
unfoldable pub renumber : List (Option ℕ) → List ℕ → Option (List ℕ)
renumber m [] = some []
renumber m (i ∷ is) = on_both (λ j js. j ∷ js) (flatten (get_elem? m i)) (renumber m is)

abbrev both_lists : Option (List ℕ) → Option (List ℕ) → Option (List ℕ)
both_lists a b = on_both (λ x y. x ++ y) a b

both-nil : (o : Option (List ℕ)) → both_lists (some []) o ≡ o
both-nil none = refl
both-nil (some x) = refl

both-cons :
    (j : Option ℕ) (a b : Option (List ℕ))
    → on_both (λ i is. i ∷ is) j (both_lists a b) ≡ both_lists (on_both (λ i is. i ∷ is) j a) b
both-cons none a b = refl
both-cons (some j) none b = refl
both-cons (some j) (some x) none = refl
both-cons (some j) (some x) (some y) = refl

renumber-nil : (m : List (Option ℕ)) → renumber m [] ≡ some []
unfolding renumber
renumber-nil m = refl

renumber-append :
    (m : List (Option ℕ)) (a b : List ℕ)
    → renumber m (a ++ b) ≡ both_lists (renumber m a) (renumber m b)
unfolding renumber
renumber-append m [] b = sym (both-nil (renumber m b))
renumber-append m (i ∷ a) b =
    ap (on_both (λ j js. j ∷ js) (flatten (get_elem? m i))) (renumber-append m a b)
    ∙ both-cons (flatten (get_elem? m i)) (renumber m a) (renumber m b)

by_number : (o : Option ℕ) → on_one inputs (on_one input o) ≡ on_both (λ j js. j ∷ js) o (some [])
unfolding inputs
by_number none = refl
by_number (some j) = refl

inputs-input :
    (m : List (Option ℕ)) (i : ℕ)
    → on_one inputs (on_one input (flatten (get_elem? m i))) ≡ renumber m (i ∷ [])
unfolding renumber
inputs-input m i = by_number (flatten (get_elem? m i))

-- A part's inputs, and those of two parts.
inputs-both :
    {A B C : Type 0} (f : A → B → C) (u : A → List ℕ) (v : B → List ℕ) (w : C → List ℕ)
    → ((a : A) (b : B) → w (f a b) ≡ u a ++ v b)
    → (x : Option A) (y : Option B)
    → on_one w (on_both f x y) ≡ both_lists (on_one u x) (on_one v y)
inputs-both f u v w h none y = refl
inputs-both f u v w h (some a) none = refl
inputs-both f u v w h (some a) (some b) = ap some (h a b)

inputs-one :
    (f : TExpr → TExpr)
    → ((a : TExpr) → inputs (f a) ≡ inputs a)
    → (x : Option TExpr) → on_one inputs (on_one f x) ≡ on_one inputs x
inputs-one f h none = refl
inputs-one f h (some a) = ap some (h a)

inputs-loop :
    (x : Option Inits) (c : Option TExpr) (y : Option Exprs) (r : Option TExpr)
    → on_one inputs (loop_of x c y r)
      ≡ both_lists
          (on_one inputs_of x)
          (both_lists (on_one inputs c) (both_lists (on_one inputs_in y) (on_one inputs r)))
unfolding inputs
inputs-loop (some is) (some c) (some us) (some r) = refl
inputs-loop (some is) (some c) (some us) none = refl
inputs-loop (some is) (some c) none r = refl
inputs-loop (some is) none y r = refl
inputs-loop none c y r = refl

inputs-two :
    (f : TExpr → TExpr → TExpr)
    → ((a b : TExpr) → inputs (f a b) ≡ inputs a ++ inputs b)
    → (m : List (Option ℕ)) (x y : Option TExpr) (p q : List ℕ) → on_one inputs x ≡ renumber m p
    → on_one inputs y ≡ renumber m q
    → on_one inputs (on_both f x y) ≡ renumber m (p ++ q)
inputs-two f h m x y p q k l =
    rw (renumber-append, ← k, ← l) (inputs-both f inputs inputs inputs h x y)

mutual
  unfolding remap_input inputs

  inputs-remap :
      (e : TExpr) (m : List (Option ℕ)) → on_one inputs (remap_input e m) ≡ renumber m (inputs e)
  inputs-remap (input i) m = inputs-input m i
  inputs-remap (const v) m = sym (renumber-nil m)
  inputs-remap (state i) m = sym (renumber-nil m)
  inputs-remap (dom l) m = sym (renumber-nil m)
  inputs-remap (dom_len l) m = sym (renumber-nil m)
  inputs-remap (idx k) m = sym (renumber-nil m)
  inputs-remap (add a b) m =
      inputs-two add (λ a b. refl) m _ _ _ _ (inputs-remap a m) (inputs-remap b m)
  inputs-remap (sub a b) m =
      inputs-two sub (λ a b. refl) m _ _ _ _ (inputs-remap a m) (inputs-remap b m)
  inputs-remap (mul a b) m =
      inputs-two mul (λ a b. refl) m _ _ _ _ (inputs-remap a m) (inputs-remap b m)
  inputs-remap (div a b) m =
      inputs-two div (λ a b. refl) m _ _ _ _ (inputs-remap a m) (inputs-remap b m)
  inputs-remap (cat a b) m =
      inputs-two cat (λ a b. refl) m _ _ _ _ (inputs-remap a m) (inputs-remap b m)
  inputs-remap (and_ a b) m =
      inputs-two and_ (λ a b. refl) m _ _ _ _ (inputs-remap a m) (inputs-remap b m)
  inputs-remap (sqrt a) m = inputs-one sqrt (λ a. refl) _ ∙ inputs-remap a m
  inputs-remap (not_ a) m = inputs-one not_ (λ a. refl) _ ∙ inputs-remap a m
  inputs-remap (at a s) m = inputs-one (λ e. at e s) (λ a. refl) _ ∙ inputs-remap a m
  inputs-remap (cmp op a b) m =
      inputs-two (cmp op) (λ a b. refl) m _ _ _ _ (inputs-remap a m) (inputs-remap b m)
  inputs-remap (while_ is c us r) m =
      rw
        (
          renumber-append,
          renumber-append,
          renumber-append,
          ← inputs-remap_inits is m,
          ← inputs-remap c m,
          ← inputs-remap_exprs us m,
          ← inputs-remap r m,
        )
        (inputs-loop (remap_inits is m) _ _ _)

  inputs-remap_inits :
      (is : Inits) (m : List (Option ℕ))
      → on_one inputs_of (remap_inits is m) ≡ renumber m (inputs_of is)
  inputs-remap_inits no_inits m = sym (renumber-nil m)
  inputs-remap_inits (init t e is) m =
      rw (renumber-append, ← inputs-remap e m, ← inputs-remap_inits is m)
        (inputs-both (init t) inputs inputs_of inputs_of (λ a b. refl) (remap_input e m) _)

  inputs-remap_exprs :
      (es : Exprs) (m : List (Option ℕ))
      → on_one inputs_in (remap_exprs es m) ≡ renumber m (inputs_in es)
  inputs-remap_exprs no_exprs m = sym (renumber-nil m)
  inputs-remap_exprs (expr e es) m =
      rw (renumber-append, ← inputs-remap e m, ← inputs-remap_exprs es m)
        (inputs-both expr inputs inputs_in inputs_in (λ a b. refl) (remap_input e m) _)

-- Renumbering succeeds exactly when every input that the expression reads has a new number, and the
-- result then reads the new numbers, in the same order.
pub inputs-remap_input :
    (e : TExpr) (m : List (Option ℕ)) → on_one inputs (remap_input e m) ≡ renumber m (inputs e)
inputs-remap_input e m = inputs-remap e m
