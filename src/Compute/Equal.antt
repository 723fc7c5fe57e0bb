-- ===== src/Compute/Equal.antt =====
-- `same_expr` of comp/src/compute.rs, and that it decides whether two expressions are equal.
use u_flux.Prelude.{
  int_eq, int_eq-≡, int_eq_refl, ℕ, Bool, true, false, ◌&&◌, ◌==◌, ==_iff, ◌≡◌, refl, ap, &&_iff,
  ◌↔◌, arith, ◌+◌, text_eq, text_eq_iff, text_eq_refl,
}
use u_flux.Compute.Expr.{
  STy, f_state, i_state, Shift, by, len, TExpr, input, const, state, dom, dom_len, add, sub, mul,
  div, cat, and_, sqrt, not_, at, idx, cmp, while_, Inits, no_inits, init, Exprs, no_exprs, expr,
}

abbrev ty_eq : STy → STy → Bool
ty_eq f_state f_state = true
ty_eq i_state i_state = true
ty_eq _ _ = false

abbrev shift_eq : Shift → Shift → Bool
shift_eq (by j) (by k) = int_eq j k
shift_eq len len = true
shift_eq _ _ = false

abbrev inits_len : Inits → ℕ
inits_len no_inits = 0
inits_len (init t e is) = 1 + inits_len is

abbrev exprs_len : Exprs → ℕ
exprs_len no_exprs = 0
exprs_len (expr e es) = 1 + exprs_len es

unfoldable mutual
  unfolding text_eq

  pub same_expr : TExpr → TExpr → Bool
  same_expr (input x) (input y) = x == y
  same_expr (const x) (const y) = x == y
  same_expr (idx x) (idx y) = int_eq x y
  same_expr (state x) (state y) = x == y
  same_expr (dom x) (dom y) = x == y
  same_expr (dom_len x) (dom_len y) = x == y
  same_expr (add a b) (add c d) = same_expr a c && same_expr b d
  same_expr (sub a b) (sub c d) = same_expr a c && same_expr b d
  same_expr (mul a b) (mul c d) = same_expr a c && same_expr b d
  same_expr (div a b) (div c d) = same_expr a c && same_expr b d
  same_expr (sqrt a) (sqrt c) = same_expr a c
  same_expr (not_ a) (not_ c) = same_expr a c
  same_expr (cat a b) (cat c d) = same_expr a c && same_expr b d
  same_expr (at a s) (at c t) = shift_eq s t && same_expr a c
  same_expr (cmp o a b) (cmp p c d) = text_eq o p && same_expr a c && same_expr b d
  same_expr (and_ a b) (and_ c d) = same_expr a c && same_expr b d
  same_expr (while_ is c us r) (while_ js d vs q) =
      inits_len is == inits_len js
      && same_inits is js
      && same_expr c d
      && exprs_len us == exprs_len vs
      && same_exprs us vs
      && same_expr r q
  same_expr _ _ = false

  -- `zip` stops at the shorter list.
  pub same_inits : Inits → Inits → Bool
  same_inits (init s e is) (init t f js) = (ty_eq s t && same_expr e f) && same_inits is js
  same_inits _ _ = true

  pub same_exprs : Exprs → Exprs → Bool
  same_exprs (expr e es) (expr f fs) = same_expr e f && same_exprs es fs
  same_exprs _ _ = true

ty_eq-≡ : (s t : STy) → ty_eq s t ≡ true → s ≡ t
ty_eq-≡ f_state f_state h = refl
ty_eq-≡ i_state i_state h = refl
ty_eq-≡ _ _ h = cc

shift_eq-≡ : (s t : Shift) → shift_eq s t ≡ true → s ≡ t
shift_eq-≡ (by j) (by k) h = ap by (int_eq-≡ j k h)
shift_eq-≡ len len h = refl
shift_eq-≡ _ _ h = cc

two :
    (f : TExpr → TExpr → TExpr) {a b c d : TExpr} {p q : Bool}
    → (p ≡ true → a ≡ c)
    → (q ≡ true → b ≡ d)
    → (p && q) ≡ true
    → f a b ≡ f c d
two f {p = p} {q = q} k l h = cc (k ((&&_iff p q).0 h).0, l ((&&_iff p q).0 h).1)

-- The six tests on a loop.
six :
    (a b c d e f : Bool)
    → (a && b && c && d && e && f) ≡ true
    → (a ≡ true) × (b ≡ true) × (c ≡ true) × (d ≡ true) × (e ≡ true) × (f ≡ true)
six true true true true true true h = (refl, refl, refl, refl, refl, refl)
six _ _ _ _ _ _ h = cc

less_one : (m n : ℕ) → (1 + m == 1 + n) ≡ true → (m == n) ≡ true
less_one m n h = ground arith

none_left : (n : ℕ) → (1 + n == 0) ≡ false
none_left n = ground arith

none_right : (n : ℕ) → (0 == 1 + n) ≡ false
none_right n = ground arith

mutual
  unfolding same_expr

  same_expr-≡ : (a b : TExpr) → same_expr a b ≡ true → a ≡ b
  same_expr-≡ (input x) (input y) h = ap input ((==_iff x y).0 h)
  same_expr-≡ (const x) (const y) h = ap const ((==_iff x y).0 h)
  same_expr-≡ (idx x) (idx y) h = ap idx (int_eq-≡ x y h)
  same_expr-≡ (state x) (state y) h = ap state ((==_iff x y).0 h)
  same_expr-≡ (dom x) (dom y) h = ap dom ((==_iff x y).0 h)
  same_expr-≡ (dom_len x) (dom_len y) h = ap dom_len ((==_iff x y).0 h)
  same_expr-≡ (add a b) (add c d) h = two add (same_expr-≡ a c) (same_expr-≡ b d) h
  same_expr-≡ (sub a b) (sub c d) h = two sub (same_expr-≡ a c) (same_expr-≡ b d) h
  same_expr-≡ (mul a b) (mul c d) h = two mul (same_expr-≡ a c) (same_expr-≡ b d) h
  same_expr-≡ (div a b) (div c d) h = two div (same_expr-≡ a c) (same_expr-≡ b d) h
  same_expr-≡ (sqrt a) (sqrt c) h = ap sqrt (same_expr-≡ a c h)
  same_expr-≡ (not_ a) (not_ c) h = ap not_ (same_expr-≡ a c h)
  same_expr-≡ (cat a b) (cat c d) h = two cat (same_expr-≡ a c) (same_expr-≡ b d) h
  same_expr-≡ (at a s) (at c t) h =
      let (st, ac) = (&&_iff (shift_eq s t) (same_expr a c)).0 h in
      cc (shift_eq-≡ s t st, same_expr-≡ a c ac)
  same_expr-≡ (cmp o a b) (cmp p c d) h =
      let (both, bd) = (&&_iff (text_eq o p && same_expr a c) (same_expr b d)).0 h in
      let (op, ac) = (&&_iff (text_eq o p) (same_expr a c)).0 both in
      cc ((text_eq_iff o p).0 op, same_expr-≡ a c ac, same_expr-≡ b d bd)
  same_expr-≡ (and_ a b) (and_ c d) h = two and_ (same_expr-≡ a c) (same_expr-≡ b d) h
  same_expr-≡ (while_ is c us r) (while_ js d vs q) h =
      let (a1, a2, a3, a4, a5, a6) =
        six (inits_len is == inits_len js) (same_inits is js) (same_expr c d)
          (exprs_len us == exprs_len vs) (same_exprs us vs) (same_expr r q) h in
      cc
        (same_inits-≡ is js a1 a2, same_expr-≡ c d a3, same_exprs-≡ us vs a4 a5, same_expr-≡ r q a6)
  same_expr-≡ _ _ h = cc

  same_inits-≡ :
      (is js : Inits) → (inits_len is == inits_len js) ≡ true → same_inits is js ≡ true → is ≡ js
  same_inits-≡ no_inits no_inits h k = refl
  same_inits-≡ (init s e is) (init t f js) h k =
      let (ef, rest) = (&&_iff (ty_eq s t && same_expr e f) (same_inits is js)).0 k in
      let (st, same) = (&&_iff (ty_eq s t) (same_expr e f)).0 ef in
      cc (
        ty_eq-≡ s t st,
        same_expr-≡ e f same,
        same_inits-≡ is js (less_one (inits_len is) (inits_len js) h) rest,
      )
  same_inits-≡ no_inits (init t f js) h k = cc (none_right (inits_len js), h)
  same_inits-≡ (init t f js) no_inits h k = cc (none_left (inits_len js), h)

  same_exprs-≡ :
      (es fs : Exprs) → (exprs_len es == exprs_len fs) ≡ true → same_exprs es fs ≡ true → es ≡ fs
  same_exprs-≡ no_exprs no_exprs h k = refl
  same_exprs-≡ (expr e es) (expr f fs) h k =
      let (same, rest) = (&&_iff (same_expr e f) (same_exprs es fs)).0 k in
      cc (same_expr-≡ e f same, same_exprs-≡ es fs (less_one (exprs_len es) (exprs_len fs) h) rest)
  same_exprs-≡ no_exprs (expr f fs) h k = cc (none_right (exprs_len fs), h)
  same_exprs-≡ (expr e es) no_exprs h k = cc (none_left (exprs_len es), h)

ty_eq_refl : (t : STy) → ty_eq t t ≡ true
ty_eq_refl f_state = refl
ty_eq_refl i_state = refl

shift_eq_refl : (s : Shift) → shift_eq s s ≡ true
shift_eq_refl (by k) = int_eq_refl k
shift_eq_refl len = refl

same_number : (n : ℕ) → (n == n) ≡ true
same_number n = (==_iff n n).1 refl

mutual
  unfolding same_expr

  same_expr_refl : (a : TExpr) → same_expr a a ≡ true
  same_expr_refl (input x) = same_number x
  same_expr_refl (const x) = same_number x
  same_expr_refl (idx x) = int_eq_refl x
  same_expr_refl (state x) = same_number x
  same_expr_refl (dom x) = same_number x
  same_expr_refl (dom_len x) = same_number x
  same_expr_refl (add a b) = rw (same_expr_refl a, same_expr_refl b) refl
  same_expr_refl (sub a b) = rw (same_expr_refl a, same_expr_refl b) refl
  same_expr_refl (mul a b) = rw (same_expr_refl a, same_expr_refl b) refl
  same_expr_refl (div a b) = rw (same_expr_refl a, same_expr_refl b) refl
  same_expr_refl (sqrt a) = same_expr_refl a
  same_expr_refl (not_ a) = same_expr_refl a
  same_expr_refl (cat a b) = rw (same_expr_refl a, same_expr_refl b) refl
  same_expr_refl (at a s) = rw (shift_eq_refl s, same_expr_refl a) refl
  same_expr_refl (cmp o a b) = rw (text_eq_refl o, same_expr_refl a, same_expr_refl b) refl
  same_expr_refl (and_ a b) = rw (same_expr_refl a, same_expr_refl b) refl
  same_expr_refl (while_ is c us r) =
      rw
        (
          same_number (inits_len is),
          same_inits_refl is,
          same_expr_refl c,
          same_number (exprs_len us),
          same_exprs_refl us,
          same_expr_refl r,
        )
        refl

  same_inits_refl : (is : Inits) → same_inits is is ≡ true
  same_inits_refl no_inits = refl
  same_inits_refl (init t e is) = rw (ty_eq_refl t, same_expr_refl e, same_inits_refl is) refl

  same_exprs_refl : (es : Exprs) → same_exprs es es ≡ true
  same_exprs_refl no_exprs = refl
  same_exprs_refl (expr e es) = rw (same_expr_refl e, same_exprs_refl es) refl

-- The comparison of two expressions gives `true` exactly when they are the same expression, with the
-- bits of their constants.
pub same_expr_iff : (a b : TExpr) → (same_expr a b ≡ true) ↔ (a ≡ b)
same_expr_iff a b = (same_expr-≡ a b, λ e. rw e (same_expr_refl b))
