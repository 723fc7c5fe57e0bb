-- ===== src/Compute/Domains.antt =====
-- Where an expression reads its inputs, and that fusing two expressions keeps the reads within the
-- inputs' `n` elements.
use u_flux.Prelude.{
  ℕ, ◌+◌, ◌-◌, ◌<◌, ◌≤◌, ◌≡◌, refl, arith, Bool, true, false, ◌&&◌, ◌||◌, List, [], ◌∷◌, ◌++◌,
  Option, none, some, ltb, leb, ◌==◌, ==_iff, if◌then◌else◌, Text, codes, text_eq, All, Bool-cases,
  inl, inr, pos, negsuc,
}
use Prim.Native.Nat.{max}
use u_flux.Compute.Expr.{
  by, len, TExpr, input, const, state, dom, dom_len, add, sub, mul, div, cat, and_, sqrt, not_, at,
  idx, cmp, while_, Inits, no_inits, init, Exprs, no_exprs, expr, expr_width, expr_uses_input,
  inits_use_input, exprs_use_input, narrow, fused, fuse_binop,
}

-- The positions at which the inputs are read for position `q - m` of the expression, over inputs of
-- `n` elements; `none` is a position before the first element.
unfoldable mutual
  pub reads : TExpr → ℕ → ℕ → ℕ → List (Option ℕ)
  reads (input i) n q m = (if leb m q then some (q - m) else none) ∷ []
  reads (const v) n q m = []
  reads (state i) n q m = []
  reads (dom l) n q m = []
  reads (dom_len l) n q m = []
  reads (idx k) n q m = []
  reads (add a b) n q m = reads a n q m ++ reads b n q m
  reads (sub a b) n q m = reads a n q m ++ reads b n q m
  reads (mul a b) n q m = reads a n q m ++ reads b n q m
  reads (div a b) n q m = reads a n q m ++ reads b n q m
  reads (and_ a b) n q m = reads a n q m ++ reads b n q m
  reads (cmp op a b) n q m = reads a n q m ++ reads b n q m
  reads (sqrt a) n q m = reads a n q m
  reads (not_ a) n q m = reads a n q m
  reads (cat a b) n q m =
      let left = reads a n q m in
      let right = reads b n q (m + n) in (if ltb q (n + m) then left else right)
  reads (at a (by (pos k))) n q m = reads a n (q + k) m
  reads (at a (by (negsuc k))) n q m = reads a n q (m + k + 1)
  reads (at a len) n q m = reads a n (q + n) m
  reads (while_ is c us r) n q m =
      inits_reads is n q m ++ (reads c n q m ++ (exprs_reads us n q m ++ reads r n q m))

  pub inits_reads : Inits → ℕ → ℕ → ℕ → List (Option ℕ)
  inits_reads no_inits n q m = []
  inits_reads (init t e is) n q m = reads e n q m ++ inits_reads is n q m

  pub exprs_reads : Exprs → ℕ → ℕ → ℕ → List (Option ℕ)
  exprs_reads no_exprs n q m = []
  exprs_reads (expr e es) n q m = reads e n q m ++ exprs_reads es n q m

-- An expression that does not use the domain reads nothing.
both_false : (a b : Bool) → (a || b) ≡ false → (a ≡ false) × (b ≡ false)
both_false false b h = (refl, h)
both_false true b h = cc

two_nil : {a b : List (Option ℕ)} → a ≡ [] → b ≡ [] → a ++ b ≡ []
two_nil h k = rw (h, k) refl

two_unused :
    (s t : Bool) {a b : List (Option ℕ)}
    → (s ≡ false → a ≡ [])
    → (t ≡ false → b ≡ [])
    → (s || t) ≡ false
    → a ++ b ≡ []
two_unused s t f g h = two_nil (f (both_false s t h).0) (g (both_false s t h).1)

if_nil : {a b : List (Option ℕ)} (t : Bool) → a ≡ [] → b ≡ [] → (if t then a else b) ≡ []
if_nil true h k = h
if_nil false h k = k

mutual
  unfolding reads expr_uses_input

  unused-reads : (e : TExpr) (n q m : ℕ) → expr_uses_input e ≡ false → reads e n q m ≡ []
  unused-reads (input i) n q m h = cc
  unused-reads (const v) n q m h = refl
  unused-reads (state i) n q m h = refl
  unused-reads (dom l) n q m h = refl
  unused-reads (dom_len l) n q m h = refl
  unused-reads (idx k) n q m h = refl
  unused-reads (add a b) n q m h =
      two_unused (expr_uses_input a) (expr_uses_input b) (unused-reads a n q m)
        (unused-reads b n q m) h
  unused-reads (sub a b) n q m h =
      two_unused (expr_uses_input a) (expr_uses_input b) (unused-reads a n q m)
        (unused-reads b n q m) h
  unused-reads (mul a b) n q m h =
      two_unused (expr_uses_input a) (expr_uses_input b) (unused-reads a n q m)
        (unused-reads b n q m) h
  unused-reads (div a b) n q m h =
      two_unused (expr_uses_input a) (expr_uses_input b) (unused-reads a n q m)
        (unused-reads b n q m) h
  unused-reads (and_ a b) n q m h =
      two_unused (expr_uses_input a) (expr_uses_input b) (unused-reads a n q m)
        (unused-reads b n q m) h
  unused-reads (cmp op a b) n q m h =
      two_unused (expr_uses_input a) (expr_uses_input b) (unused-reads a n q m)
        (unused-reads b n q m) h
  unused-reads (sqrt a) n q m h = unused-reads a n q m h
  unused-reads (not_ a) n q m h = unused-reads a n q m h
  unused-reads (cat a b) n q m h =
      let (f, g) = both_false (expr_uses_input a) (expr_uses_input b) h in
      if_nil (ltb q (n + m)) (unused-reads a n q m f) (unused-reads b n q (m + n) g)
  unused-reads (at a (by (pos k))) n q m h = unused-reads a n (q + k) m h
  unused-reads (at a (by (negsuc k))) n q m h = unused-reads a n q (m + k + 1) h
  unused-reads (at a len) n q m h = unused-reads a n (q + n) m h
  unused-reads (while_ is c us r) n q m h =
      let (three, hu) =
        both_false (expr_uses_input r || expr_uses_input c || inits_use_input is)
          (exprs_use_input us) h in
      let (two, hi) =
        both_false (expr_uses_input r || expr_uses_input c) (inits_use_input is) three in
      let (hr, hc) = both_false (expr_uses_input r) (expr_uses_input c) two in
      two_nil (unused-inits is n q m hi) (
        two_nil (unused-reads c n q m hc)
          (two_nil (unused-exprs us n q m hu) (unused-reads r n q m hr)))

  unused-inits : (is : Inits) (n q m : ℕ) → inits_use_input is ≡ false → inits_reads is n q m ≡ []
  unused-inits no_inits n q m h = refl
  unused-inits (init t e is) n q m h =
      let (f, g) = both_false (expr_uses_input e) (inits_use_input is) h in
      two_nil (unused-reads e n q m f) (unused-inits is n q m g)

  unused-exprs : (es : Exprs) (n q m : ℕ) → exprs_use_input es ≡ false → exprs_reads es n q m ≡ []
  unused-exprs no_exprs n q m h = refl
  unused-exprs (expr e es) n q m h =
      let (f, g) = both_false (expr_uses_input e) (exprs_use_input es) h in
      two_nil (unused-reads e n q m f) (unused-exprs es n q m g)

pub expr_width-le : (e : TExpr) → expr_width e ≤ 2
unfolding expr_width
expr_width-le (input i) = omega arith
expr_width-le (const v) = omega arith
expr_width-le (state i) = omega arith
expr_width-le (dom l) = omega arith
expr_width-le (dom_len l) = omega arith
expr_width-le (idx k) = omega arith
expr_width-le (add a b) = omega (arith, expr_width-le a, expr_width-le b)
expr_width-le (sub a b) = omega (arith, expr_width-le a, expr_width-le b)
expr_width-le (mul a b) = omega (arith, expr_width-le a, expr_width-le b)
expr_width-le (div a b) = omega (arith, expr_width-le a, expr_width-le b)
expr_width-le (and_ a b) = omega arith
expr_width-le (cmp op a b) = omega arith
expr_width-le (sqrt a) = expr_width-le a
expr_width-le (not_ a) = omega arith
expr_width-le (cat a b) = omega arith
expr_width-le (at a s) = omega arith
expr_width-le (while_ is c us r) = omega arith

abbrev pub Inside : ℕ → Option ℕ → Type 0
Inside n none = ⊥
Inside n (some p) = p < n

-- The elements of an expression's domain.
abbrev pub span : ℕ → ℕ → ℕ
span w n = if ltb w 2 then n else n + n

abbrev pub InRange : ℕ → TExpr → Type 0
InRange n e = (q : ℕ) → q < span (expr_width e) n → All (Inside n) (reads e n q 0)

All-join : (P : Option ℕ → Type 0) (a b : List (Option ℕ)) → All P a → All P b → All P (a ++ b)
All-join P [] b h k = k
All-join P (i ∷ a) b h k = (h.0, All-join P a b h.1 k)

if_any : (P : TExpr → Type 0) {x y : TExpr} (t : Bool) → P x → P y → P (if t then x else y)
if_any P true h k = h
if_any P false h k = k

-- An operator's expression reads what its sides read, over the wider of their domains.
abbrev Joined : TExpr → TExpr → TExpr → Type 0
Joined a b e =
    (expr_width e ≡ max (expr_width a) (expr_width b))
    × ((n q m : ℕ) → reads e n q m ≡ reads a n q m ++ reads b n q m)

fused-Joined : (h : Text) (a b : TExpr) → Joined a b (fused h a b)
unfolding reads expr_width
fused-Joined h a b =
    if_any (Joined a b) (text_eq h (codes "op_add")) (refl, λ n q m. refl)
      (if_any (Joined a b) (text_eq h (codes "op_sub")) (refl, λ n q m. refl)
        (if_any (Joined a b) (text_eq h (codes "op_mul")) (refl, λ n q m. refl)
          (refl, λ n q m. refl)))

-- A side of a fusion stays in range over the fusion's domain.
side-InRange :
    (a : TExpr) (w n : ℕ)
    → expr_width a ≤ w
    → w ≤ 2
    → (w ≡ 2 → narrow a ≡ false)
    → InRange n a
    → (q : ℕ) → q < span w n
    → All (Inside n) (reads a n q 0)
side-InRange a w n le two k r q lt = elim (Bool-cases (expr_uses_input a)) [
  | inr f ↦ rw (unused-reads a n q 0 f) tt
  | inl t ↦ r q (wide t)
]
  where
    wide : expr_uses_input a ≡ true → q < span (expr_width a) n
    wide t = ground (arith, k, t, le, two, lt)

fuse_test :
    (t x y : Bool) {d e : TExpr}
    → (if t && (x || y) then none else some d) ≡ some e
    → (e ≡ d) × (t ≡ true → (x ≡ false) × (y ≡ false))
fuse_test false x y f = (cc, λ h. cc)
fuse_test true false false f = (cc, λ h. (refl, refl))
fuse_test true true y f = cc
fuse_test true false true f = cc

narrow_sides :
    (h : Text) (a b e : TExpr)
    → fuse_binop h a b ≡ some e
    → (e ≡ fused h a b)
      × (max (expr_width a) (expr_width b) ≡ 2 → (narrow a ≡ false) × (narrow b ≡ false))
unfolding fuse_binop
narrow_sides h a b e f =
    let (same, ks) = fuse_test (max (expr_width a) (expr_width b) == 2) (narrow a) (narrow b) f in
    (same, λ z. ks ((==_iff (max (expr_width a) (expr_width b)) 2).1 z))

-- When two expressions that read their inputs within the elements of these, each over its own domain,
-- can be fused, the result does so over its domain.
pub fuse_binop-InRange :
    (h : Text) (a b e : TExpr) (n : ℕ)
    → fuse_binop h a b ≡ some e
    → InRange n a
    → InRange n b
    → InRange n e
fuse_binop-InRange h a b e n f ra rb q lt =
    let (same, ks) = narrow_sides h a b e f in
    let (width, joined) = fused-Joined h a b in
    let w = max (expr_width a) (expr_width b) in
    let two : w ≤ 2 = omega (arith, expr_width-le a, expr_width-le b) in
    let lt' : q < span w n = rw⁻¹ width (rw⁻¹ same lt) in
    rw (same, joined n q 0)
      (All-join (Inside n) _ _ (side-InRange a w n (omega arith) two (λ z. (ks z).0) ra q lt')
        (side-InRange b w n (omega arith) two (λ z. (ks z).1) rb q lt'))
