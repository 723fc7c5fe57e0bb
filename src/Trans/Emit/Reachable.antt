-- ===== src/Trans/Emit/Reachable.antt =====
-- The emitter's `unreachable!` is not reached: a return never comes to `stmt`.
use u_flux.Prelude.{
  ℕ, ◌≡◌, refl, arith, Bool, true, false, [], ◌∷◌, Option, none, some, Outcome, ok, err, take,
  length, if◌then◌else◌, Text,
}
use u_flux.Trans.Ast.{
  int, str, char, var, assign, binary, logical, unary, pre, post, call, index, argc, stream, argv,
  byte, null, eof_lit, ExprKind, Expr, expr, Args, no_args, arg,
}
use u_flux.Trans.Emit.Expressions.{
  Fault, refused, out_of_range, unreachable, Slots, decode_char, decode_inner, escape_value,
  escape_or, find_slot, slot_or, slot_of, counted_call, vararg_fixed_params, after_args, count_args,
  expr_code, kind_code, args_code,
}
use u_flux.Trans.Emit.Code.{Code}
use u_flux.Trans.Emit.State.{State, Buf, M, emit_expr, in_buf, appended, restored}
use u_flux.Trans.Token.{Error}

-- The outcome is not `unreachable!`.
abbrev pub is_calm : {A : Type 0} → Outcome Fault A → Bool
is_calm (ok a) = true
is_calm (err (refused e)) = true
is_calm (err out_of_range) = true
is_calm (err unreachable) = false

abbrev pub Calm : {A : Type 0} → Outcome Fault A → Type 0
Calm o = is_calm o ≡ true

escape_or-Calm : (l c : ℕ) (esc : Text) (o : Option ℕ) → Calm (escape_or l c esc o)
escape_or-Calm l c esc none = refl
escape_or-Calm l c esc (some v) = refl

decode_inner-Calm : (l c : ℕ) (t : Text) → Calm (decode_inner l c t)
decode_inner-Calm l c [] = refl
decode_inner-Calm l c (x ∷ esc) = ground (arith, escape_or-Calm l c esc (escape_value esc))

decode_char-Calm : (l c : ℕ) (t : Text) → Calm (decode_char l c t)
unfolding decode_char
decode_char-Calm l c [] = refl
decode_char-Calm l c (q ∷ []) = refl
decode_char-Calm l c (q ∷ x ∷ rest) = decode_inner-Calm l c (take (length rest) (x ∷ rest))

slot_or-Calm : (l c : ℕ) (name : Text) (o : Option Text) → Calm (slot_or l c name o)
slot_or-Calm l c name none = refl
slot_or-Calm l c name (some slot) = refl

slot_of-Calm : (slots : Slots) (name : Text) (l c : ℕ) → Calm (slot_of slots name l c)
unfolding slot_of
slot_of-Calm slots name l c = slot_or-Calm l c name (find_slot slots name)

counted_call-Calm : (name : Text) (n l c : ℕ) (o : Option ℕ) → Calm (counted_call name n l c o)
counted_call-Calm name n l c none = refl
counted_call-Calm name n l c (some fixed) = ground arith

after_args-Calm : (name : Text) (n l c : ℕ) → Calm (after_args name n l c)
unfolding after_args
after_args-Calm name n l c = ground (arith, counted_call-Calm name n l c (vararg_fixed_params name))

mutual
  unfolding expr_code

  expr_code-Calm : (slots : Slots) (e : Expr) → Calm (expr_code slots e)
  expr_code-Calm slots (expr k l c) = kind_code-Calm slots k l c

  kind_code-Calm : (slots : Slots) (k : ExprKind) (l c : ℕ) → Calm (kind_code slots k l c)
  kind_code-Calm slots (int t) l c = refl
  kind_code-Calm slots (str t) l c = refl
  kind_code-Calm slots (char t) l c = ground (arith, decode_char-Calm l c t)
  kind_code-Calm slots (var name) l c = ground (arith, slot_of-Calm slots name l c)
  kind_code-Calm slots (assign name op value) l c =
      ground (arith, slot_of-Calm slots name l c, expr_code-Calm slots value)
  kind_code-Calm slots (binary op lhs rhs) l c =
      ground (arith, expr_code-Calm slots lhs, expr_code-Calm slots rhs)
  kind_code-Calm slots (logical op lhs rhs) l c =
      ground (arith, expr_code-Calm slots lhs, expr_code-Calm slots rhs)
  kind_code-Calm slots (unary op operand) l c = ground (arith, expr_code-Calm slots operand)
  kind_code-Calm slots (pre name up) l c = ground (arith, slot_of-Calm slots name l c)
  kind_code-Calm slots (post name up) l c = ground (arith, slot_of-Calm slots name l c)
  kind_code-Calm slots (call name es) l c =
      ground (arith, args_code-Calm slots es, after_args-Calm name (count_args es) l c)
  kind_code-Calm slots (index name i) l c =
      ground (arith, slot_of-Calm slots name l c, expr_code-Calm slots i)
  kind_code-Calm slots argc l c = refl
  kind_code-Calm slots (stream s) l c = refl
  kind_code-Calm slots (argv i) l c = ground (arith, expr_code-Calm slots i)
  kind_code-Calm slots (byte e) l c = ground (arith, expr_code-Calm slots e)
  kind_code-Calm slots null l c = refl
  kind_code-Calm slots eof_lit l c = refl

  args_code-Calm : (slots : Slots) (es : Args) → Calm (args_code slots es)
  args_code-Calm slots no_args = refl
  args_code-Calm slots (arg e es) = ground (arith, expr_code-Calm slots e, args_code-Calm slots es)

-- A method's outcome is regular: a result, an error of the source, or a slice out of range.
pub data Regular {A : Type 0} : Outcome Fault (A × State) → Type 0 where
  returns : {a : A} {s : State} → Regular (ok (a, s))
  refuses : {e : Error} → Regular (err (refused e))
  slices : Regular (err out_of_range)

abbrev pub Safe : {A : Type 0} → M A → Type 0
Safe m = (s : State) → Regular (m s)

pub Regular-calm : {A : Type 0} {o : Outcome Fault (A × State)} → Regular o → is_calm o ≡ true
Regular-calm returns = refl
Regular-calm refuses = refl
Regular-calm slices = refl

-- A method, then `f` on its result.
pub Regular-bind :
    {A B : Type 0} (f : A → M B) {r : Outcome Fault (A × State)}
    → Regular r
    → ((a : A) (t : State) → Regular (f a t))
    → Regular (elim r [ err x ↦ err x | ok (a, t) ↦ f a t ])
Regular-bind f (returns {a = a} {s = t}) k = k a t
Regular-bind f refuses k = refuses
Regular-bind f slices k = slices

Regular-restored :
    {A : Type 0} (b : Buf) {r : Outcome Fault (A × State)} → Regular r → Regular (restored b r)
Regular-restored b returns = returns
Regular-restored b refuses = refuses
Regular-restored b slices = slices

pub in_buf-Safe : {A : Type 0} (ws : Code) (m : M A) → Safe m → Safe (in_buf ws m)
unfolding in_buf
in_buf-Safe ws m h s =
    Regular-restored s.buf (h (record s { buf = record { code = ws; labels = [] } }))

pub Regular-if :
    {A : Type 0} {x y : Outcome Fault (A × State)} (b : Bool)
    → Regular x
    → Regular y
    → Regular (if b then x else y)
Regular-if true h k = h
Regular-if false h k = k

appended-Regular : (s : State) (o : Outcome Fault Code) → Calm o → Regular (appended s o)
appended-Regular s (ok ws) h = returns
appended-Regular s (err (refused e)) h = refuses
appended-Regular s (err out_of_range) h = slices
appended-Regular s (err unreachable) h = cc

pub emit_expr-Safe : (e : Expr) → Safe (emit_expr e)
unfolding emit_expr
emit_expr-Safe e s = appended-Regular s _ (expr_code-Calm s.ctx.slots e)
