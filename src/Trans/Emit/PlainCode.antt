-- ===== src/Trans/Emit/PlainCode.antt =====
-- The code of an expression quotes and defines no label.
use u_flux.Prelude.{
  ℕ, ◌≡◌, refl, arith, Bool, true, false, ◌&&◌, [], ◌∷◌, ◌++◌, Option, none, some, Outcome, ok, err,
  ◌>>=◌, Text,
}
use u_flux.Trans.Ast.{
  BinOp, LogicOp, logic_and, logic_or, UnOp, neg, not_op, bit_not, int, str, char, var, assign,
  binary, logical, unary, pre, post, call, index, argc, stream, argv, byte, null, eof_lit, ExprKind,
  Expr, expr, Args, no_args, arg,
}
use u_flux.Trans.Emit.Code.{Code, plain, heading, quote, define}
use u_flux.Trans.Emit.Expressions.{
  Fault, Slots, decode_char, slot_of, counted_call, vararg_fixed_params, after_args, count_args,
  expr_code, kind_code, args_code, unary_before, unary_after, logic_code, assigned,
}

abbrev pub is_plain : Code → Bool
is_plain [] = true
is_plain (plain t ∷ ws) = is_plain ws
is_plain (heading t ∷ ws) = false
is_plain (quote l n ∷ ws) = false
is_plain (define l n ∷ ws) = false

is_plain-append : (a b : Code) → is_plain (a ++ b) ≡ (is_plain a && is_plain b)
is_plain-append [] b = refl
is_plain-append (plain t ∷ a) b = is_plain-append a b
is_plain-append (heading t ∷ a) b = refl
is_plain-append (quote l n ∷ a) b = refl
is_plain-append (define l n ∷ a) b = refl

pub append-plain : (a b : Code) → is_plain a ≡ true → is_plain b ≡ true → is_plain (a ++ b) ≡ true
append-plain a b h k = rw (is_plain-append, h, k)

-- A result meets `Q`, or there is none.
pub data Yields {A : Type 0} (Q : A → Type 0) : Outcome Fault A → Type 0 where
  yields : {a : A} → Q a → Yields Q (ok a)
  raises : {e : Fault} → Yields Q (err e)

abbrev Any : Text → Type 0
Any t = Unit {0}

abbrev AnyNumber : ℕ → Type 0
AnyNumber n = Unit {0}

abbrev pub IsPlain : Code → Type 0
IsPlain ws = is_plain ws ≡ true

Yields-bind :
    {A B : Type 0} {Q : A → Type 0} {R : B → Type 0} (f : A → Outcome Fault B) {r : Outcome Fault A}
    → Yields Q r
    → ((a : A) → Q a → Yields R (f a))
    → Yields R (r >>= f)
Yields-bind f (yields {a = a} h) k = k a h
Yields-bind f raises k = raises

Yields-Any : (r : Outcome Fault Text) → Yields Any r
Yields-Any (ok t) = yields tt
Yields-Any (err e) = raises

Yields-AnyNumber : (r : Outcome Fault ℕ) → Yields AnyNumber r
Yields-AnyNumber (ok n) = yields tt
Yields-AnyNumber (err e) = raises

abbrev plain_result : Outcome Fault Code → Bool
plain_result (ok ws) = is_plain ws
plain_result (err e) = true

Yields-plain_result : (r : Outcome Fault Code) → plain_result r ≡ true → Yields IsPlain r
Yields-plain_result (ok ws) h = yields h
Yields-plain_result (err e) h = raises

counted_call-plain :
    (name : Text) (n l c : ℕ) (o : Option ℕ) → plain_result (counted_call name n l c o) ≡ true
counted_call-plain name n l c none = refl
counted_call-plain name n l c (some fixed) = ground arith

after_args-IsPlain : (name : Text) (n l c : ℕ) → Yields IsPlain (after_args name n l c)
unfolding after_args
after_args-IsPlain name n l c =
    Yields-plain_result _ (ground (arith, counted_call-plain name n l c (vararg_fixed_params name)))

three-plain :
    (a b c : Code)
    → is_plain a ≡ true
    → is_plain b ≡ true
    → is_plain c ≡ true
    → is_plain (a ++ (b ++ c)) ≡ true
three-plain a b c h k j = append-plain a (b ++ c) h (append-plain b c k j)

unary_before-plain : (op : UnOp) → is_plain (unary_before op) ≡ true
unary_before-plain neg = refl
unary_before-plain bit_not = refl
unary_before-plain not_op = refl

unary_after-plain : (op : UnOp) → is_plain (unary_after op) ≡ true
unary_after-plain neg = refl
unary_after-plain bit_not = refl
unary_after-plain not_op = refl

logic_code-plain : (op : LogicOp) → is_plain (logic_code op) ≡ true
logic_code-plain logic_and = refl
logic_code-plain logic_or = refl

assigned-plain :
    (slot : Text) (op : Option BinOp) (v : Code)
    → is_plain v ≡ true
    → is_plain (assigned slot op v) ≡ true
assigned-plain slot none v h = append-plain v _ h refl
assigned-plain slot (some op) v h = append-plain v _ h refl

mutual
  unfolding expr_code

  -- The code that an expression gives has no label in it.
  pub expr_code-IsPlain : (slots : Slots) (e : Expr) → Yields IsPlain (expr_code slots e)
  expr_code-IsPlain slots (expr k l c) = kind_code-IsPlain slots k l c

  kind_code-IsPlain :
      (slots : Slots) (k : ExprKind) (l c : ℕ) → Yields IsPlain (kind_code slots k l c)
  kind_code-IsPlain slots (int t) l c = yields refl
  kind_code-IsPlain slots (str t) l c = yields refl
  kind_code-IsPlain slots (char t) l c =
      Yields-bind _ (Yields-AnyNumber (decode_char l c t)) (λ v _. yields refl)
  kind_code-IsPlain slots (var name) l c =
      Yields-bind _ (Yields-Any (slot_of slots name l c)) (λ s _. yields refl)
  kind_code-IsPlain slots (assign name op value) l c =
      Yields-bind _ (Yields-Any (slot_of slots name l c)) (λ s _.
        Yields-bind _ (expr_code-IsPlain slots value) (λ v h. yields (assigned-plain s op v h)))
  kind_code-IsPlain slots (binary op lhs rhs) l c =
      Yields-bind _ (expr_code-IsPlain slots lhs) (λ a h.
        Yields-bind _ (expr_code-IsPlain slots rhs) (λ b k. yields (three-plain a b _ h k refl)))
  kind_code-IsPlain slots (logical op lhs rhs) l c =
      Yields-bind _ (expr_code-IsPlain slots lhs) (λ a h.
        Yields-bind _ (expr_code-IsPlain slots rhs)
          (λ b k. yields (three-plain a b _ h k (logic_code-plain op))))
  kind_code-IsPlain slots (unary op operand) l c =
      Yields-bind _ (expr_code-IsPlain slots operand) (λ v h.
        yields (three-plain (unary_before op) v _ (unary_before-plain op) h (unary_after-plain op)))
  kind_code-IsPlain slots (pre name up) l c =
      Yields-bind _ (Yields-Any (slot_of slots name l c)) (λ s _. yields refl)
  kind_code-IsPlain slots (post name up) l c =
      Yields-bind _ (Yields-Any (slot_of slots name l c)) (λ s _. yields refl)
  kind_code-IsPlain slots (call name es) l c = Yields-bind _ (args_code-IsPlain slots es) (λ v h.
      Yields-bind _ (after_args-IsPlain name (count_args es) l c)
        (λ s k. yields (append-plain v s h k)))
  kind_code-IsPlain slots (index name i) l c =
      Yields-bind _ (Yields-Any (slot_of slots name l c))
        (λ s _. Yields-bind _ (expr_code-IsPlain slots i) (λ v h. yields (append-plain v _ h refl)))
  kind_code-IsPlain slots argc l c = yields refl
  kind_code-IsPlain slots (stream s) l c = yields refl
  kind_code-IsPlain slots (argv i) l c =
      Yields-bind _ (expr_code-IsPlain slots i) (λ v h. yields (append-plain v _ h refl))
  kind_code-IsPlain slots (byte e) l c =
      Yields-bind _ (expr_code-IsPlain slots e) (λ v h. yields (append-plain v _ h refl))
  kind_code-IsPlain slots null l c = yields refl
  kind_code-IsPlain slots eof_lit l c = yields refl

  args_code-IsPlain : (slots : Slots) (es : Args) → Yields IsPlain (args_code slots es)
  args_code-IsPlain slots no_args = yields refl
  args_code-IsPlain slots (arg e es) =
      Yields-bind _ (expr_code-IsPlain slots e)
        (λ v h. Yields-bind _ (args_code-IsPlain slots es) (λ vs k. yields (append-plain v vs h k)))
