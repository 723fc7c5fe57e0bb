-- ===== src/Trans/Emit/State.antt =====
-- The emitter's state (`Emitter`, `FnCtx` and `Buf` of trans/src/emit.rs) and what its methods do to
-- it: labels and slots are numbered, code is appended.
use u_flux.Prelude.{
  ℕ, ◌+◌, Bool, List, [], ◌∷◌, ◌++◌, Option, Outcome, ok, err, Text, codes, show_ℕ,
}
use u_flux.Trans.Ast.{Expr}
use u_flux.Trans.Emit.Code.{Code}
use u_flux.Trans.Emit.Expressions.{Fault, Slots, expr_code}

pub record Emitter : Type 0 where
  pub out : Code
  pub hoisted : Code
  pub hoisted_guards : Code
  pub next_label : ℕ
  pub next_slot : ℕ

-- `loops` holds the number of a `for` loop's step label, the innermost loop first.
pub record FnCtx : Type 0 where
  pub is_main : Bool
  pub slots : Slots
  pub loops : List (Option ℕ)

pub record Buf : Type 0 where
  pub code : Code
  pub labels : Code

-- What the methods take by reference.
pub record State : Type 0 where
  pub self : Emitter
  pub ctx : FnCtx
  pub buf : Buf

abbrev pub M : Type 0 → Type 0
M A = State → Outcome Fault (A × State)

infixl 5 ◌>>=◌ ◌>>◌
abbrev pub ◌>>=◌ : {A B : Type 0} → M A → (A → M B) → M B
◌>>=◌ m f s = elim (m s) [ err e ↦ err e | ok (a, t) ↦ f a t ]

abbrev pub ◌>>◌ : {A B : Type 0} → M A → M B → M B
m >> k = m >>= λ _. k

abbrev pub pure : {A : Type 0} → A → M A
pure a s = ok (a, s)

abbrev pub stop : {A : Type 0} → Fault → M A
stop e s = err e

-- `buf.code.push_str(...)`, `buf.labels.push_str(...)` and the same for the hoisted labels.
abbrev pub put : Code → M (Unit {0})
put ws s = ok (tt, record s { buf = record (s.buf) { code = s.buf.code ++ ws } })

abbrev pub put_labels : Code → M (Unit {0})
put_labels ws s = ok (tt, record s { buf = record (s.buf) { labels = s.buf.labels ++ ws } })

abbrev pub hoist : Code → M (Unit {0})
hoist ws s = ok (tt, record s { self = record (s.self) { hoisted = s.self.hoisted ++ ws } })

abbrev pub hoist_guard : Code → M (Unit {0})
hoist_guard ws s =
    ok (tt, record s { self = record (s.self) { hoisted_guards = s.self.hoisted_guards ++ ws } })

abbrev pub fresh_label : M ℕ
fresh_label s = ok (
  s.self.next_label + 1,
  record s { self = record (s.self) { next_label = s.self.next_label + 1 } },
)

abbrev pub fresh_slot : M Text
fresh_slot s = ok (
  codes "v" ++ show_ℕ s.self.next_slot,
  record s { self = record (s.self) { next_slot = s.self.next_slot + 1 } },
)

-- `ctx.slots.insert(name, slot)`
abbrev pub bind_slot : Text → Text → M (Unit {0})
bind_slot name slot s =
    ok (tt, record s { ctx = record (s.ctx) { slots = (name, slot) ∷ s.ctx.slots } })

abbrev pub push_loop : Option ℕ → M (Unit {0})
push_loop l s = ok (tt, record s { ctx = record (s.ctx) { loops = l ∷ s.ctx.loops } })

abbrev pub tail : List (Option ℕ) → List (Option ℕ)
tail [] = []
tail (l ∷ ls) = ls

abbrev pub pop_loop : M (Unit {0})
pop_loop s = ok (tt, record s { ctx = record (s.ctx) { loops = tail s.ctx.loops } })

-- A call with a new buffer that starts with the code `ws`: the result and what the buffer holds.
abbrev pub restored :
    {A : Type 0} → Buf → Outcome Fault (A × State) → Outcome Fault ((A × Buf) × State)
restored b (err e) = err e
restored b (ok (a, t)) = ok ((a, t.buf), record t { buf = b })

unfoldable pub in_buf : {A : Type 0} → Code → M A → M (A × Buf)
in_buf ws m s = restored s.buf (m (record s { buf = record { code = ws; labels = [] } }))

abbrev pub appended : State → Outcome Fault Code → Outcome Fault (Unit {0} × State)
appended s (err e) = err e
appended s (ok ws) = put ws s

-- `self.expr(buf, e, ctx)?`
unfoldable pub emit_expr : Expr → M (Unit {0})
unfolding expr_code
emit_expr e s = appended s (expr_code s.ctx.slots e)
