-- ===== src/Trans/Emit/Statements.antt =====
-- `stmt_list`, `return_stmt`, `stmt` and `declare` of trans/src/emit.rs. A statement is emitted in
-- two ways, as a statement and, through `stmt_of`, as the list of a branch or of a loop's body: the
-- record `Emission` holds both.
use u_flux.Prelude.{
  ℕ, Bool, true, false, List, [], ◌∷◌, ◌++◌, Option, none, some, if◌then◌else◌, Text, codes,
  contains, show_ℕ,
}
use u_flux.Trans.Ast.{
  Expr, Declarator, ForInit, init_decl, init_expr, Stmt, decl, return_, if_, while_, do_while, for_,
  break_, continue_, block, expr_stmt, empty, Else, no_else, else_, Stmts, nil, cons,
  contains_return,
}
use u_flux.Trans.Emit.Code.{
  Code, letter_i, letter_e, letter_c, letter_b, letter_n, plain, quote, define, Letter, str,
  followed,
}
use u_flux.Trans.Emit.Expressions.{unreachable, refused}
use u_flux.Trans.Emit.State.{
  Buf, M, ◌>>=◌, ◌>>◌, pure, stop, put, put_labels, hoist, hoist_guard, fresh_label, fresh_slot,
  bind_slot, push_loop, pop_loop, in_buf, emit_expr,
}

pub data ListCtx : Type 0 where
  fn_body label_body : ListCtx

abbrev pub builtins : List Text
builtins =
    codes "argc"
    ∷ codes "argv"
    ∷ codes "__byte"
    ∷ codes "NULL"
    ∷ codes "EOF"
    ∷ codes "stdout"
    ∷ codes "stdin"
    ∷ codes "stderr"
    ∷ []

unfoldable pub declare : Declarator → M Text
unfolding contains show_ℕ
declare d =
    if contains builtins d.name
    then stop (
        refused (record {
          line = d.line;
          col = d.col;
          msg = codes "cannot declare builtin '" ++ (d.name ++ codes "'");
        }))
    else fresh_slot >>= λ slot. bind_slot d.name slot >> pure slot

abbrev pub initialise : Text → Option Expr → M (Unit {0})
initialise slot none = pure tt
initialise slot (some e) = emit_expr e >> put (followed slot "!\n")

unfoldable pub declare_all : List Declarator → M (Unit {0})
unfolding declare emit_expr
declare_all [] = pure tt
declare_all (d ∷ ds) = declare d >>= λ slot. initialise slot d.init >> declare_all ds

-- `0 ret` unless the code has ended in a return.
abbrev pub terminator : Bool → Code
terminator true = []
terminator false = str "0 ret\n"

-- A construct label with its body's code, and the labels of the body behind it.
abbrev pub definition : Letter → ℕ → Bool × Buf → Code
definition l n (terminated, b) = (define l n ∷ b.code) ++ (terminator terminated ++ b.labels)

unfoldable pub return_code : Expr → ListCtx → M Bool
unfolding emit_expr
return_code e lctx s =
    (emit_expr e >> (λ t.
        if t.ctx.is_main then (put (str "_call exit\n") >> pure false) t else elim lctx [
          | label_body ↦ (put (str "rv! 1 fr! 0 ret\n") >> pure true) t
          | fn_body ↦ (put (str "rv! 1 fr!\n") >> pure false) t
        ]))
      s

-- How a list goes on behind a statement that may have returned.
unfoldable pub guard_rest : (ListCtx → M Bool) → M Bool
guard_rest rest = do
  c ← fresh_label
  b ← fresh_label
  put (str "fr " ++ (quote letter_c c ∷ str " " ++ (quote letter_b b ∷ str " if_else\n")))
  r ← in_buf [] (rest label_body)
  hoist_guard (definition letter_b b r)
  hoist_guard (define letter_c c ∷ str "0 ret\n")
  pure false

unfoldable pub returned : Stmt → Option Expr
returned (return_ e l c) = some e
returned _ = none

abbrev pub turn :
    Bool → (ListCtx → M (Unit {0})) → (ListCtx → M Bool) → ListCtx → Option Expr → M Bool
turn may_return one rest lctx (some e) = return_code e lctx
turn may_return one rest lctx none = one lctx >> (if may_return then guard_rest rest else rest lctx)

-- One turn of `stmt_list` at `s`, which `one` emits, with the rest of the list.
unfoldable pub list_step : Stmt → (ListCtx → M (Unit {0})) → (ListCtx → M Bool) → ListCtx → M Bool
unfolding return_code guard_rest contains_return returned
list_step s one rest lctx = turn (contains_return s) one rest lctx (returned s)

unfoldable pub jump_code : M (Unit {0})
jump_code s = elim s.ctx.loops [
  | some inc ∷ ls ↦ put (str "1 " ++ (quote letter_n inc ∷ str " if continue\n")) s
  | none ∷ ls ↦ put (str "continue\n") s
  | [] ↦ put (str "continue\n") s
]

abbrev if_words : ℕ → Option ℕ → Code
if_words t none = quote letter_i t ∷ str " if\n"
if_words t (some e) = quote letter_i t ∷ str " " ++ (quote letter_e e ∷ str " if_else\n")

abbrev pub label_for : Option (ListCtx → M Bool) → M (Option ℕ)
label_for none = pure none
label_for (some els) = fresh_label >>= λ e. pure (some e)

abbrev pub else_code : Option ℕ → Option (ListCtx → M Bool) → M (Unit {0})
else_code (some e) (some els) =
    in_buf [] (els label_body) >>= λ r. put_labels (definition letter_e e r)
else_code _ _ = pure tt

unfoldable pub if_code : Expr → (ListCtx → M Bool) → Option (ListCtx → M Bool) → M (Unit {0})
unfolding emit_expr
if_code cond then_list else_list = do
  emit_expr cond
  t ← fresh_label
  e ← label_for else_list
  put (if_words t e)
  r ← in_buf [] (then_list label_body)
  put_labels (definition letter_i t r)
  else_code e else_list

abbrev loop_words : ℕ → ℕ → Code
loop_words c b = quote letter_c c ∷ str " " ++ (quote letter_b b ∷ str " while\n")

-- The label of a loop's condition, behind the labels of the condition.
abbrev condition_label : ℕ → Buf → Code
condition_label c b = b.labels ++ (define letter_c c ∷ str "fr not " ++ (b.code ++ str "and ret\n"))

unfoldable pub while_code : Expr → (ListCtx → M Bool) → M (Unit {0})
unfolding emit_expr
while_code cond body = do
  c ← fresh_label
  b ← fresh_label
  k ← in_buf [] (emit_expr cond)
  put_labels (condition_label c k.1)
  push_loop none
  r ← in_buf [] (body label_body)
  pop_loop
  put_labels (definition letter_b b r)
  put (loop_words c b)

abbrev flag : ℕ → Text
flag df = codes "df" ++ show_ℕ df

unfoldable pub do_code : (ListCtx → M Bool) → Expr → M (Unit {0})
unfolding emit_expr show_ℕ
do_code body cond = do
  df ← fresh_label
  c ← fresh_label
  b ← fresh_label
  put (plain (codes "1 " ++ (flag df ++ codes "!\n")) ∷ [])
  push_loop none
  r ← in_buf (plain (codes "0 " ++ (flag df ++ codes "!\n")) ∷ []) (body label_body)
  pop_loop
  put_labels (definition letter_b b r)
  k ← in_buf [] (emit_expr cond)
  put_labels (
      k.1.labels
      ++ (define letter_c c
          ∷ plain (codes "fr not " ++ (flag df ++ codes " "))
          ∷ (k.1.code ++ str "or and ret\n")))
  put (loop_words c b)

abbrev pub init_code : Option ForInit → M (Unit {0})
init_code none = pure tt
init_code (some (init_decl d)) = declare d >>= λ slot. initialise slot d.init
init_code (some (init_expr e)) = emit_expr e >> put (str "\n")

abbrev pub condition_or_one : Option Expr → M (Unit {0})
condition_or_one none = put (str "1 ")
condition_or_one (some e) = emit_expr e

abbrev pub step_or_nothing : Option Expr → M (Unit {0})
step_or_nothing none = pure tt
step_or_nothing (some e) = emit_expr e

-- The body's code with the call of the step label behind it.
abbrev pub stepping : ℕ → Buf → Buf
stepping n b = record b { code = b.code ++ (str "fr not " ++ (quote letter_n n ∷ str " if\n")) }

unfoldable pub for_code :
    Option ForInit → Option Expr → Option Expr → (ListCtx → M Bool) → M (Unit {0})
unfolding emit_expr declare
for_code init cond step body = do
  init_code init
  c ← fresh_label
  b ← fresh_label
  n ← fresh_label
  k ← in_buf [] (condition_or_one cond)
  put_labels (condition_label c k.1)
  push_loop (some n)
  r ← in_buf [] (body label_body)
  pop_loop
  put_labels (definition letter_b b (r.0, stepping n r.1))
  p ← in_buf [] (step_or_nothing step)
  hoist p.1.labels
  hoist (define letter_n n ∷ p.1.code ++ str "0 ret\n")
  put (loop_words c b)

pub record Emission : Type 0 where
  pub as_stmt : ListCtx → M (Unit {0})
  pub as_list : ListCtx → M Bool

-- A statement that is no block, alone in its list.
abbrev pub alone : Stmt → M (Unit {0}) → Emission
alone s m = record { as_stmt = λ _. m; as_list = list_step s (λ _. m) (λ _. pure false) }

unfoldable mutual
  pub emission : Stmt → Emission
  emission (decl ds) = alone (decl ds) (declare_all ds)
  emission (expr_stmt e) = alone (expr_stmt e) (emit_expr e >> put (str "\n"))
  emission empty = alone empty (pure tt)
  emission (break_ l c) = alone (break_ l c) (put (str "break\n"))
  emission (continue_ l c) = alone (continue_ l c) jump_code
  emission (return_ e l c) = alone (return_ e l c) (stop unreachable)
  emission (if_ e s els) = alone (if_ e s els) (if_code e (emission s).as_list (else_list els))
  emission (while_ e s) = alone (while_ e s) (while_code e (emission s).as_list)
  emission (do_while s e) = alone (do_while s e) (do_code (emission s).as_list e)
  emission (for_ i e p s) = alone (for_ i e p s) (for_code i e p (emission s).as_list)
  emission (block ss) = record {
    as_stmt = λ lctx. stmt_list ss lctx >> pure tt;
    as_list = stmt_list ss;
  }

  pub else_list : Else → Option (ListCtx → M Bool)
  else_list no_else = none
  else_list (else_ s) = some ((emission s).as_list)

  pub stmt_list : Stmts → ListCtx → M Bool
  stmt_list nil lctx = pure false
  stmt_list (cons s ss) lctx = list_step s (emission s).as_stmt (stmt_list ss) lctx
