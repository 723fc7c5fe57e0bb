-- ===== src/Trans/Parser/Expressions.antt =====
-- `unary`, `postfix`, `primary`, `assignment` and `expr` of trans/src/parser.rs. Those that call
-- `expr` for what stands in brackets take it as `ex`; `expr` itself recurs on fuel.
use u_flux.Prelude.{
  ℕ, zero, suc, Bool, true, false, ◌&&◌, ◌||◌, List, [], ◌∷◌, ◌++◌, Option, none, some, err,
  if◌then◌else◌, Text, codes, text_eq,
}
use u_flux.Trans.Token.{Kind, punct, ident, kind_eq, Token, is_punct, one_of, fuel}
use u_flux.Trans.Ast.{
  BinOp, add, sub, mul, UnOp, neg, not_op, bit_not, stdout, stdin, stderr, ExprKind, var, assign,
  unary, pre, post, call, index, argc, stream, argv, byte, null, eof_lit, Expr, expr, Args, no_args,
  arg,
}
use u_flux.Trans.Parser.State.{
  M, ◌>>=◌, ◌>>◌, pure, fail, next_or, bump, expect_punct, expect_ident,
}
use u_flux.Trans.Parser.Operators.{rounds, logical_or}

abbrev pub assign_ops : List Text
assign_ops = codes "=" ∷ codes "+=" ∷ codes "-=" ∷ codes "*=" ∷ codes "/=" ∷ codes "%=" ∷ []

unfoldable pub is_assign_op : Text → Bool
unfolding one_of
is_assign_op s = one_of assign_ops s

abbrev pub compound : Text → Option BinOp
compound s =
    if text_eq s (codes "+=")
    then some add
    else if text_eq s (codes "-=")
    then some sub
    else if text_eq s (codes "*=")
    then some mul
    else none

abbrev pub node : ExprKind → Token → Expr
node k t = expr k t.line t.col

-- `++name` and `--name` at the operator `t`.
abbrev pub step_node : Token → Token → Expr
step_node t n = node (pre n.text (text_eq t.text (codes "++"))) t

-- `name[expr]` and `name(expr)` behind their first bracket.
module _ (ex : M Expr) where
  abbrev pub closed_by : Text → (Expr → ExprKind) → Token → M Expr
  closed_by close k t = do e ← ex; expect_punct close; pure (node (k e) t)

  abbrev pub bracketed : Text → Text → (Expr → ExprKind) → Token → M Expr
  bracketed open_ close k t = expect_punct open_ >> closed_by close k t

  -- `while self.peek().is_punct(",")`
  unfoldable pub more_args : ℕ → M Args
  unfolding is_punct bump
  more_args zero p = err fuel
  more_args (suc f) p = elim (is_punct p.cur (codes ",")) [
    | false ↦ pure no_args p
    | true ↦ (bump >> ex >>= λ e. more_args f >>= λ es. pure (arg e es)) p
  ]

  unfoldable pub args : M Args
  unfolding more_args is_punct
  args p =
      if is_punct p.cur (codes ")")
      then pure no_args p
      else (ex >>= λ e q. (more_args (rounds q) >>= λ es. pure (arg e es)) q) p

  abbrev pub call_args : Token → M Expr
  call_args t = do es ← args; expect_punct (codes ")"); pure (node (call t.text es) t)

  -- What follows a name that is no builtin.
  unfoldable pub after_name : Token → M Expr
  unfolding args is_punct bump expect_punct
  after_name t p =
      if is_punct p.cur (codes "(")
      then (bump >> call_args t) p
      else if is_punct p.cur (codes "[")
      then (bump >> closed_by (codes "]") (index t.text) t) p
      else pure (node (var t.text) t) p

  unfoldable pub name : Token → M Expr
  unfolding after_name expect_punct text_eq
  name t p =
      if text_eq t.text (codes "argc")
      then pure (node argc t) p
      else if text_eq t.text (codes "stdout")
      then pure (node (stream stdout) t) p
      else if text_eq t.text (codes "stdin")
      then pure (node (stream stdin) t) p
      else if text_eq t.text (codes "stderr")
      then pure (node (stream stderr) t) p
      else if text_eq t.text (codes "argv")
      then bracketed (codes "[") (codes "]") argv t p
      else if text_eq t.text (codes "__byte")
      then bracketed (codes "(") (codes ")") byte t p
      else if text_eq t.text (codes "NULL")
      then pure (node null t) p
      else if text_eq t.text (codes "EOF")
      then pure (node eof_lit t) p
      else after_name t p

  abbrev pub unexpected : Token → M Expr
  unexpected t = fail t.line t.col (codes "unexpected token '" ++ (t.text ++ codes "'"))

  abbrev pub parenthesised : M Expr
  parenthesised = do bump; e ← ex; expect_punct (codes ")"); pure e

  abbrev pub primary_of : Kind → Token → M Expr
  primary_of Kind.int t = bump >> pure (node (ExprKind.int t.text) t)
  primary_of Kind.str t = bump >> pure (node (ExprKind.str t.text) t)
  primary_of Kind.char t = bump >> pure (node (ExprKind.char t.text) t)
  primary_of Kind.punct t =
      λ p. if text_eq t.text (codes "(") then parenthesised p else unexpected t p
  primary_of Kind.ident t = bump >> name t
  primary_of Kind.eof t = unexpected t

  unfoldable pub primary : M Expr
  unfolding name bump expect_punct text_eq
  primary p = primary_of p.cur.kind p.cur p

  abbrev pub is_step : Token → Bool
  is_step t = is_punct t (codes "++") || is_punct t (codes "--")

  abbrev pub stepped : ExprKind → Expr → Token → M Expr
  stepped (var n) e t = bump >> pure (node (post n (text_eq t.text (codes "++"))) t)
  stepped k e t = fail t.line t.col (codes "postfix ++ needs a variable")

  abbrev pub stepped_expr : Expr → Token → M Expr
  stepped_expr (expr k l c) t = stepped k (expr k l c) t

  unfoldable pub postfix : M Expr
  unfolding primary is_punct bump text_eq
  postfix = primary >>= λ e p. if is_step p.cur then stepped_expr e p.cur p else pure e p

  abbrev pub prefix_step : Token → M Expr
  prefix_step t = do bump; n ← expect_ident; pure (step_node t n)

  abbrev pub unary_node : UnOp → Token → M Expr → M Expr
  unary_node op t operand = bump >> operand >>= λ e. pure (node (unary op e) t)

  -- `unary` on a punctuation token, with the recursive call as `again`.
  unfoldable pub unary_punct : M Expr → Token → M Expr
  unfolding postfix bump expect_ident text_eq
  unary_punct again t p =
      if text_eq t.text (codes "-")
      then unary_node neg t again p
      else if text_eq t.text (codes "!")
      then unary_node not_op t again p
      else if text_eq t.text (codes "~")
      then unary_node bit_not t again p
      else if text_eq t.text (codes "+")
      then (bump >> again) p
      else if text_eq t.text (codes "++") || text_eq t.text (codes "--")
      then prefix_step t p
      else postfix p

  unfoldable pub unary_fuel : ℕ → M Expr
  unfolding unary_punct postfix
  unary_fuel zero p = err fuel
  unary_fuel (suc f) p =
      if kind_eq p.cur.kind punct then unary_punct (unary_fuel f) p.cur p else postfix p

  unfoldable pub unary_expr : M Expr
  unfolding unary_fuel
  unary_expr p = unary_fuel (rounds p) p

  abbrev pub assign_node : Token → Token → M Expr → M Expr
  assign_node name_tok op_tok value p =
      if text_eq op_tok.text (codes "/=") || text_eq op_tok.text (codes "%=")
      then fail op_tok.line op_tok.col (codes "no division in subset") p
      else (value >>= λ v. pure (node (assign name_tok.text (compound op_tok.text) v) name_tok)) p

  -- An assignment target is a bare identifier directly before an assignment operator.
  abbrev pub at_assignment : Token → Token → Bool
  at_assignment t u = kind_eq t.kind ident && kind_eq u.kind punct && is_assign_op u.text

  unfoldable pub assignment : ℕ → M Expr
  unfolding logical_or unary_expr bump is_assign_op text_eq
  assignment zero p = err fuel
  assignment (suc f) p =
      let value = assignment f in
      if at_assignment p.cur (next_or p.cur p.later)
      then (bump >>= λ name_tok. bump >>= λ op_tok. assign_node name_tok op_tok value) p
      else logical_or unary_expr p

-- `expr`; the fuel bounds the nesting of brackets.
unfoldable pub expression : ℕ → M Expr
unfolding assignment
expression zero p = err fuel
expression (suc f) p = assignment (expression f) (rounds p) p
