-- ===== src/Trans/Parser/Statements.antt =====
-- Statements, declarations and functions of trans/src/parser.rs. `ex` parses an expression and `st`
-- a nested statement; `statement` recurs on fuel, which bounds the nesting of statements.
use u_flux.Prelude.{
  ℕ, zero, suc, ◌+◌, ◌-◌, true, false, not, ◌&&◌, ◌||◌, List, [], ◌∷◌, Option, none, some, Outcome,
  ok, err, ◌==◌, if◌then◌else◌, Text, codes, text_eq,
}
use u_flux.Trans.Token.{ident, eof, kind_eq, Token, is_punct, is_ident, is_type_word, Failure, fuel}
use u_flux.Trans.Ast.{
  Expr, Stmt, if_, while_, do_while, for_, break_, continue_, block, expr_stmt, empty, Else,
  no_else, else_, Stmts, nil, cons, Function, Program,
}
use u_flux.Trans.Parser.State.{
  Parser, new, M, ◌>>=◌, ◌>>◌, pure, fail, peek, bump, expect_punct, expect_ident, set_depth, depth,
}
use u_flux.Trans.Parser.Operators.{rounds}
use u_flux.Trans.Parser.Expressions.{expression}
use u_flux.Trans.Parser.Declarations.{
  condition, for_init, declaration, ended, return_stmt, for_cond, for_post, type_spec, skip,
}

module _ (ex : M Expr) (st : M Stmt) where
  -- `self.loop_depth += 1; self.stmt()?; self.loop_depth -= 1`
  unfoldable pub loop_body : M Stmt
  loop_body = do d ← depth; set_depth (d + 1); s ← st; e ← depth; set_depth (e - 1); pure s

  abbrev pub else_part : M Else
  else_part p =
      if is_ident p.cur (codes "else")
      then (skip >> st >>= λ s. pure (else_ s)) p
      else pure no_else p

  unfoldable pub if_stmt : M Stmt
  unfolding bump expect_punct is_ident
  if_stmt = do skip; c ← condition ex; s ← st; els ← else_part; pure (if_ c s els)

  unfoldable pub while_stmt : M Stmt
  unfolding bump expect_punct loop_body
  while_stmt = do skip; c ← condition ex; s ← loop_body; pure (while_ c s)

  abbrev pub do_end : Stmt → M Stmt
  do_end s = do skip; c ← condition ex; expect_punct (codes ";"); pure (do_while s c)

  unfoldable pub do_stmt : M Stmt
  unfolding bump expect_punct loop_body is_ident
  do_stmt = skip >> loop_body >>= λ s p.
      if not (is_ident p.cur (codes "while"))
      then fail p.cur.line p.cur.col (codes "expected 'while' after do-body") p
      else do_end s p

  unfoldable pub for_stmt : M Stmt
  unfolding bump expect_punct loop_body for_init for_cond for_post
  for_stmt = do
    skip
    expect_punct (codes "(")
    i ← (for_init ex)
    c ← (for_cond ex)
    e ← (for_post ex)
    expect_punct (codes ")")
    s ← loop_body
    pure (for_ i c e s)

  -- `break` and `continue`, refused outside a loop.
  unfoldable pub jump_stmt : Text → Stmt → Token → M Stmt
  unfolding bump expect_punct
  jump_stmt msg s t = do
    skip
    expect_punct (codes ";")
    d ← depth
    if d == 0 then fail t.line t.col msg else pure s

  unfoldable pub stmts_fuel : ℕ → M Stmts
  unfolding is_punct
  stmts_fuel zero p = err fuel
  stmts_fuel (suc f) p = elim (not (is_punct p.cur (codes "}")) && not (kind_eq p.cur.kind eof)) [
    | true ↦ (st >>= λ s. stmts_fuel f >>= λ ss. pure (cons s ss)) p
    | false ↦ pure nil p
  ]

  -- Consumes the closing brace.
  unfoldable pub block_stmts : M Stmts
  unfolding stmts_fuel expect_punct
  block_stmts = do ss ← λ p. stmts_fuel (rounds p) p; expect_punct (codes "}"); pure ss

  abbrev pub expr_statement : M Stmt
  expr_statement = (ended ex) >>= λ e. pure (expr_stmt e)

  unfoldable pub plain_stmt : Token → M Stmt
  unfolding is_punct bump block_stmts expect_punct
  plain_stmt t =
      if is_punct t (codes "{")
      then (skip >> block_stmts >>= λ ss. pure (block ss))
      else if is_punct t (codes ";")
      then skip >> pure empty
      else expr_statement

  unfoldable pub keyword_stmt : Token → M Stmt
  unfolding return_stmt if_stmt while_stmt for_stmt do_stmt jump_stmt plain_stmt text_eq
  keyword_stmt t =
      if text_eq t.text (codes "return")
      then (return_stmt ex)
      else if text_eq t.text (codes "if")
      then if_stmt
      else if text_eq t.text (codes "while")
      then while_stmt
      else if text_eq t.text (codes "for")
      then for_stmt
      else if text_eq t.text (codes "do")
      then do_stmt
      else if text_eq t.text (codes "break")
      then jump_stmt (codes "break outside loop") (break_ t.line t.col) t
      else if text_eq t.text (codes "continue")
      then jump_stmt (codes "continue outside loop") (continue_ t.line t.col) t
      else plain_stmt t

  -- `stmt`, with the nested calls as `st`.
  unfoldable pub stmt_step : M Stmt
  unfolding keyword_stmt plain_stmt declaration is_type_word
  stmt_step p =
      if is_type_word p.cur
      then (declaration ex) p
      else if kind_eq p.cur.kind ident
      then keyword_stmt p.cur p
      else plain_stmt p.cur p

module _ (ex : M Expr) where
  unfoldable pub statement : ℕ → M Stmt
  unfolding stmt_step
  statement zero p = err fuel
  statement (suc f) p = stmt_step ex (statement f) p

-- The tokens between the brackets of a function's head.
unfoldable pub params_fuel : ℕ → M (List Text)
unfolding is_punct is_type_word bump expect_ident
params_fuel zero p = err fuel
params_fuel (suc f) p = elim (is_punct p.cur (codes ")")) [
  | true ↦ pure [] p
  | false ↦ elim (is_punct p.cur (codes ",") || is_type_word p.cur || is_punct p.cur (codes "*")) [
    | true ↦ (skip >> params_fuel f) p
    | false ↦ (expect_ident >>= λ t. params_fuel f >>= λ names. pure (t.text ∷ names)) p
  ]
]

module _ (ex : M Expr) (st : M Stmt) where
  unfoldable pub function : M Function
  unfolding type_spec expect_ident expect_punct params_fuel block_stmts
  function = do
    t ← peek
    type_spec
    name ← expect_ident
    expect_punct (codes "(")
    params ← λ p. params_fuel (rounds p) p
    expect_punct (codes ")")
    expect_punct (codes "{")
    body ← block_stmts ex st
    pure (record { name = name.text; params = params; body = body; line = t.line; col = t.col })

  unfoldable pub functions_fuel : ℕ → M (List Function)
  unfolding function
  functions_fuel zero p = err fuel
  functions_fuel (suc f) p = elim (kind_eq p.cur.kind eof) [
    | true ↦ pure [] p
    | false ↦ (function >>= λ g. functions_fuel f >>= λ gs. pure (g ∷ gs)) p
  ]

  unfoldable pub program : M Program
  unfolding functions_fuel
  program = do gs ← λ p. functions_fuel (rounds p) p; pure (record { functions = gs })

abbrev pub program_of : Outcome Failure (Program × Parser) → Outcome Failure Program
program_of (err e) = err e
program_of (ok (g, p)) = ok g

-- `parse_program` on fuel for the nesting of brackets and of statements.
unfoldable pub parse_with : ℕ → Parser → Outcome Failure Program
unfolding expression statement program
parse_with f p = program_of (program (expression f) (statement (expression f) f) p)

abbrev pub or_empty : Option Parser → Outcome Failure Program
or_empty none = err fuel
or_empty (some p) = parse_with (rounds p) p

-- `Parser::new(toks).parse_program()`; an empty vector, on which the source stops at an index out of
-- range, has no result here either.
unfoldable pub parse_program : List Token → Outcome Failure Program
unfolding parse_with new
parse_program toks = or_empty (new toks)
