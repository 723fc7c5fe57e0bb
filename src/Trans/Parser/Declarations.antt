-- ===== src/Trans/Parser/Declarations.antt =====
-- The declarations, `return` and the head of `for` in trans/src/parser.rs.
use u_flux.Prelude.{
  ℕ, zero, suc, true, false, ◌||◌, List, [], ◌∷◌, Option, none, some, err, if◌then◌else◌, codes,
}
use u_flux.Trans.Token.{Token, is_punct, is_type_word, fuel}
use u_flux.Trans.Ast.{Expr, Declarator, ForInit, init_decl, init_expr, Stmt, decl, return_}
use u_flux.Trans.Parser.State.{M, ◌>>=◌, ◌>>◌, pure, bump, expect_punct, expect_ident}
use u_flux.Trans.Parser.Operators.{rounds}

unfoldable pub type_spec_fuel : ℕ → M (Unit {0})
unfolding is_type_word is_punct bump
type_spec_fuel zero p = err fuel
type_spec_fuel (suc f) p = elim (is_type_word p.cur || is_punct p.cur (codes "*")) [
  | true ↦ (bump >>= λ _. type_spec_fuel f) p
  | false ↦ pure tt p
]

-- Type keywords and stars.
unfoldable pub type_spec : M (Unit {0})
unfolding type_spec_fuel
type_spec p = type_spec_fuel (rounds p) p

-- `self.bump();`
abbrev pub skip : M (Unit {0})
skip = bump >>= λ _. pure tt

module _ (ex : M Expr) where
  abbrev pub with_init : Token → M Declarator
  with_init t = do
    skip
    e ← ex
    pure (record { name = t.text; init = some e; line = t.line; col = t.col })

  unfoldable pub declarator : M Declarator
  unfolding expect_ident is_punct bump
  declarator = expect_ident >>= λ t p.
      if is_punct p.cur (codes "=")
      then with_init t p
      else pure (record { name = t.text; init = none; line = t.line; col = t.col }) p

  unfoldable pub more_declarators : ℕ → M (List Declarator)
  unfolding declarator is_punct bump
  more_declarators zero p = err fuel
  more_declarators (suc f) p = elim (is_punct p.cur (codes ",")) [
    | false ↦ pure [] p
    | true ↦ (skip >> declarator >>= λ d. more_declarators f >>= λ ds. pure (d ∷ ds)) p
  ]

  unfoldable pub declaration : M Stmt
  unfolding type_spec declarator more_declarators expect_punct
  declaration = do
    type_spec
    d ← declarator
    ds ← λ p. more_declarators (rounds p) p
    expect_punct (codes ";")
    pure (decl (d ∷ ds))

  unfoldable pub return_stmt : M Stmt
  unfolding bump expect_punct
  return_stmt = do kw ← bump; e ← ex; expect_punct (codes ";"); pure (return_ e kw.line kw.col)

  abbrev pub condition : M Expr
  condition = do expect_punct (codes "("); e ← ex; expect_punct (codes ")"); pure e

  -- An expression and the semicolon behind it.
  abbrev pub ended : M Expr
  ended = do e ← ex; expect_punct (codes ";"); pure e

  unfoldable pub for_decl : M ForInit
  unfolding type_spec expect_ident expect_punct
  for_decl = do
    type_spec
    t ← expect_ident
    expect_punct (codes "=")
    e ← ended
    pure (init_decl (record { name = t.text; init = some e; line = t.line; col = t.col }))

  unfoldable pub for_init : M (Option ForInit)
  unfolding for_decl is_punct is_type_word bump expect_punct
  for_init p =
      if is_punct p.cur (codes ";")
      then (skip >> pure none) p
      else if is_type_word p.cur
      then (for_decl >>= λ d. pure (some d)) p
      else (ended >>= λ e. pure (some (init_expr e))) p

  unfoldable pub for_cond : M (Option Expr)
  unfolding is_punct bump expect_punct
  for_cond p =
      if is_punct p.cur (codes ";") then (skip >> pure none) p else (ended >>= λ e. pure (some e)) p

  unfoldable pub for_post : M (Option Expr)
  unfolding is_punct
  for_post p = if is_punct p.cur (codes ")") then pure none p else (ex >>= λ e. pure (some e)) p
