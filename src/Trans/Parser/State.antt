-- ===== src/Trans/Parser/State.antt =====
-- The parser's state and its cursor helpers (trans/src/parser.rs). The tokens from `pos` on are the
-- current one and the later ones; `Parser::new` on an empty vector has no current token.
use u_flux.Prelude.{
  ℕ, List, [], ◌∷◌, ◌++◌, Option, none, some, Outcome, ok, err, if◌then◌else◌, Text, codes,
}
use u_flux.Trans.Token.{ident, kind_eq, Token, is_punct, Failure, error_at}

pub record Parser : Type 0 where
  pub cur : Token
  pub later : List Token
  pub loop_depth : ℕ

unfoldable pub new : List Token → Option Parser
new [] = none
new (t ∷ ts) = some (record { cur = t; later = ts; loop_depth = 0 })

-- A method that may fail: the result and the new state.
abbrev pub M : Type 0 → Type 0
M A = Parser → Outcome Failure (A × Parser)

infixl 5 ◌>>=◌ ◌>>◌
abbrev pub ◌>>=◌ : {A B : Type 0} → M A → (A → M B) → M B
◌>>=◌ m f p = elim (m p) [ err e ↦ err e | ok (a, q) ↦ f a q ]

abbrev pub ◌>>◌ : {A B : Type 0} → M A → M B → M B
m >> k = m >>= λ _. k

abbrev pub pure : {A : Type 0} → A → M A
pure a p = ok (a, p)

abbrev pub fail : {A : Type 0} → ℕ → ℕ → Text → M A
fail l c msg p = err (error_at l c msg)

-- `self.peek().clone()`
abbrev pub peek : M Token
peek p = ok (p.cur, p)

-- `peek2`: the token after the current one, or the last one.
abbrev pub next_or : Token → List Token → Token
next_or t [] = t
next_or t (u ∷ us) = u

abbrev pub peek2 : M Token
peek2 p = ok (next_or p.cur p.later, p)

-- The cursor stays on the last token.
abbrev pub step : Token → List Token → ℕ → Parser
step t [] d = record { cur = t; later = []; loop_depth = d }
step t (u ∷ us) d = record { cur = u; later = us; loop_depth = d }

unfoldable pub bump : M Token
bump p = ok (p.cur, step p.cur p.later p.loop_depth)

unfoldable pub expect_punct : Text → M (Unit {0})
unfolding bump is_punct
expect_punct s p =
    if is_punct p.cur s
    then ok (tt, step p.cur p.later p.loop_depth)
    else err (
        error_at p.cur.line p.cur.col
          (codes "expected '" ++ (s ++ (codes "', got '" ++ (p.cur.text ++ codes "'")))))

unfoldable pub expect_ident : M Token
unfolding bump
expect_ident p =
    if kind_eq p.cur.kind ident
    then ok (p.cur, step p.cur p.later p.loop_depth)
    else err (
        error_at p.cur.line p.cur.col
          (codes "expected identifier, got '" ++ (p.cur.text ++ codes "'")))

-- `self.loop_depth += 1` and `self.loop_depth -= 1`; the latter only undoes the former.
abbrev pub set_depth : ℕ → M (Unit {0})
set_depth d p = ok (tt, record p { loop_depth = d })

abbrev pub depth : M ℕ
depth p = ok (p.loop_depth, p)
