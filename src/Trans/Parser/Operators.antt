-- ===== src/Trans/Parser/Operators.antt =====
-- The levels of binary operators (`logical_or` to `multiplicative` of trans/src/parser.rs), over
-- the method that parses an operand.
use u_flux.Prelude.{
  ℕ, zero, suc, Bool, ◌&&◌, ◌||◌, Option, none, some, err, if◌then◌else◌, Text, codes, text_eq,
  length,
}
use u_flux.Trans.Token.{punct, kind_eq, Token, is_punct, fuel}
use u_flux.Trans.Ast.{
  BinOp, add, sub, mul, shl, shr, lt, le, gt, ge, eq, ne, logic_and, logic_or, Expr, expr, binary,
  logical,
}
use u_flux.Trans.Parser.State.{Parser, M, ◌>>=◌, ◌>>◌, pure, fail, bump}

-- The node that an operator builds; those of a level have no position.
abbrev pub Build : Type 0
Build = Expr → Expr → Expr

abbrev pub bin : BinOp → Build
bin op l r = expr (binary op l r) 0 0

abbrev pub logic_or_node : Build
logic_or_node l r = expr (logical logic_or l r) 0 0

abbrev pub logic_and_node : Build
logic_and_node l r = expr (logical logic_and l r) 0 0

-- The test of each level's loop.
unfoldable pub or_level : Token → Option Build
unfolding is_punct
or_level t = if is_punct t (codes "||") then some logic_or_node else none

unfoldable pub and_level : Token → Option Build
unfolding is_punct
and_level t = if is_punct t (codes "&&") then some logic_and_node else none

unfoldable pub bit_or_level : Token → Option Build
unfolding is_punct
bit_or_level t = if is_punct t (codes "|") then some (bin BinOp.bit_or) else none

unfoldable pub bit_xor_level : Token → Option Build
unfolding is_punct
bit_xor_level t = if is_punct t (codes "^") then some (bin BinOp.bit_xor) else none

unfoldable pub bit_and_level : Token → Option Build
unfolding is_punct
bit_and_level t = if is_punct t (codes "&") then some (bin BinOp.bit_and) else none

unfoldable pub equality_level : Token → Option Build
unfolding is_punct
equality_level t =
    if is_punct t (codes "==") || is_punct t (codes "!=")
    then some (if text_eq t.text (codes "==") then bin eq else bin ne)
    else none

abbrev relational_op : Text → BinOp
relational_op s =
    if text_eq s (codes "<")
    then lt
    else if text_eq s (codes "<=")
    then le
    else if text_eq s (codes ">")
    then gt
    else ge

unfoldable pub relational_level : Token → Option Build
unfolding text_eq
relational_level t =
    if (text_eq t.text (codes "<")
        || text_eq t.text (codes "<=")
        || text_eq t.text (codes ">")
        || text_eq t.text (codes ">="))
      && kind_eq t.kind punct
    then some (bin (relational_op t.text))
    else none

unfoldable pub shift_level : Token → Option Build
unfolding is_punct
shift_level t =
    if is_punct t (codes "<<") || is_punct t (codes ">>")
    then some (if text_eq t.text (codes "<<") then bin shl else bin shr)
    else none

unfoldable pub additive_level : Token → Option Build
unfolding is_punct
additive_level t =
    if is_punct t (codes "+") || is_punct t (codes "-")
    then some (if text_eq t.text (codes "+") then bin add else bin sub)
    else none

-- `while` the level's operator stands next: take it, parse an operand, extend the left side.
unfoldable pub loop : ℕ → (Token → Option Build) → M Expr → Expr → M Expr
unfolding bump
loop zero level operand lhs p = err fuel
loop (suc f) level operand lhs p = elim (level p.cur) [
  | none ↦ pure lhs p
  | some build ↦ (bump >> operand >>= λ rhs. loop f level operand (build lhs rhs)) p
]

-- The tokens left bound the rounds of a loop.
abbrev pub rounds : Parser → ℕ
rounds p = suc (suc (length p.later))

-- A level: an operand, then the loop.
unfoldable pub level_of : (Token → Option Build) → M Expr → M Expr
unfolding loop
level_of level operand = operand >>= λ lhs p. loop (rounds p) level operand lhs p

-- The loop of `multiplicative`, which also refuses the operators that the subset lacks.
unfoldable pub mul_level : Token → Option Build
unfolding text_eq
mul_level t = if kind_eq t.kind punct && text_eq t.text (codes "*") then some (bin mul) else none

unfoldable pub is_division : Token → Bool
unfolding text_eq
is_division t = kind_eq t.kind punct && (text_eq t.text (codes "/") || text_eq t.text (codes "%"))

unfoldable pub mul_loop : ℕ → M Expr → Expr → M Expr
unfolding mul_level is_division bump
mul_loop zero operand lhs p = err fuel
mul_loop (suc f) operand lhs p = elim (mul_level p.cur) [
  | some build ↦ (bump >> operand >>= λ rhs. mul_loop f operand (build lhs rhs)) p
  | none ↦
      if is_division p.cur
      then fail p.cur.line p.cur.col (codes "no division in subset") p
      else pure lhs p
]

module _ (unary : M Expr) where
  unfoldable pub multiplicative : M Expr
  unfolding mul_loop
  multiplicative = unary >>= λ lhs p. mul_loop (rounds p) unary lhs p

  unfoldable pub additive : M Expr
  unfolding multiplicative level_of additive_level
  additive = level_of additive_level multiplicative

  unfoldable pub shift : M Expr
  unfolding additive level_of shift_level
  shift = level_of shift_level additive

  unfoldable pub relational : M Expr
  unfolding shift level_of relational_level
  relational = level_of relational_level shift

  unfoldable pub equality : M Expr
  unfolding relational level_of equality_level
  equality = level_of equality_level relational

  unfoldable pub bit_and : M Expr
  unfolding equality level_of bit_and_level
  bit_and = level_of bit_and_level equality

  unfoldable pub bit_xor : M Expr
  unfolding bit_and level_of bit_xor_level
  bit_xor = level_of bit_xor_level bit_and

  unfoldable pub bit_or : M Expr
  unfolding bit_xor level_of bit_or_level
  bit_or = level_of bit_or_level bit_xor

  unfoldable pub logical_and : M Expr
  unfolding bit_or level_of and_level
  logical_and = level_of and_level bit_or

  unfoldable pub logical_or : M Expr
  unfolding logical_and level_of or_level
  logical_or = level_of or_level logical_and
