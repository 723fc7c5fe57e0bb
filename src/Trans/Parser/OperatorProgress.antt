-- ===== src/Trans/Parser/OperatorProgress.antt =====
-- Every level of binary operators ends, and takes at least the tokens of its first operand.
use u_flux.Prelude.{
  ℕ, zero, suc, ◌≤◌, ◌<◌, ◌≡◌, refl, inl, inr, Bool, true, false, ◌||◌, Option, none, some, ok,
  arith, if◌then◌else◌, Bool-cases, Text, codes,
}
use u_flux.Trans.Token.{punct, eof, kind_eq, Token, is_punct}
use u_flux.Trans.Ast.{Expr}
use u_flux.Trans.Parser.State.{Parser, M, ◌>>=◌, ◌>>◌, pure, fail, bump}
use u_flux.Trans.Parser.Operators.{
  Build, relational_level, loop, rounds, level_of, mul_level, is_division, mul_loop, multiplicative,
  additive, shift, relational, equality, bit_and, bit_xor, bit_or, logical_and, logical_or,
}
use u_flux.Trans.Parser.Progress.{
  size, IsEnded, Advances-refl, Post, returns, raises, Any, Post-bind, Post-if, bump-Post,
  punct-not_eof,
}

-- Up to `n` tokens, the method ends and takes a token.
abbrev pub Good : {A : Type 0} → ℕ → M A → Type 0
Good n m = (p : Parser) → IsEnded p → size p ≤ n → Post 1 p Any (m p)

-- The operators of a level are no end of file.
abbrev IsLevel : (Token → Option Build) → Type 0
IsLevel level = (t : Token) (b : Build) → level t ≡ some b → kind_eq t.kind eof ≡ false

module _ (n : ℕ) {operand : M Expr} (good : Good n operand) where
  -- The later rounds of a loop, on fewer tokens than the fuel.
  abbrev Later : (Expr → M Expr) → ℕ → Type 0
  Later next f =
      (lhs : Expr) (q : Parser) → IsEnded q → size q ≤ n → size q < f → Post 0 q Any (next lhs q)

  -- One round: the operator, an operand, and the later rounds.
  round-Post :
      (build : Build) (next : Expr → M Expr) (f : ℕ)
      → Later next f
      → (lhs : Expr) (p : Parser) → IsEnded p
      → kind_eq p.cur.kind eof ≡ false
      → size p ≤ n
      → size p < suc f
      → Post 0 p Any ((bump >> operand >>= λ rhs. next (build lhs rhs)) p)
  round-Post build next f later lhs p h k le lt =
      Post-bind 0 _
        (Post-bind 1 _ (bump-Post h k) (λ _ q x _. good q x.ended (omega (arith, x.further)))
          (omega arith))
        (λ rhs r y _.
          later (build lhs rhs) r y.ended (omega (arith, y.further)) (omega (arith, y.further)))
        (omega arith)

  by_level :
      {level : Token → Option Build}
      → IsLevel level
      → (next : Expr → M Expr) (f : ℕ) → Later next f
      → (lhs : Expr) (p : Parser) → IsEnded p
      → size p ≤ n
      → size p < suc f
      → (o : Option Build) → level p.cur ≡ o
      → Post 0 p Any (elim o [
        | none ↦ ok (lhs, p)
        | some build ↦ (bump >> operand >>= λ rhs. next (build lhs rhs)) p
      ])
  by_level is_level next f later lhs p h le lt none e = returns (Advances-refl h) tt
  by_level is_level next f later lhs p h le lt (some build) e =
      round-Post build next f later lhs p h (is_level p.cur build e) le lt

  loop-Post :
      {level : Token → Option Build} → IsLevel level → (f : ℕ) → Later (loop f level operand) f
  unfolding loop
  loop-Post is_level zero lhs p h le lt = elim lt [ ]
  loop-Post {level} is_level (suc f) lhs p h le lt =
      by_level is_level (loop f level operand) f (loop-Post is_level f) lhs p h le lt (level p.cur)
        refl

  level_of-Good : {level : Token → Option Build} → IsLevel level → Good n (level_of level operand)
  unfolding level_of
  level_of-Good is_level p h le =
      Post-bind 1 _ (good p h le)
        (λ lhs q x _.
          loop-Post is_level (rounds q) lhs q x.ended (omega (arith, x.further)) (omega arith))
        (omega arith)

  mul_level-IsLevel : IsLevel mul_level
  unfolding mul_level
  mul_level-IsLevel t b e = elim (Bool-cases (kind_eq t.kind punct)) [
    | inl k ↦ ground arith
    | inr k ↦ ground arith
  ]

  by_mul :
      (next : Expr → M Expr) (f : ℕ)
      → Later next f
      → (lhs : Expr) (p : Parser) → IsEnded p
      → size p ≤ n
      → size p < suc f
      → (o : Option Build) → mul_level p.cur ≡ o
      → Post 0 p Any (elim o [
        | some build ↦ (bump >> operand >>= λ rhs. next (build lhs rhs)) p
        | none ↦
            if is_division p.cur
            then fail p.cur.line p.cur.col (codes "no division in subset") p
            else pure lhs p
      ])
  by_mul next f later lhs p h le lt none e =
      Post-if (is_division p.cur) (λ _. raises) (λ _. returns (Advances-refl h) tt)
  by_mul next f later lhs p h le lt (some build) e =
      round-Post build next f later lhs p h (mul_level-IsLevel p.cur build e) le lt

  mul_loop-Post : (f : ℕ) → Later (mul_loop f operand) f
  unfolding mul_loop
  mul_loop-Post zero lhs p h le lt = elim lt [ ]
  mul_loop-Post (suc f) lhs p h le lt =
      by_mul (mul_loop f operand) f (mul_loop-Post f) lhs p h le lt (mul_level p.cur) refl

  multiplicative-Good : Good n (multiplicative operand)
  unfolding multiplicative
  multiplicative-Good p h le =
      Post-bind 1 _ (good p h le)
        (λ lhs q x _.
          mul_loop-Post (rounds q) lhs q x.ended (omega (arith, x.further)) (omega arith))
        (omega arith)

-- The tests of the levels accept punctuation only.
abbrev PunctOnly : (Token → Bool) → Type 0
PunctOnly test = (t : Token) → test t ≡ true → kind_eq t.kind eof ≡ false

is_punct-PunctOnly : (s : Text) → PunctOnly (λ t. is_punct t s)
is_punct-PunctOnly s t h = punct-not_eof t s h

either-PunctOnly : (s u : Text) → PunctOnly (λ t. is_punct t s || is_punct t u)
either-PunctOnly s u t h = elim (Bool-cases (is_punct t s)) [
  | inl e ↦ punct-not_eof t s e
  | inr e ↦ punct-not_eof t u (rw e at h)
]

guarded-IsLevel :
    (test : Token → Bool) (build : Token → Build)
    → PunctOnly test
    → IsLevel (λ t. if test t then some (build t) else none)
guarded-IsLevel test build only t b e = elim (Bool-cases (test t)) [
  | inl k ↦ only t k
  | inr k ↦ cc (rw k at e)
]

relational-IsLevel : IsLevel relational_level
unfolding relational_level
relational-IsLevel t b e = elim (Bool-cases (kind_eq t.kind punct)) [
  | inl k ↦ ground arith
  | inr k ↦ ground arith
]

module _ (n : ℕ) {unary : M Expr} (good : Good n unary) where
  additive-Good : Good n (additive unary)
  unfolding additive
  additive-Good =
      level_of-Good n (multiplicative-Good n good)
        (guarded-IsLevel _ _ (either-PunctOnly (codes "+") (codes "-")))

  shift-Good : Good n (shift unary)
  unfolding shift
  shift-Good =
      level_of-Good n additive-Good
        (guarded-IsLevel _ _ (either-PunctOnly (codes "<<") (codes ">>")))

  relational-Good : Good n (relational unary)
  unfolding relational
  relational-Good = level_of-Good n shift-Good relational-IsLevel

  equality-Good : Good n (equality unary)
  unfolding equality
  equality-Good =
      level_of-Good n relational-Good
        (guarded-IsLevel _ _ (either-PunctOnly (codes "==") (codes "!=")))

  bit_and-Good : Good n (bit_and unary)
  unfolding bit_and
  bit_and-Good =
      level_of-Good n equality-Good (guarded-IsLevel _ _ (is_punct-PunctOnly (codes "&")))

  bit_xor-Good : Good n (bit_xor unary)
  unfolding bit_xor
  bit_xor-Good = level_of-Good n bit_and-Good (guarded-IsLevel _ _ (is_punct-PunctOnly (codes "^")))

  bit_or-Good : Good n (bit_or unary)
  unfolding bit_or
  bit_or-Good = level_of-Good n bit_xor-Good (guarded-IsLevel _ _ (is_punct-PunctOnly (codes "|")))

  logical_and-Good : Good n (logical_and unary)
  unfolding logical_and
  logical_and-Good =
      level_of-Good n bit_or-Good (guarded-IsLevel _ _ (is_punct-PunctOnly (codes "&&")))

  pub logical_or-Good : Good n (logical_or unary)
  unfolding logical_or
  logical_or-Good =
      level_of-Good n logical_and-Good (guarded-IsLevel _ _ (is_punct-PunctOnly (codes "||")))
