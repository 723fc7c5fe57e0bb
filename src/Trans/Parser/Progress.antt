-- ===== src/Trans/Parser/Progress.antt =====
-- A calculus for the parser's methods: what a method promises of its result and of the tokens that
-- it leaves.
use u_flux.Prelude.{
  ℕ, suc, ◌+◌, ◌≤◌, ◌≡◌, refl, Bool, true, false, List, [], ◌∷◌, Outcome, ok, err, arith,
  if◌then◌else◌, Text, length,
}
use u_flux.Trans.Token.{
  Kind, punct, ident, eof, kind_eq, Token, is_punct, is_ident, Error, Failure, failed,
}
use u_flux.Trans.Parser.State.{Parser, M, step, bump, expect_punct, expect_ident}

abbrev pub size : Parser → ℕ
size p = length p.later

abbrev pub last_is_eof : Token → List Token → Bool
last_is_eof t [] = kind_eq t.kind eof
last_is_eof t (u ∷ us) = last_is_eof u us

-- The last token is the end of the file, as the lexer leaves it.
abbrev pub IsEnded : Parser → Type 0
IsEnded p = last_is_eof p.cur p.later ≡ true

-- `q` is at least `d` tokens further on than `p`, at the same loop depth.
pub record Advances (d : ℕ) (p q : Parser) : Type 0 where
  pub further : size q + d ≤ size p
  pub ended : IsEnded q
  pub same_depth : q.loop_depth ≡ p.loop_depth

-- The fuel has not run out, and a success advances by `d` and gives a result that meets `Q`.
pub data Post {A : Type 0} (d : ℕ) (p : Parser) (Q : A → Type 0)
    : Outcome Failure (A × Parser) → Type 0 where
  returns : {a : A} {q : Parser} → Advances d p q → Q a → Post d p Q (ok (a, q))
  raises : {e : Error} → Post d p Q (err (failed e))

abbrev pub Any : {A : Type 0} → A → Type 0
Any a = Unit {0}

pub Advances-trans :
    {p q r : Parser} {d e : ℕ} (n : ℕ)
    → Advances d p q
    → Advances e q r
    → n ≤ d + e
    → Advances n p r
Advances-trans n x y h = record {
  further = omega (arith, x.further, y.further);
  ended = y.ended;
  same_depth = cc (x.same_depth, y.same_depth);
}

pub Advances-refl : {p : Parser} → IsEnded p → Advances 0 p p
Advances-refl h = record { further = omega arith; ended = h; same_depth = refl }

pub Post-weaken :
    {A : Type 0} {p q : Parser} {d e : ℕ} {Q : A → Type 0} {r : Outcome Failure (A × Parser)}
    (n : ℕ)
    → Advances d p q
    → Post e q Q r
    → n ≤ d + e
    → Post n p Q r
Post-weaken n x (returns y h) le = returns (Advances-trans n x y le) h
Post-weaken n x raises le = raises

-- A method, then `f` on its result; `n` tokens in all.
pub Post-bind :
    {A B : Type 0} {p : Parser} {d e : ℕ} (n : ℕ) {Q : A → Type 0} {R : B → Type 0} (f : A → M B)
    {r : Outcome Failure (A × Parser)}
    → Post d p Q r
    → ((a : A) (q : Parser) → Advances d p q → Q a → Post e q R (f a q))
    → n ≤ d + e
    → Post n p R (elim r [ err x ↦ err x | ok (a, q) ↦ f a q ])
Post-bind n f (returns {a} {q} x y) k le = Post-weaken n x (k a q x y) le
Post-bind n f raises k le = raises

pub Post-if :
    {A : Type 0} {p : Parser} {d : ℕ} {Q : A → Type 0} {x y : Outcome Failure (A × Parser)}
    (b : Bool)
    → (b ≡ true → Post d p Q x)
    → (b ≡ false → Post d p Q y)
    → Post d p Q (if b then x else y)
Post-if true f g = f refl
Post-if false f g = g refl

-- Taking a token that is not the last.
pub step-Advances :
    (p : Parser)
    → IsEnded p
    → kind_eq p.cur.kind eof ≡ false
    → Advances 1 p (step p.cur p.later p.loop_depth)
step-Advances p h k = by_later p.later refl
  where
    by_later : (us : List Token) → p.later ≡ us → Advances 1 p (step p.cur p.later p.loop_depth)
    by_later [] e = cc (rw e at h)
    by_later (u ∷ us) e =
        rw e (record { further = omega (arith, ap_length e); ended = rw e at h; same_depth = refl })
      where
        ap_length : p.later ≡ u ∷ us → length p.later ≡ suc (length us)
        ap_length x = rw x

not_eof : (k j : Kind) → kind_eq k j ≡ true → kind_eq j eof ≡ false → kind_eq k eof ≡ false
not_eof k j h e = ground arith

pub punct-not_eof : (t : Token) (s : Text) → is_punct t s ≡ true → kind_eq t.kind eof ≡ false
unfolding is_punct
punct-not_eof t s h = not_eof t.kind punct (ground arith) refl

pub ident-not_eof : (t : Token) → kind_eq t.kind ident ≡ true → kind_eq t.kind eof ≡ false
ident-not_eof t h = not_eof t.kind ident h refl

pub is_ident-not_eof : (t : Token) (s : Text) → is_ident t s ≡ true → kind_eq t.kind eof ≡ false
unfolding is_ident
is_ident-not_eof t s h = not_eof t.kind ident (ground arith) refl

module _ {p : Parser} (h : IsEnded p) where
  pub bump-Post : kind_eq p.cur.kind eof ≡ false → Post 1 p Any (bump p)
  unfolding bump
  bump-Post k = returns (step-Advances p h k) tt

  pub expect_punct-Post : (s : Text) → Post 1 p Any (expect_punct s p)
  unfolding expect_punct
  expect_punct-Post s =
      Post-if (is_punct p.cur s) (λ e. returns (step-Advances p h (punct-not_eof p.cur s e)) tt)
        (λ _. raises)

  pub expect_ident-Post : Post 1 p Any (expect_ident p)
  unfolding expect_ident
  expect_ident-Post =
      Post-if (kind_eq p.cur.kind ident)
        (λ e. returns (step-Advances p h (ident-not_eof p.cur e)) tt) (λ _. raises)
