-- ===== src/Trans/Emit/Counts.antt =====
-- How often a label is quoted and defined in a code, and what that comes to in the emitter's state.
use u_flux.Prelude.{
  ℕ, ◌+◌, ◌≤◌, ◌≡◌, refl, arith, Bool, true, false, ◌&&◌, List, [], ◌∷◌, ◌++◌, Option, none, some,
  ltb, leb, Text, text_eq, ◌==◌, if◌then◌else◌,
}
use u_flux.Trans.Emit.Code.{
  Letter, letter_i, letter_e, letter_c, letter_b, letter_n, Word, plain, heading, quote, define,
  Code, label_text,
}
use u_flux.Trans.Emit.State.{State}
use u_flux.Trans.Emit.Statements.{terminator}
use u_flux.Trans.Emit.PlainCode.{is_plain}

abbrev letter_eq : Letter → Letter → Bool
letter_eq letter_i letter_i = true
letter_eq letter_e letter_e = true
letter_eq letter_c letter_c = true
letter_eq letter_b letter_b = true
letter_eq letter_n letter_n = true
letter_eq _ _ = false

-- 1 for the number itself, and 1 for the label itself.
pub one : ℕ → ℕ → ℕ
one n m = if m == n then 1 else 0

unfoldable pub hit : Letter → ℕ → Letter → ℕ → ℕ
hit l n k m = if letter_eq k l && m == n then 1 else 0

-- 1 for a function's label that is the label.
unfoldable pub clash : Letter → ℕ → Text → ℕ
clash l n t = if text_eq t (label_text l n) then 1 else 0

-- 1 for a function's label that is one of the labels with the number.
unfoldable pub clashes : ℕ → Text → ℕ
clashes n t =
    clash letter_i n t
    + clash letter_e n t
    + clash letter_c n t
    + clash letter_b n t
    + clash letter_n n t

abbrev pub defines_number : ℕ → Word → ℕ
defines_number n (plain t) = 0
defines_number n (heading t) = clashes n t
defines_number n (quote k m) = 0
defines_number n (define k m) = one n m

abbrev pub defines : Letter → ℕ → Word → ℕ
defines l n (plain t) = 0
defines l n (heading t) = clash l n t
defines l n (quote k m) = 0
defines l n (define k m) = hit l n k m

abbrev pub quotes : Letter → ℕ → Word → ℕ
quotes l n (plain t) = 0
quotes l n (heading t) = 0
quotes l n (quote k m) = hit l n k m
quotes l n (define k m) = 0

abbrev pub count : (Word → ℕ) → Code → ℕ
count w [] = 0
count w (x ∷ xs) = w x + count w xs

pub count-append : (w : Word → ℕ) (a b : Code) → count w (a ++ b) ≡ count w a + count w b
count-append w [] b = omega arith
count-append w (x ∷ a) b = omega (arith, count-append w a b)

pub clash-le : (l : Letter) (n : ℕ) (t : Text) → clash l n t ≤ clashes n t
unfolding clashes
clash-le letter_i n t = omega arith
clash-le letter_e n t = omega arith
clash-le letter_c n t = omega arith
clash-le letter_b n t = omega arith
clash-le letter_n n t = omega arith

-- A label that is defined is a number that is defined.
pub defines-le :
    (l : Letter) (n : ℕ) (ws : Code) → count (defines l n) ws ≤ count (defines_number n) ws
unfolding hit one
defines-le l n [] = omega arith
defines-le l n (plain t ∷ ws) = omega (arith, defines-le l n ws)
defines-le l n (heading t ∷ ws) = omega (arith, clash-le l n t, defines-le l n ws)
defines-le l n (quote k m ∷ ws) = omega (arith, defines-le l n ws)
defines-le l n (define k m ∷ ws) = ground (arith, defines-le l n ws)

-- Over everything that the state holds.
abbrev pub total : (Word → ℕ) → State → ℕ
total w s =
    count w s.self.out
    + count w s.self.hoisted
    + count w s.self.hoisted_guards
    + count w s.buf.code
    + count w s.buf.labels

-- Plain code counts for nothing.
count-plain :
    (w : Word → ℕ)
    → ((t : Text) → w (plain t) ≡ 0)
    → (ws : Code) → is_plain ws ≡ true
    → count w ws ≡ 0
count-plain w k [] h = refl
count-plain w k (plain t ∷ ws) h = omega (arith, k t, count-plain w k ws h)
count-plain w k (heading t ∷ ws) h = cc
count-plain w k (quote j m ∷ ws) h = cc
count-plain w k (define j m ∷ ws) h = cc

pub number-plain : (n : ℕ) (ws : Code) → is_plain ws ≡ true → count (defines_number n) ws ≡ 0
number-plain n = count-plain (defines_number n) (λ t. refl)

pub defines-plain :
    (l : Letter) (n : ℕ) (ws : Code) → is_plain ws ≡ true → count (defines l n) ws ≡ 0
defines-plain l n = count-plain (defines l n) (λ t. refl)

pub quotes-plain : (l : Letter) (n : ℕ) (ws : Code) → is_plain ws ≡ true → count (quotes l n) ws ≡ 0
quotes-plain l n = count-plain (quotes l n) (λ t. refl)

pub terminator-plain : (b : Bool) → is_plain (terminator b) ≡ true
terminator-plain true = refl
terminator-plain false = refl

-- 1 for a number above `a` and up to `b`.
pub between : ℕ → ℕ → ℕ → ℕ
between a b n = if ltb a n && leb n b then 1 else 0

pub between_trans : (a b c n : ℕ) → a ≤ b → b ≤ c → between a b n + between b c n ≡ between a c n
unfolding between
between_trans a b c n h k = ground arith

pub between_next : (a n : ℕ) → between a (a + 1) n ≡ one n (a + 1)
unfolding between one
between_next a n = ground arith

pub between_same : (a n : ℕ) → between a a n ≡ 0
unfolding between
between_same a n = ground arith

pub between-le : (a b n : ℕ) → between a b n ≤ 1
unfolding between
between-le a b n = ground arith

-- The step labels of the open `for` loops that are the label.
abbrev pub loop_hits : Letter → ℕ → List (Option ℕ) → ℕ
loop_hits l n [] = 0
loop_hits l n (none ∷ ls) = loop_hits l n ls
loop_hits l n (some m ∷ ls) = hit l n letter_n m + loop_hits l n ls
