-- ===== src/Trans/Emit/Tallies.antt =====
-- The labels that a terminator counts for, and the numbers that a method takes one by one.
use u_flux.Prelude.{ℕ, ◌+◌, ◌≤◌, ◌≡◌, arith, Bool}
use u_flux.Trans.Emit.Code.{Letter}
use u_flux.Trans.Emit.Statements.{terminator}
use u_flux.Trans.Emit.Counts.{
  defines_number, defines, quotes, count, number-plain, defines-plain, quotes-plain,
  terminator-plain, between, between_trans, between_next, one,
}

-- A definition counts once for its label, and for its body.
pub number-terminator : (n : ℕ) (b : Bool) → count (defines_number n) (terminator b) ≡ 0
number-terminator n b = number-plain n (terminator b) (terminator-plain b)

pub defines-terminator : (l : Letter) (n : ℕ) (b : Bool) → count (defines l n) (terminator b) ≡ 0
defines-terminator l n b = defines-plain l n (terminator b) (terminator-plain b)

pub quotes-terminator : (l : Letter) (n : ℕ) (b : Bool) → count (quotes l n) (terminator b) ≡ 0
quotes-terminator l n b = quotes-plain l n (terminator b) (terminator-plain b)

-- Two new numbers.
pub two_next :
    (k m n : ℕ)
    → k + 1 + 1 ≤ m
    → one n (k + 1) + one n (k + 1 + 1) + between (k + 1 + 1) m n ≡ between k m n
two_next k m n h = omega (
  arith,
  between_next k n,
  between_next (k + 1) n,
  between_trans k (k + 1) (k + 1 + 1) n,
  between_trans k (k + 1 + 1) m n,
)

pub three_next :
    (k m n : ℕ)
    → k + 1 + 1 + 1 ≤ m
    → one n (k + 1) + one n (k + 1 + 1) + one n (k + 1 + 1 + 1) + between (k + 1 + 1 + 1) m n
      ≡ between k m n
three_next k m n h = omega (
  arith,
  two_next k m n (omega arith),
  between_next (k + 1 + 1) n,
  between_trans (k + 1 + 1) (k + 1 + 1 + 1) m n,
)
