-- ===== src/Prelude/Ints.antt =====
-- Integers over the native numbers.
use Prim.Native.Nat.{ℕ, ◌+◌, ◌-◌}
use mathlib.Core.Bool.{Bool, true, false}
use mathlib.Core.Path.{◌≡◌, refl, ap}
use u_flux.Prelude.Tests.{◌==◌, ==_iff, ltb, leb, if◌then◌else◌}

pub data ℤ : Type 0 where
  pos negsuc : ℕ → ℤ

abbrev pub int_eq : ℤ → ℤ → Bool
int_eq (pos m) (pos n) = m == n
int_eq (negsuc m) (negsuc n) = m == n
int_eq _ _ = false

pub int_eq-≡ : (j k : ℤ) → int_eq j k ≡ true → j ≡ k
int_eq-≡ (pos m) (pos n) h = ap pos ((==_iff m n).0 h)
int_eq-≡ (negsuc m) (negsuc n) h = ap negsuc ((==_iff m n).0 h)
int_eq-≡ _ _ h = cc

pub int_eq_refl : (k : ℤ) → int_eq k k ≡ true
int_eq_refl (pos n) = (==_iff n n).1 refl
int_eq_refl (negsuc n) = (==_iff n n).1 refl

-- `k + n` and `k - n`.
abbrev pub plus_ℕ : ℤ → ℕ → ℤ
plus_ℕ (pos m) n = pos (m + n)
plus_ℕ (negsuc m) n = if ltb m n then pos (n - m - 1) else negsuc (m - n)

abbrev pub minus_ℕ : ℤ → ℕ → ℤ
minus_ℕ (pos m) n = if leb n m then pos (m - n) else negsuc (n - m - 1)
minus_ℕ (negsuc m) n = negsuc (m + n)

-- `k < n`.
abbrev pub lt_ℕ : ℤ → ℕ → Bool
lt_ℕ (pos m) n = ltb m n
lt_ℕ (negsuc m) n = true

-- `if k > 0 { k } else { 0 }`.
abbrev pub positive : ℤ → ℕ
positive (pos m) = m
positive (negsuc m) = 0
