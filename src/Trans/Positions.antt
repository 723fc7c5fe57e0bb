-- ===== src/Trans/Positions.antt =====
-- What the lines and the columns of the scanner count (`bump!` of trans/src/lexer.rs).
use u_flux.Prelude.{
  ℕ, suc, ◌+◌, ◌≡◌, refl, ◌∙◌, arith, inl, inr, Bool-cases, false, [], ◌∷◌, ◌++◌, Text, length,
  ◌==◌, if◌then◌else◌,
}
use u_flux.Trans.Lexer.{Pos, bump, advance}

-- The ends of lines in a text.
unfoldable pub newlines : Text → ℕ
newlines [] = 0
newlines (c ∷ s) = let rest = newlines s in if c == b'\n' then suc rest else rest

Pos-ext : (p q : Pos) → p.line ≡ q.line → p.col ≡ q.col → p ≡ q
Pos-ext p q h k = cc

advance-append : (s t : Text) (p : Pos) → advance (s ++ t) p ≡ advance t (advance s p)
unfolding advance
advance-append [] t p = refl
advance-append (c ∷ s) t p = advance-append s t (bump c p)

advance-line : (s : Text) (p : Pos) → (advance s p).line ≡ p.line + newlines s
unfolding advance newlines
advance-line [] p = omega arith
advance-line (c ∷ s) p = ground (arith, advance-line s (bump c p))

bump-on_line : (c : ℕ) (p : Pos) → (c == b'\n') ≡ false → (bump c p).col ≡ p.col + 1
bump-on_line c p e = ground arith

advance-on_line : (s : Text) (p : Pos) → newlines s ≡ 0 → (advance s p).col ≡ p.col + length s
unfolding advance newlines
advance-on_line [] p h = omega arith
advance-on_line (c ∷ s) p h = elim (Bool-cases (c == b'\n')) [
  | inl e ↦ cc (rw e at h)
  | inr e ↦ omega (arith, advance-on_line s (bump c p) (rw e at h), bump-on_line c p e)
]

-- Behind a text that ends a line and goes on for `t` on the next one, the line is one more than the
-- line ends before, counted from where the scan began, and the column is one more than the bytes of
-- `t`.
pub advance-next_line :
    (s t : Text) (p : Pos)
    → newlines t ≡ 0
    → advance (s ++ b'\n' ∷ t) p ≡ record { line = p.line + newlines s + 1; col = 1 + length t }
unfolding advance
advance-next_line s t p h =
    advance-append s (b'\n' ∷ t) p
    ∙ Pos-ext _ _ (omega (arith, advance-line t (bump b'\n' (advance s p)), advance-line s p))
        (advance-on_line t (bump b'\n' (advance s p)) h)
