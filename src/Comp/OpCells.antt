-- ===== src/Comp/OpCells.antt =====
-- How many cells the arithmetic, the comparisons and the tests of the run time take off the stack and put
-- there (the functions from `op_add` to `op_orelse` in the C text of comp/src/prelude.rs: their calls
-- of `pop` and of `pushc`, `pushi` or `pushp`), beside what comp/src/parse.rs takes for it.
use u_flux.Prelude.{
  ℕ, ◌≡◌, ◌∙◌, refl, Bool, true, false, List, [], ◌∷◌, Option, none, some, if◌then◌else◌, Text,
  codes, text_eq, text_eq_iff, contains, All,
}
use u_flux.Comp.Effects.{helper_effect}

abbrev pub table : List (Text × (ℕ × ℕ))
table =
    (codes "op_add", (2, 1))
    ∷ (codes "op_sub", (2, 1))
    ∷ (codes "op_mul", (2, 1))
    ∷ (codes "op_and", (2, 1))
    ∷ (codes "op_pow", (2, 1))
    ∷ (codes "op_sqrt", (1, 1))
    ∷ (codes "op_lte", (2, 1))
    ∷ (codes "op_gte", (2, 1))
    ∷ (codes "op_drop", (1, 0))
    ∷ (codes "op_shutdown", (0, 0))
    ∷ (codes "op_shr", (2, 1))
    ∷ (codes "op_inc", (1, 1))
    ∷ (codes "op_dec", (1, 1))
    ∷ (codes "op_div", (2, 1))
    ∷ (codes "op_rem", (2, 1))
    ∷ (codes "op_eq", (2, 1))
    ∷ (codes "op_seq", (2, 1))
    ∷ (codes "op_sne", (2, 1))
    ∷ (codes "op_lt", (2, 1))
    ∷ (codes "op_gt", (2, 1))
    ∷ (codes "op_not", (1, 1))
    ∷ (codes "op_or", (2, 1))
    ∷ (codes "op_xor", (2, 1))
    ∷ (codes "op_shl", (2, 1))
    ∷ (codes "op_bnot", (1, 1))
    ∷ (codes "op_orelse", (2, 1))
    ∷ []

unfoldable pub row_of : List (Text × (ℕ × ℕ)) → Text → Option (ℕ × ℕ)
unfolding text_eq
row_of [] h = none
row_of ((n, e) ∷ rows) h = if text_eq h n then some e else row_of rows h

unfoldable pub op_cells : Text → Option (ℕ × ℕ)
unfolding row_of
op_cells h = row_of table h

rows_agree : All (λ (n, e). helper_effect n ≡ some e) table
unfolding helper_effect contains text_eq
rows_agree = (
  refl,
  (
    refl,
    (
      refl,
      (
        refl,
        (
          refl,
          (
            refl,
            (
              refl,
              (
                refl,
                (
                  refl,
                  (
                    refl,
                    (
                      refl,
                      (
                        refl,
                        (
                          refl,
                          (
                            refl,
                            (
                              refl,
                              (
                                refl,
                                (
                                  refl,
                                  (
                                    refl,
                                    (
                                      refl,
                                      (refl, (refl, (refl, (refl, (refl, (refl, (refl, tt))))))),
                                    ),
                                  ),
                                ),
                              ),
                            ),
                          ),
                        ),
                      ),
                    ),
                  ),
                ),
              ),
            ),
          ),
        ),
      ),
    ),
  ),
)

row_of-helper_effect :
    (h : Text) (e : ℕ × ℕ) (rows : List (Text × (ℕ × ℕ)))
    → All (λ (n, f). helper_effect n ≡ some f) rows
    → row_of rows h ≡ some e
    → helper_effect h ≡ some e
unfolding row_of
row_of-helper_effect h e [] a k = cc
row_of-helper_effect h e ((n, f) ∷ rows) a k =
    by_test (text_eq h n) refl k (row_of-helper_effect h e rows a.1)
  where
    by_test :
        (b : Bool)
        → text_eq h n ≡ b
        → (if b then some f else row_of rows h) ≡ some e
        → (row_of rows h ≡ some e → helper_effect h ≡ some e)
        → helper_effect h ≡ some e
    by_test true t k later = let same : h ≡ n = (text_eq_iff h n).0 t in rw same (a.0 ∙ k)
    by_test false t k later = later k

-- The check takes for each of these operations what the run time does.
pub op_cells-helper_effect : (h : Text) (e : ℕ × ℕ) → op_cells h ≡ some e → helper_effect h ≡ some e
unfolding op_cells
op_cells-helper_effect h e = row_of-helper_effect h e table rows_agree
