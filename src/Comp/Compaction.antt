-- ===== src/Comp/Compaction.antt =====
-- The compaction of `resolve_locals` in comp/src/parse.rs: every `nop` is dropped, and each table of
-- positions is moved along.
use u_flux.Prelude.{ℕ, ◌+◌, Bool, true, false, List, [], ◌∷◌, Text, get_elem?, length}
use u_flux.Comp.Ast.{Ins, nop}
use u_flux.Comp.UnionFind.{or_else}

abbrev pub is_nop : Ins → Bool
is_nop nop = true
is_nop _ = false

unfoldable pub kept : List Ins → List Ins
kept [] = []
kept (y ∷ code) = elim (is_nop y) [ true ↦ kept code | false ↦ y ∷ kept code ]

unfoldable pub kept_bodies : List Ins → List ℕ → List ℕ
kept_bodies (y ∷ code) (b ∷ bodies) = elim (is_nop y) [
  | true ↦ kept_bodies code bodies
  | false ↦ b ∷ kept_bodies code bodies
]
kept_bodies _ _ = []

-- `newpc`: how many instructions before each one are kept.
unfoldable pub new_pcs : ℕ → List Ins → List ℕ
new_pcs w [] = []
new_pcs w (y ∷ code) = w ∷ new_pcs (elim (is_nop y) [ true ↦ w | false ↦ w + 1 ]) code

-- `map`: a position behind the instructions goes behind the kept ones.
unfoldable pub new_pc : List Ins → ℕ → ℕ
unfolding new_pcs kept
new_pc code pc = or_else (length (kept code)) (get_elem? (new_pcs 0 code) pc)

unfoldable pub move_labels : List Ins → List (Text × ℕ) → List (Text × ℕ)
unfolding new_pc
move_labels code [] = []
move_labels code ((n, pc) ∷ labels) = (n, new_pc code pc) ∷ move_labels code labels

-- Of the keys of `label_params` and `param_pcs`; the model keeps the first of two that meet.
unfoldable pub move_keys : {A : Type 0} → List Ins → List (ℕ × A) → List (ℕ × A)
unfolding new_pc
move_keys code [] = []
move_keys code ((pc, a) ∷ m) = (new_pc code pc, a) ∷ move_keys code m
