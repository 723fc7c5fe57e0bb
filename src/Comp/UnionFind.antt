-- ===== src/Comp/UnionFind.antt =====
-- The union-find of `compute_ins_body` in comp/src/parse.rs. The hash map of parents is an association
-- list, the latest entry first; a root is its own parent.
use u_flux.Prelude.{
  ℕ, zero, suc, true, false, List, [], ◌∷◌, Option, none, some, ◌==◌, if◌then◌else◌, length, ◌+◌,
}

abbrev pub Parents : Type 0
Parents = List (ℕ × ℕ)

unfoldable pub value_at : Parents → ℕ → Option ℕ
value_at [] x = none
value_at ((k, v) ∷ m) x = if k == x then some v else value_at m x

abbrev pub or_else : ℕ → Option ℕ → ℕ
or_else d none = d
or_else d (some v) = v

-- An element's parent, `*parent.get(&x).unwrap_or(&x)`.
unfoldable pub up : Parents → ℕ → ℕ
unfolding value_at
up m x = or_else x (value_at m x)

-- `loop { let p = parent(root) or root; if p == root { break; } root = p; }`, on fuel.
unfoldable pub root_of : ℕ → Parents → ℕ → ℕ
unfolding up
root_of zero m x = x
root_of (suc f) m x = elim (up m x == x) [ true ↦ x | false ↦ root_of f m (up m x) ]

-- `while cur != root { ... }`, on fuel: every element on the way gets the root as its parent.
unfoldable pub compress : ℕ → Parents → ℕ → ℕ → Parents
unfolding value_at
compress zero m root cur = m
compress (suc f) m root cur = elim (cur == root) [
  | true ↦ m
  | false ↦ compress f ((cur, root) ∷ m) root (or_else root (value_at m cur))
]

-- The root, and the parents after the compression.
unfoldable pub find : ℕ → Parents → ℕ → ℕ × Parents
unfolding root_of compress
find f m x = (root_of f m x, compress f m (root_of f m x) x)

-- `let troot = find(...); if troot != lroot { parent.insert(troot, lroot); }`
abbrev pub joined : ℕ → ℕ × Parents → Parents
joined lroot (troot, m) = if troot == lroot then m else (troot, lroot) ∷ m

unfoldable pub union : ℕ → Parents → ℕ → ℕ → Parents
unfolding find
union f m lroot target = joined lroot (find f m target)

-- The targets of one range, with the root that the range starts from.
unfoldable pub union_all : ℕ → Parents → ℕ → List ℕ → Parents
unfolding union
union_all f m lroot [] = m
union_all f m lroot (t ∷ ts) = union_all f (union f m lroot t) lroot ts

-- The ranges in their order: each starts at a label, and has the labels that it refers to.
unfoldable pub link_ranges : ℕ → Parents → List (ℕ × List ℕ) → Parents
unfolding find union_all
link_ranges f m [] = m
link_ranges f m ((l, ts) ∷ rs) = link_ranges f (union_all f (find f m l).1 (find f m l).0 ts) rs

-- Every label is its own parent at first.
unfoldable pub own_parents : List ℕ → Parents
own_parents [] = []
own_parents (x ∷ xs) = (x, x) ∷ own_parents xs

-- The references of all ranges.
abbrev pub count_refs : List (ℕ × List ℕ) → ℕ
count_refs [] = 0
count_refs ((l, ts) ∷ rs) = length ts + count_refs rs
