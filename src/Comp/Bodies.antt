-- ===== src/Comp/Bodies.antt =====
-- `compute_ins_body` of comp/src/parse.rs: the call body of every instruction, by the entry of the
-- body. Its three maps are association lists, the latest entry first, and its set of call entries is a
-- list.
use u_flux.Prelude.{
  ℕ, ◌+◌, ◌-◌, min, Bool, true, false, ◌||◌, List, [], ◌∷◌, ◌++◌, Option, none, some, ltb, ◌==◌,
  if◌then◌else◌, Text, length, take, drop,
}
use u_flux.Comp.Ast.{Ins, push_addr, call, weave, WeaveMeta, Parsed}
use u_flux.Comp.Opcodes.{entry}
use u_flux.Comp.UnionFind.{Parents, value_at, or_else, find, link_ranges, own_parents, count_refs}

unfoldable pub member : List ℕ → ℕ → Bool
member [] x = false
member (y ∷ ys) x = y == x || member ys x

-- `if let Some(&pc) = p.labels.get(l) { insert(pc) }`
abbrev pub with_pc : Option ℕ → List ℕ → List ℕ
with_pc none pcs = pcs
with_pc (some pc) pcs = pc ∷ pcs

abbrev entry_pc : List (Text × ℕ) → Option Text → List ℕ
entry_pc labels none = []
entry_pc labels (some l) = with_pc (entry labels l) []

unfoldable pub call_pcs : List (Text × ℕ) → List Ins → List ℕ
unfolding entry
call_pcs labels [] = []
call_pcs labels (call l ∷ code) = with_pc (entry labels l) (call_pcs labels code)
call_pcs labels (y ∷ code) = call_pcs labels code

abbrev meta_pcs : List WeaveMeta → List ℕ
meta_pcs [] = []
meta_pcs (w ∷ ws) = w.pc ∷ meta_pcs ws

unfoldable pub weave_pcs : List Ins → List ℕ
weave_pcs [] = []
weave_pcs (weave ws ∷ code) = meta_pcs ws ++ weave_pcs code
weave_pcs (y ∷ code) = weave_pcs code

unfoldable pub export_pcs : List (Text × ℕ) → List (Text × Text) → List ℕ
unfolding entry
export_pcs labels [] = []
export_pcs labels ((c, l) ∷ es) = with_pc (entry labels l) (export_pcs labels es)

unfoldable pub call_entries : Parsed → List ℕ
unfolding call_pcs weave_pcs export_pcs
call_entries p =
    0
    ∷ (entry_pc p.labels p.entry_label
        ++ (call_pcs p.labels p.ins ++ (weave_pcs p.ins ++ export_pcs p.labels p.exports)))

-- `sort` and `dedup`
unfoldable pub insert_pc : ℕ → List ℕ → List ℕ
insert_pc x [] = x ∷ []
insert_pc x (y ∷ ys) =
    let later = insert_pc x ys in
    (if ltb x y then x ∷ y ∷ ys else if x == y then y ∷ ys else y ∷ later)

unfoldable pub sorted_pcs : List (Text × ℕ) → List ℕ
unfolding insert_pc
sorted_pcs [] = 0 ∷ []
sorted_pcs ((l, pc) ∷ labels) = insert_pc pc (sorted_pcs labels)

-- Step 1: the nearest call entry at or before each label.
unfoldable pub positional : List ℕ → ℕ → List ℕ → Parents
unfolding member
positional entries cur [] = []
positional entries cur (pc ∷ pcs) =
    let body = if member entries pc then pc else cur in (pc, body) ∷ positional entries body pcs

-- Step 2: each label's range, with the labels whose addresses it pushes.
unfoldable pub targets : List (Text × ℕ) → List Ins → List ℕ
unfolding entry
targets labels [] = []
targets labels (push_addr l ∷ code) = with_pc (entry labels l) (targets labels code)
targets labels (y ∷ code) = targets labels code

abbrev pub targets_in : Parsed → ℕ → ℕ → List ℕ
targets_in p start end = targets p.labels (take (min end (length p.ins) - start) (drop start p.ins))

unfoldable pub ranges : Parsed → List ℕ → List (ℕ × List ℕ)
unfolding targets
ranges p [] = []
ranges p (pc ∷ []) = (pc, targets_in p pc (length p.ins)) ∷ []
ranges p (pc ∷ qc ∷ pcs) = (pc, targets_in p pc qc) ∷ ranges p (qc ∷ pcs)

-- The least position of a component, by its root.
abbrev pub least : ℕ → Parents → ℕ → ℕ
least pos comp root = let e = or_else pos (value_at comp root) in (if ltb pos e then pos else e)

unfoldable pub comp_bodies : ℕ → Parents → Parents → List ℕ → Parents → Parents × Parents
unfolding find value_at
comp_bodies f labels m [] comp = (comp, m)
comp_bodies f labels m (pc ∷ pcs) comp =
    let root = (find f m pc).0 in
    comp_bodies f labels (find f m pc).1 pcs
      ((root, least (or_else 0 (value_at labels pc)) comp root) ∷ comp)

abbrev pub relabelled : ℕ → Option ℕ → Parents → Parents
relabelled pc none labels = labels
relabelled pc (some b) labels = (pc, b) ∷ labels

unfoldable pub relabel : ℕ → Parents → Parents → List ℕ → Parents → Parents
unfolding find value_at
relabel f comp m [] labels = labels
relabel f comp m (pc ∷ pcs) labels =
    relabel f comp (find f m pc).1 pcs (relabelled pc (value_at comp (find f m pc).0) labels)

unfoldable pub label_bodies : Parsed → Parents
unfolding sorted_pcs ranges link_ranges own_parents positional comp_bodies relabel call_entries
label_bodies p =
    let pcs = sorted_pcs p.labels in
    let rs = ranges p pcs in
    let f = count_refs rs + 1 in
    let first = positional (call_entries p) 0 pcs in
    let comp = comp_bodies f first (link_ranges f (own_parents pcs) rs) pcs [] in
    relabel f comp.0 comp.1 pcs first

-- Step 3: the body of the nearest label at or before each instruction.
abbrev body_at : Bool → Option ℕ → ℕ → ℕ
body_at true (some b) cur = b
body_at _ _ cur = cur

unfoldable pub ins_bodies : List ℕ → Parents → ℕ → ℕ → List Ins → List ℕ
unfolding member value_at
ins_bodies pcs labels i cur [] = []
ins_bodies pcs labels i cur (y ∷ code) =
    let body = body_at (member pcs i) (value_at labels i) cur in
    body ∷ ins_bodies pcs labels (i + 1) body code

unfoldable pub compute_ins_body : Parsed → List ℕ
unfolding label_bodies ins_bodies sorted_pcs
compute_ins_body p = ins_bodies (sorted_pcs p.labels) (label_bodies p) 0 0 p.ins
