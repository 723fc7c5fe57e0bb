-- ===== src/Comp/MergeUnits.antt =====
-- A unit in the merged program of comp/src/parse.rs.
use u_flux.Prelude.{
  ℕ, zero, suc, ◌+◌, ◌≡◌, ◌≢◌, refl, sym, ap, ◌∙◌, Bool, List, [], ◌∷◌, ◌++◌, append_assoc,
  append-nil, some, Text, length, get_elem?, get_elem?-append_left, get_elem?-append_right, ok,
  ◌>>=◌, bind-eq-ok,
}
use u_flux.Comp.Ast.{Ins, call, ret, Parsed}
use u_flux.Comp.Opcodes.{entry}
use u_flux.Comp.Merge.{
  mangle, module_name, UnitBase, base_of, merge_ins, merge_code, add_labels, add_pubs, extended,
  merge_unit, flag, merge_units, local_label,
}
use u_flux.Comp.MergeLabels.{
  IsPlain, mangle-name, Once, add_labels-other, add_labels-own, add_pubs-keeps,
}

-- One turn of the loop.
record Merged (m tu : Parsed) (name : Text) (q : Parsed) : Type 0 where
  code : List Ins
  merged : merge_code (base_of m tu name) tu.ins ≡ ok code
  ins : q.ins ≡ m.ins ++ (code ++ ret ∷ [])
  pubs :
      add_pubs tu.labels (length m.ins) tu.pubs (add_labels name (length m.ins) tu.labels m.labels)
      ≡ ok q.labels

merge_unit-Merged :
    (m tu : Parsed) (name : Text) (idx : ℕ) (is_init : Bool) (q : Parsed)
    → merge_unit m tu name idx is_init ≡ ok q
    → Merged m tu name q
unfolding merge_unit
merge_unit-Merged m tu name idx is_init q h =
    let own = add_labels name (length m.ins) tu.labels m.labels in
    let one =
      bind-eq-ok (merge_code (base_of m tu name) tu.ins)
        (λ code. add_pubs tu.labels (length m.ins) tu.pubs own >>= λ labels.
          ok (extended m tu name idx is_init code labels))
        h in
    let two =
      bind-eq-ok (add_pubs tu.labels (length m.ins) tu.pubs own)
        (λ labels. ok (extended m tu name idx is_init one.0 labels)) one.2 in
    let same : extended m tu name idx is_init one.0 two.0 ≡ q = cc (two.2) in
    record {
      code = one.0;
      merged = one.1;
      ins = ap (λ (p : Parsed). p.ins) (sym same);
      pubs = two.1 ∙ ap (λ (p : Parsed). ok p.labels) same;
    }

-- The later units have other names than `name`, all without a colon.
abbrev pub Apart : Text → List Parsed → List Text → Type 0
Apart name (tu ∷ tus) (d ∷ mods) =
    IsPlain (module_name tu d) × (module_name tu d ≢ name) × Apart name tus mods
Apart name _ _ = Unit {0}

-- What the rest of the loop leaves: the code so far, and a label of a unit of another name.
record Kept (m q : Parsed) (t : Text) : Type 0 where
  rest : List Ins
  ins : q.ins ≡ m.ins ++ rest
  label : entry q.labels t ≡ entry m.labels t

merge_units-Kept :
    (name l : Text) (x : ℕ) (flags : List Bool) (tus : List Parsed) (mods : List Text)
    → (m : Parsed) (idx : ℕ) (q : Parsed) → IsPlain name
    → Apart name tus mods
    → entry m.labels (mangle name l) ≡ some x
    → merge_units m idx flags tus mods ≡ ok q
    → Kept m q (mangle name l)
unfolding merge_units
merge_units-Kept name l x flags [] mods m idx q plain apart e h =
    let same : m ≡ q = cc (h) in
    record {
      rest = [];
      ins = ap (λ (p : Parsed). p.ins) (sym same) ∙ sym (append-nil m.ins);
      label = ap (λ (p : Parsed). entry p.labels (mangle name l)) (sym same);
    }
merge_units-Kept name l x flags (tu ∷ tus) [] m idx q plain apart e h =
    let same : m ≡ q = cc (h) in
    record {
      rest = [];
      ins = ap (λ (p : Parsed). p.ins) (sym same) ∙ sym (append-nil m.ins);
      label = ap (λ (p : Parsed). entry p.labels (mangle name l)) (sym same);
    }
merge_units-Kept name l x flags (tu ∷ tus) (d ∷ mods) m idx q plain apart e h =
    let next =
      bind-eq-ok (merge_unit m tu (module_name tu d) idx (flag (get_elem? flags idx)))
        (λ m'. merge_units m' (suc idx) flags tus mods) h in
    let one =
      merge_unit-Merged m tu (module_name tu d) idx (flag (get_elem? flags idx)) next.0 next.1 in
    let other =
      add_labels-other (module_name tu d) (length m.ins) (mangle name l) tu.labels m.labels
        (λ k s. apart.1 (mangle-name (module_name tu d) name k l apart.0 plain s)) in
    let here =
      add_pubs-keeps tu.labels (length m.ins) (mangle name l) x tu.pubs _ one.pubs (other ∙ e) in
    let later =
      merge_units-Kept name l x flags tus mods next.0 (suc idx) q plain apart.2 here next.2 in
    record {
      rest = (one.code ++ ret ∷ []) ++ later.rest;
      ins =
          later.ins
          ∙ ap (λ (c : List Ins). c ++ later.rest) one.ins
          ∙ append_assoc m.ins (one.code ++ ret ∷ []) later.rest;
      label = later.label ∙ here ∙ sym e;
    }

-- Instruction by instruction.
merge_code-at :
    (u : UnitBase) (code : List Ins) (i : ℕ) (y : Ins) (out : List Ins)
    → merge_code u code ≡ ok out
    → get_elem? code i ≡ some y
    → (z : Ins) × (merge_ins u y ≡ ok z) × (get_elem? out i ≡ some z)
unfolding merge_code
merge_code-at u [] i y out h e = cc (e)
merge_code-at u (x ∷ code) zero y out h e =
    let one = bind-eq-ok (merge_ins u x) (λ z. merge_code u code >>= λ zs. ok (z ∷ zs)) h in
    let two = bind-eq-ok (merge_code u code) (λ zs. ok (one.0 ∷ zs)) one.2 in
    let same : one.0 ∷ two.0 ≡ out = cc (two.2) in
    let head : x ≡ y = cc (e) in
    (one.0, ap (merge_ins u) (sym head) ∙ one.1, ap (λ (c : List Ins). get_elem? c 0) (sym same))
merge_code-at u (x ∷ code) (suc i) y out h e =
    let one = bind-eq-ok (merge_ins u x) (λ z. merge_code u code >>= λ zs. ok (z ∷ zs)) h in
    let two = bind-eq-ok (merge_code u code) (λ zs. ok (one.0 ∷ zs)) one.2 in
    let same : one.0 ∷ two.0 ≡ out = cc (two.2) in
    let later = merge_code-at u code i y two.0 two.1 e in
    (later.0, later.1, ap (λ (c : List Ins). get_elem? c (suc i)) (sym same) ∙ later.2)

-- The code of a unit and its label `l` in the merged program `q`, when `m` is merged before it: the
-- code stands behind that of `m`, and a call of the label stands where it stood and finds it.
pub record Lands (m tu : Parsed) (name l : Text) (pc : ℕ) (q : Parsed) : Type 0 where
  pub position : entry q.labels (mangle name l) ≡ some (pc + length m.ins)
  pub code : List Ins
  pub rest : List Ins
  pub merged : merge_code (base_of m tu name) tu.ins ≡ ok code
  pub stands : q.ins ≡ m.ins ++ (code ++ ret ∷ rest)
  pub calls :
      (i : ℕ)
      → get_elem? tu.ins i ≡ some (call l)
      → get_elem? q.ins (length m.ins + i) ≡ some (call (mangle name l))

call_at :
    (m tu : Parsed) (name l : Text) (pc : ℕ) (code : List Ins)
    → entry tu.labels l ≡ some pc
    → merge_code (base_of m tu name) tu.ins ≡ ok code
    → (i : ℕ) → get_elem? tu.ins i ≡ some (call l)
    → get_elem? code i ≡ some (call (mangle name l))
unfolding merge_ins local_label
call_at m tu name l pc code e h i c =
    let z = merge_code-at (base_of m tu name) tu.ins i (call l) code h c in
    let same : call (mangle name l) ≡ z.0 = cc (rw e at (z.1)) in z.2 ∙ ap some (sym same)

-- Whatever is merged before a unit, when the merge succeeds and the later units have other names, all
-- without a colon, the unit's code stands behind that of the units before it, each of its labels at
-- its instruction there, and a call of the label in the unit is one of its mangled name.
pub merge_units-Lands :
    (m : Parsed) (idx : ℕ) (flags : List Bool) (tu : Parsed) (tus : List Parsed) (d : Text)
    → (mods : List Text) (q : Parsed) (l : Text) (pc : ℕ)
    → merge_units m idx flags (tu ∷ tus) (d ∷ mods) ≡ ok q
    → IsPlain (module_name tu d)
    → Apart (module_name tu d) tus mods
    → Once tu.labels
    → entry tu.labels l ≡ some pc
    → Lands m tu (module_name tu d) l pc q
unfolding merge_units
merge_units-Lands m idx flags tu tus d mods q l pc h plain apart once e =
    let name = module_name tu d in
    let next =
      bind-eq-ok (merge_unit m tu name idx (flag (get_elem? flags idx)))
        (λ m'. merge_units m' (suc idx) flags tus mods) h in
    let one = merge_unit-Merged m tu name idx (flag (get_elem? flags idx)) next.0 next.1 in
    let own = add_labels-own name (length m.ins) l pc tu.labels m.labels once e in
    let here =
      add_pubs-keeps tu.labels (length m.ins) (mangle name l) (pc + length m.ins) tu.pubs _ one.pubs
        own in
    let later =
      merge_units-Kept name l (pc + length m.ins) flags tus mods next.0 (suc idx) q plain apart here
        next.2 in
    let all : q.ins ≡ m.ins ++ (one.code ++ ret ∷ later.rest) =
      later.ins
      ∙ ap (λ (c : List Ins). c ++ later.rest) one.ins
      ∙ append_assoc m.ins (one.code ++ ret ∷ []) later.rest
      ∙ ap (λ (c : List Ins). m.ins ++ c) (append_assoc one.code (ret ∷ []) later.rest) in
    record {
      position = later.label ∙ here;
      code = one.code;
      rest = later.rest;
      merged = one.merged;
      stands = all;
      calls = λ i c.
          ap (λ (x : List Ins). get_elem? x (length m.ins + i)) all
          ∙ get_elem?-append_right m.ins (one.code ++ ret ∷ later.rest) i (length m.ins + i) refl
          ∙ get_elem?-append_left one.code (ret ∷ later.rest) i (call (mangle name l))
              (call_at m tu name l pc one.code e one.merged i c);
    }
