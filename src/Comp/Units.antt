-- ===== src/Comp/Units.antt =====
-- Units to resolve and to merge, and the theorems about these passes at concrete inputs.
use u_flux.Prelude.{
  ℕ, ◌≡◌, refl, List, [], ◌∷◌, some, Text, codes, pos, ok, err, false, drop, get_elem?, contains,
  arith,
}
use u_flux.Comp.Ast.{
  Ins, Parsed, no_code, push_i, simple, local_set, local_get, local_set_i, local_get_i, set_v,
  atomic_add, call, ret, nop,
}
use u_flux.Comp.Opcodes.{entry}
use u_flux.Comp.Arity.{has_key}
use u_flux.Comp.Bodies.{compute_ins_body}
use u_flux.Comp.Scope.{shared_names, unassigned}
use u_flux.Comp.Frames.{collect_frames, resolve_slots}
use u_flux.Comp.Compaction.{kept, kept_bodies}
use u_flux.Comp.Locals.{resolve_locals, finish_locals}
use u_flux.Comp.ScopeLaws.{Assigns, resolve_locals-one_body}
use u_flux.Comp.LocalSlots.{Slotted, finish_locals-Slotted}
use u_flux.Comp.CompactionLaws.{finish_locals-labels}
use u_flux.Comp.Merge.{merge_units}
use u_flux.Comp.MergeLabels.{Once}
use u_flux.Comp.MergeUnits.{Lands, merge_units-Lands}

-- `0 n! f` and a function `f` that stores twice to its local `x` and adds to the shared `n`.
abbrev two_stores : Parsed
two_stores = record no_code {
  ins =
      push_i (pos 0)
      ∷ local_set (codes "n")
      ∷ call (codes "f")
      ∷ ret
      ∷ push_i (pos 1)
      ∷ local_set (codes "x")
      ∷ local_get (codes "n")
      ∷ simple (codes "op_add")
      ∷ local_set (codes "n")
      ∷ local_set (codes "x")
      ∷ ret
      ∷ [];
  labels = (codes "f", 4) ∷ [];
}

abbrev resolved_stores : Parsed
resolved_stores = record no_code {
  ins =
      push_i (pos 0)
      ∷ set_v (codes "n")
      ∷ call (codes "f")
      ∷ ret
      ∷ push_i (pos 1)
      ∷ local_set_i 0
      ∷ atomic_add (codes "n") false
      ∷ local_set_i 0
      ∷ ret
      ∷ [];
  labels = (codes "f", 4) ∷ [];
  vars = codes "n" ∷ [];
  local_counts = (0, 0) ∷ (4, 1) ∷ [];
  local_names = (0, []) ∷ (4, codes "x" ∷ []) ∷ [];
}

two_stores_resolve : resolve_locals two_stores [] ≡ ok resolved_stores
unfolding resolve_locals entry
two_stores_resolve = refl

two_stores_local : contains (shared_names two_stores []) (codes "x") ≡ false
unfolding shared_names contains
two_stores_local = refl

first_store : Assigns two_stores (compute_ins_body two_stores) 5 4 (codes "x")
unfolding compute_ins_body has_key
first_store = record { store = refl; body = refl; free = refl }

second_store : Assigns two_stores (compute_ins_body two_stores) 9 4 (codes "x")
unfolding compute_ins_body has_key
second_store = record { store = refl; body = refl; free = refl }

resolve_locals-one_body_example : ◌≡◌ {A = ℕ} 4 4
resolve_locals-one_body_example =
    resolve_locals-one_body two_stores resolved_stores [] (codes "x") 5 9 4 4 two_stores_resolve
      two_stores_local first_store second_store

-- The instructions of `f` after the additions.
abbrev fused_code : List Ins
fused_code =
    push_i (pos 1)
    ∷ local_set (codes "x")
    ∷ nop
    ∷ atomic_add (codes "n") false
    ∷ nop
    ∷ local_get (codes "x")
    ∷ ret
    ∷ []

abbrev fused_bodies : List ℕ
fused_bodies = 0 ∷ 0 ∷ 0 ∷ 0 ∷ 4 ∷ 4 ∷ 4 ∷ []

fused_read : get_elem? (kept fused_code) 3 ≡ some (local_get (codes "x"))
unfolding kept
fused_read = refl

fused_body : get_elem? (kept_bodies fused_code fused_bodies) 3 ≡ some 4
unfolding kept_bodies
fused_body = refl

finish_locals-Slotted_example :
    Slotted
      (finish_locals no_code [] fused_code fused_bodies)
      3
      4
      (local_get (codes "x"))
      (codes "x")
finish_locals-Slotted_example =
    finish_locals-Slotted no_code [] fused_code fused_bodies 3 4 (local_get (codes "x")) (codes "x")
      fused_read fused_body refl

abbrev one_label : Parsed
one_label = record no_code { labels = (codes "g", 4) ∷ [] }

one_label_at : entry one_label.labels (codes "g") ≡ some 4
unfolding entry
one_label_at = refl

finish_locals-labels_example :
    (qc : ℕ) × (entry (finish_locals one_label [] fused_code fused_bodies).labels (codes "g")
      ≡ some qc)
    × (drop qc (finish_locals one_label [] fused_code fused_bodies).ins
        ≡ resolve_slots
            (collect_frames (kept fused_code) (kept_bodies fused_code fused_bodies) [])
            (kept (drop 4 fused_code))
            (kept_bodies (drop 4 fused_code) (drop 4 fused_bodies)))
finish_locals-labels_example =
    finish_locals-labels one_label [] fused_code fused_bodies (codes "g") 4 one_label_at

-- A name that only the code of a label reads, and that nothing assigns, passes.
abbrev unassigned_read : Parsed
unassigned_read = record no_code {
  ins = call (codes "f") ∷ ret ∷ local_get (codes "y") ∷ ret ∷ [];
  labels = (codes "f", 2) ∷ [];
}

unassigned_read_resolves :
    resolve_locals unassigned_read []
    ≡ ok (record unassigned_read {
      ins = call (codes "f") ∷ ret ∷ local_get_i 0 ∷ ret ∷ [];
      local_counts = (0, 0) ∷ (2, 1) ∷ [];
      local_names = (0, []) ∷ (2, codes "y" ∷ []) ∷ [];
    })
unfolding resolve_locals entry
unassigned_read_resolves = refl

-- Before the first label it does not.
unassigned_start :
    resolve_locals (record unassigned_read { labels = [] }) [] ≡ err (unassigned (codes "y"))
unfolding resolve_locals entry
unassigned_start = refl

-- Two units, each with a label `f`.
abbrev calling : ℕ → Parsed
calling n = record no_code {
  ins = call (codes "f") ∷ ret ∷ push_i (pos n) ∷ ret ∷ [];
  labels = (codes "f", 2) ∷ [];
}

abbrev merged_code : Text → Text → List Ins
merged_code f g =
    call f ∷ ret ∷ push_i (pos 1) ∷ ret ∷ ret ∷ call g ∷ ret ∷ push_i (pos 2) ∷ ret ∷ ret ∷ []

calling_merged :
    merge_units no_code 0 [] (calling 1 ∷ calling 2 ∷ []) (codes "a" ∷ codes "b" ∷ [])
    ≡ ok (record no_code {
      ins = merged_code (codes "a:f") (codes "b:f");
      labels = (codes "a:f", 2) ∷ (codes "b:f", 7) ∷ [];
    })
unfolding merge_units
calling_merged = refl

calling_f : entry (calling 1).labels (codes "f") ≡ some 2
unfolding entry
calling_f = refl

labels-Once : Once (calling 1).labels
unfolding entry
labels-Once = (refl, tt)

merge_units-Lands_example : Lands no_code (calling 1) (codes "a") (codes "f") 2 (record no_code {
  ins = merged_code (codes "a:f") (codes "b:f");
  labels = (codes "a:f", 2) ∷ (codes "b:f", 7) ∷ [];
})
merge_units-Lands_example =
    merge_units-Lands no_code 0 [] (calling 1) (calling 2 ∷ []) (codes "a") (codes "b" ∷ []) _
      (codes "f") 2 calling_merged (omega arith) (omega arith, (λ e. ground arith), tt) labels-Once
      calling_f

-- Two files of one stem: the label of the first unit is lost, and its call goes to the second.
calling_clash :
    merge_units no_code 0 [] (calling 1 ∷ calling 2 ∷ []) (codes "init" ∷ codes "init" ∷ [])
    ≡ ok (record no_code {
      ins = merged_code (codes "init:f") (codes "init:f");
      labels = (codes "init:f", 7) ∷ [];
    })
unfolding merge_units
calling_clash = refl
