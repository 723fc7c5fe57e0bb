-- ===== src/Comp/CompactionLaws.antt =====
-- Dropping the `nop`s in comp/src/parse.rs leaves every position at the code that it stood at.
use u_flux.Prelude.{
  ℕ, zero, suc, ◌+◌, ◌≡◌, refl, sym, ap, ◌∙◌, arith, Bool, true, false, List, [], ◌∷◌, some,
  if◌then◌else◌, Text, text_eq, length, get_elem?, drop,
}
use u_flux.Comp.Ast.{Ins, Parsed}
use u_flux.Comp.UnionFind.{or_else}
use u_flux.Comp.Opcodes.{entry}
use u_flux.Comp.Compaction.{is_nop, kept, kept_bodies, new_pcs, new_pc, move_labels}
use u_flux.Comp.Frames.{Frames, collect_frames, resolve_slots}
use u_flux.Comp.Locals.{finish_locals}

-- Without bodies none is kept, and nothing gets a slot.
kept_bodies-nil : (code : List Ins) → kept_bodies code [] ≡ []
unfolding kept_bodies
kept_bodies-nil [] = refl
kept_bodies-nil (y ∷ code) = refl

resolve_slots-nil : (frames : Frames) (code : List Ins) → resolve_slots frames code [] ≡ code
unfolding resolve_slots
resolve_slots-nil frames [] = refl
resolve_slots-nil frames (y ∷ code) = refl

-- The new position `k` of a code `rest`, when `w` instructions are kept before `code`.
record After (code : List Ins) (bodies : List ℕ) (w pc k : ℕ) : Type 0 where
  skipped : ℕ
  counted : k ≡ w + skipped
  same : drop skipped (kept code) ≡ kept (drop pc code)
  alike : drop skipped (kept_bodies code bodies) ≡ kept_bodies (drop pc code) (drop pc bodies)

abbrev position : List Ins → ℕ → ℕ → ℕ
position code w pc = or_else (w + length (kept code)) (get_elem? (new_pcs w code) pc)

drop-nil : (n : ℕ) → drop n (let none_left : List ℕ = [] in none_left) ≡ []
drop-nil zero = refl
drop-nil (suc n) = refl

kept-cons : (y : Ins) (code : List Ins) → is_nop y ≡ false → kept (y ∷ code) ≡ y ∷ kept code
unfolding kept
kept-cons y code e = rw (kept, e) refl

kept_bodies-cons :
    (y : Ins) (code : List Ins) (c : ℕ) (bodies : List ℕ)
    → is_nop y ≡ false
    → kept_bodies (y ∷ code) (c ∷ bodies) ≡ c ∷ kept_bodies code bodies
unfolding kept_bodies
kept_bodies-cons y code c bodies e = rw (kept_bodies, e) refl

kept-nop : (y : Ins) (code : List Ins) → is_nop y ≡ true → kept (y ∷ code) ≡ kept code
unfolding kept
kept-nop y code e = rw (kept, e) refl

kept_bodies-nop :
    (y : Ins) (code : List Ins) (c : ℕ) (bodies : List ℕ)
    → is_nop y ≡ true
    → kept_bodies (y ∷ code) (c ∷ bodies) ≡ kept_bodies code bodies
unfolding kept_bodies
kept_bodies-nop y code c bodies e = rw (kept_bodies, e) refl

-- A kept instruction counts.
kept_one :
    (y : Ins) (b : Bool) (code : List Ins) (w pc : ℕ)
    → is_nop y ≡ b
    → position (y ∷ code) w (suc pc)
      ≡ elim b [ true ↦ position code w pc | false ↦ position code (w + 1) pc ]
unfolding new_pcs
kept_one y true code w pc e = rw (kept-nop y code e, e) refl
kept_one y false code w pc e =
    let shift : w + suc (length (kept code)) ≡ w + 1 + length (kept code) = omega arith in
    rw (kept-cons y code e, e)
      (ap (λ (k : ℕ). or_else k (get_elem? (new_pcs (w + 1) code) pc)) shift)

new_pcs-After :
    (code : List Ins) (bodies : List ℕ) (w pc : ℕ) → After code bodies w pc (position code w pc)
unfolding new_pcs kept kept_bodies
new_pcs-After [] bodies w zero = record {
  skipped = 0;
  counted = omega arith;
  same = refl;
  alike = refl;
}
new_pcs-After [] bodies w (suc pc) = record {
  skipped = 0;
  counted = omega arith;
  same = refl;
  alike = refl;
}
new_pcs-After (y ∷ code) bodies w zero = record {
  skipped = 0;
  counted = omega arith;
  same = refl;
  alike = refl;
}
new_pcs-After (y ∷ code) [] w (suc pc) =
    by_nop (is_nop y) refl (new_pcs-After code [] w pc) (new_pcs-After code [] (w + 1) pc)
  where
    by_nop :
        (b : Bool)
        → is_nop y ≡ b
        → After code [] w pc (position code w pc)
        → After code [] (w + 1) pc (position code (w + 1) pc)
        → After (y ∷ code) [] w (suc pc) (position (y ∷ code) w (suc pc))
    by_nop true e here later = record {
      skipped = here.skipped;
      counted = kept_one y true code w pc e ∙ here.counted;
      same = ap (drop here.skipped) (kept-nop y code e) ∙ here.same;
      alike = drop-nil here.skipped ∙ sym (kept_bodies-nil (drop pc code));
    }
    by_nop false e here later = record {
      skipped = suc later.skipped;
      counted = kept_one y false code w pc e ∙ omega (arith, later.counted);
      same = ap (drop (suc later.skipped)) (kept-cons y code e) ∙ later.same;
      alike = sym (kept_bodies-nil (drop pc code));
    }
new_pcs-After (y ∷ code) (c ∷ bodies) w (suc pc) =
    by_nop (is_nop y) refl (new_pcs-After code bodies w pc) (new_pcs-After code bodies (w + 1) pc)
  where
    by_nop :
        (b : Bool)
        → is_nop y ≡ b
        → After code bodies w pc (position code w pc)
        → After code bodies (w + 1) pc (position code (w + 1) pc)
        → After (y ∷ code) (c ∷ bodies) w (suc pc) (position (y ∷ code) w (suc pc))
    by_nop true e here later = record {
      skipped = here.skipped;
      counted = kept_one y true code w pc e ∙ here.counted;
      same = ap (drop here.skipped) (kept-nop y code e) ∙ here.same;
      alike = ap (drop here.skipped) (kept_bodies-nop y code c bodies e) ∙ here.alike;
    }
    by_nop false e here later = record {
      skipped = suc later.skipped;
      counted = kept_one y false code w pc e ∙ omega (arith, later.counted);
      same = ap (drop (suc later.skipped)) (kept-cons y code e) ∙ later.same;
      alike = ap (drop (suc later.skipped)) (kept_bodies-cons y code c bodies e) ∙ later.alike;
    }

drop-resolve_slots :
    (frames : Frames) (k : ℕ) (code : List Ins) (bodies : List ℕ)
    → drop k (resolve_slots frames code bodies) ≡ resolve_slots frames (drop k code) (drop k bodies)
unfolding resolve_slots
drop-resolve_slots frames zero code bodies = refl
drop-resolve_slots frames (suc k) [] bodies = refl
drop-resolve_slots frames (suc k) (y ∷ code) [] = sym (resolve_slots-nil frames (drop k code))
drop-resolve_slots frames (suc k) (y ∷ code) (b ∷ bodies) = drop-resolve_slots frames k code bodies

entry-move_labels :
    (code : List Ins) (labels : List (Text × ℕ)) (l : Text) (pc : ℕ)
    → entry labels l ≡ some pc
    → entry (move_labels code labels) l ≡ some (new_pc code pc)
unfolding entry move_labels
entry-move_labels code [] l pc e = cc
entry-move_labels code ((m, q) ∷ labels) l pc e =
    by_name (text_eq m l) e (entry-move_labels code labels l pc)
  where
    by_name :
        (b : Bool)
        → (if b then some q else entry labels l) ≡ some pc
        → (entry labels l ≡ some pc → entry (move_labels code labels) l ≡ some (new_pc code pc))
        → (if b then some (new_pc code q) else entry (move_labels code labels) l)
          ≡ some (new_pc code pc)
    by_name true e later = let same : q ≡ pc = cc (e) in rw same refl
    by_name false e later = later e

-- A label keeps its code: after the additions to shared variables, what stands at a label, without its
-- `nop`s and with slots in place of the names of locals, is what stands at the label in the end.
pub finish_locals-labels :
    (p : Parsed) (vars : List Text) (code : List Ins) (bodies : List ℕ) (l : Text) (pc : ℕ)
    → entry p.labels l ≡ some pc
    → (qc : ℕ) × (entry (finish_locals p vars code bodies).labels l ≡ some qc)
      × (drop qc (finish_locals p vars code bodies).ins
          ≡ resolve_slots
              (collect_frames (kept code) (kept_bodies code bodies) [])
              (kept (drop pc code))
              (kept_bodies (drop pc code) (drop pc bodies)))
unfolding finish_locals new_pc
finish_locals-labels p vars code bodies l pc e =
    let frames = collect_frames (kept code) (kept_bodies code bodies) [] in
    let a = new_pcs-After code bodies 0 pc in
    let at : new_pc code pc ≡ a.skipped =
      ap (λ (k : ℕ). or_else k (get_elem? (new_pcs 0 code) pc)) (omega arith)
      ∙ a.counted
      ∙ omega arith in
    (
      new_pc code pc,
      entry-move_labels code p.labels l pc e,
      rw at (
          drop-resolve_slots frames a.skipped (kept code) (kept_bodies code bodies)
          ∙ rw (a.same, a.alike) refl),
    )
