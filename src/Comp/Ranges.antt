-- ===== src/Comp/Ranges.antt =====
-- The ranges of comp/src/parse.rs start at labels and refer to labels.
use u_flux.Prelude.{
  ◌⊎◌, ℕ, ◌≡◌, ◌≢◌, refl, sym, ◌∙◌, Bool, true, false, ◌||◌, List, [], ◌∷◌, Option, none, some, ltb,
  ◌==◌, ==_iff, if◌then◌else◌, Text, inl, inr, All, min, ◌-◌, take, drop, length, text_eq,
}
use u_flux.Comp.Ast.{Ins, push_addr, Parsed}
use u_flux.Comp.Opcodes.{entry}
use u_flux.Comp.Forests.{same_or_not, not_same}
use u_flux.Comp.Bodies.{member, insert_pc, sorted_pcs, targets, ranges, with_pc}

pub member-tail :
    (y : ℕ) (ys : List ℕ) (x : ℕ) → y ≢ x → member (y ∷ ys) x ≡ true → member ys x ≡ true
unfolding member
member-tail y ys x n h = rw (not_same y x n) at h

member-here : (y : ℕ) (ys : List ℕ) (x : ℕ) → y ≡ x → member (y ∷ ys) x ≡ true
unfolding member
member-here y ys x e = rw ((==_iff y x).1 e) refl

member-later : (y : ℕ) (ys : List ℕ) (x : ℕ) → member ys x ≡ true → member (y ∷ ys) x ≡ true
unfolding member
member-later y ys x h = rw h (or_true (y == x))
  where
    or_true : (b : Bool) → (b || true) ≡ true
    or_true true = refl
    or_true false = refl

-- Labels' positions are among the sorted ones.
member-insert_pc :
    (x : ℕ) (ys : List ℕ) (z : ℕ)
    → (x ≡ z) ⊎ (member ys z ≡ true)
    → member (insert_pc x ys) z ≡ true
unfolding insert_pc
member-insert_pc x [] z h = elim h [ inl e ↦ member-here x [] z e | inr e ↦ member-later x [] z e ]
member-insert_pc x (y ∷ ys) z h = by_order (ltb x y) (x == y) refl (member-insert_pc x ys z)
  where
    by_order :
        (b c : Bool)
        → (x == y) ≡ c
        → ((x ≡ z) ⊎ (member ys z ≡ true) → member (insert_pc x ys) z ≡ true)
        → member (if b then x ∷ y ∷ ys else if c then y ∷ ys else y ∷ insert_pc x ys) z ≡ true
    by_order true c e later = elim h [
      | inl s ↦ member-here x (y ∷ ys) z s
      | inr k ↦ member-later x (y ∷ ys) z k
    ]
    by_order false true e later = elim h [
      | inl s ↦ member-here y ys z (sym ((==_iff x y).0 e) ∙ s)
      | inr k ↦ k
    ]
    by_order false false e later = elim (same_or_not y z) [
      | inl s ↦ member-here y (insert_pc x ys) z s
      | inr n ↦
          member-later y (insert_pc x ys) z
            (later (elim h [ inl s ↦ inl s | inr k ↦ inr (member-tail y ys z n k) ]))
    ]

member-entry :
    (labels : List (Text × ℕ)) (l : Text) (pc : ℕ)
    → entry labels l ≡ some pc
    → member (sorted_pcs labels) pc ≡ true
unfolding entry sorted_pcs
member-entry [] l pc e = cc
member-entry ((n, q) ∷ labels) l pc e = by_name (text_eq n l) (member-entry labels l pc) e
  where
    by_name :
        (b : Bool)
        → (entry labels l ≡ some pc → member (sorted_pcs labels) pc ≡ true)
        → (if b then some q else entry labels l) ≡ some pc
        → member (insert_pc q (sorted_pcs labels)) pc ≡ true
    by_name true later e = member-insert_pc q (sorted_pcs labels) pc (inl cc)
    by_name false later e = member-insert_pc q (sorted_pcs labels) pc (inr (later e))

abbrev Known : List (Text × ℕ) → List ℕ → Type 0
Known labels = All (λ t. member (sorted_pcs labels) t ≡ true)

targets-Known : (labels : List (Text × ℕ)) (code : List Ins) → Known labels (targets labels code)
unfolding targets
targets-Known labels [] = tt
targets-Known labels (push_addr l ∷ code) =
    by_entry (entry labels l) refl (targets-Known labels code)
  where
    by_entry :
        (o : Option ℕ)
        → entry labels l ≡ o
        → Known labels (targets labels code)
        → Known labels (with_pc o (targets labels code))
    by_entry none e later = later
    by_entry (some pc) e later = (member-entry labels l pc e, later)
targets-Known labels (_ ∷ code) = targets-Known labels code

abbrev pub Inside : List ℕ → List (ℕ × List ℕ) → Type 0
Inside pcs = All (λ (l, ts). (member pcs l ≡ true) × All (λ t. member pcs t ≡ true) ts)

pub ranges-Inside :
    (p : Parsed) (pcs : List ℕ)
    → ((x : ℕ) → member pcs x ≡ true → member (sorted_pcs p.labels) x ≡ true)
    → Inside (sorted_pcs p.labels) (ranges p pcs)
unfolding ranges
ranges-Inside p [] h = tt
ranges-Inside p (pc ∷ []) h = (
  (
    h pc (member-here pc [] pc refl),
    targets-Known p.labels (take (min (length p.ins) (length p.ins) - pc) (drop pc p.ins)),
  ),
  tt,
)
ranges-Inside p (pc ∷ qc ∷ pcs) h = (
  (
    h pc (member-here pc (qc ∷ pcs) pc refl),
    targets-Known p.labels (take (min qc (length p.ins) - pc) (drop pc p.ins)),
  ),
  ranges-Inside p (qc ∷ pcs) (λ x e. h x (member-later pc (qc ∷ pcs) x e)),
)
