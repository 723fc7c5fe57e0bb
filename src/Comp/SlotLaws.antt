-- ===== src/Comp/SlotLaws.antt =====
-- The slots of names tell the names apart, unless one of them has the form `v<N>`.
use mathlib.Core.Path.{subst}
use u_flux.Prelude.{
  all_below, all_below_lem, ℕ, suc, ◌<◌, ◌≡◌, ◌≢◌, refl, sym, ap, ◌∙◌, ◌↔◌, Bool, true, false, List,
  [], ◌∷◌, ◌++◌, Option, none, some, ◌==◌, ==_iff, Text, codes, get_elem?, All, show_ℕ, zero,
}
use u_flux.Comp.Slots.{is_slot, Naming, no_names, get, slot_or, nm, with_slot, nm_all}
use u_flux.Comp.Naming.{IsValid, get-injective, nm-Named}

-- A list of names and the slots that they have in `t`.
abbrev Slotted : Naming → List Text → List ℕ → Type 0
Slotted t [] [] = Unit {0}
Slotted t (n ∷ ns) (i ∷ is) = (get t.names n ≡ some i) × Slotted t ns is
Slotted t _ _ = ⊥

abbrev Plain : List Text → Type 0
Plain = All (λ n. is_slot n ≡ none)

record Run (st : Naming) (ns : List Text) (is : List ℕ) (t : Naming) : Type 0 where
  valid : IsValid t
  slots : Slotted t ns is
  kept : (m : Text) (j : ℕ) → get st.names m ≡ some j → get t.names m ≡ some j

-- The results of the first name and of the later ones.
split_run :
    (st : Naming) (n : Text) (ns : List Text) (js : List ℕ) (t : Naming)
    → nm_all st (n ∷ ns) ≡ some (js, t)
    → (i : ℕ) × (u : Naming) × (is : List ℕ) × (nm st n ≡ some (i, u))
      × (nm_all u ns ≡ some (is, t))
      × (js ≡ i ∷ is)
unfolding nm_all
split_run st n ns js t e = by_first (nm st n) refl e
  where
    by_later :
        (i : ℕ) (u : Naming) (p : Option (List ℕ × Naming))
        → nm st n ≡ some (i, u)
        → nm_all u ns ≡ p
        → with_slot i p ≡ some (js, t)
        → (i : ℕ) × (u : Naming) × (is : List ℕ) × (nm st n ≡ some (i, u))
          × (nm_all u ns ≡ some (is, t))
          × (js ≡ i ∷ is)
    by_later i u none f g h = cc
    by_later i u (some (is, w)) f g h = (i, u, is, f, g ∙ cc, cc)

    by_first :
        (o : Option (ℕ × Naming))
        → nm st n ≡ o
        → (elim o [ none ↦ none | some (i, u) ↦ with_slot i (nm_all u ns) ]) ≡ some (js, t)
        → (i : ℕ) × (u : Naming) × (is : List ℕ) × (nm st n ≡ some (i, u))
          × (nm_all u ns ≡ some (is, t))
          × (js ≡ i ∷ is)
    by_first none f h = cc
    by_first (some (i, u)) f h = by_later i u (nm_all u ns) f refl h

nm_all-nil :
    (st : Naming) (js : List ℕ) (t : Naming)
    → nm_all st [] ≡ some (js, t)
    → ◌≡◌ {A = List ℕ × Naming} ([], st) (js, t)
unfolding nm_all
nm_all-nil st js t e = cc

nm_all-Run :
    (st : Naming) (ns : List Text) (js : List ℕ) (t : Naming)
    → IsValid st
    → Plain ns
    → nm_all st ns ≡ some (js, t)
    → Run st ns js t
nm_all-Run st [] js t v h e =
    subst (λ (p : List ℕ × Naming). Run st [] p.0 p.1) (nm_all-nil st js t e)
      (record { valid = v; slots = tt; kept = λ m j x. x })
nm_all-Run st (n ∷ ns) js t v h e =
    let (i, u, is, f, g, k) = split_run st n ns js t e in
    let first = nm-Named st n i u v h.0 f in
    let later = nm_all-Run u ns is t first.valid h.1 g in
    rw k (record {
      valid = later.valid;
      slots = (later.kept n i first.named, later.slots);
      kept = λ m j x. later.kept m j (first.kept m j x);
    })

Slotted-get :
    (t : Naming) (ns : List Text) (is : List ℕ) (a : ℕ) (n : Text) (i : ℕ)
    → Slotted t ns is
    → get_elem? ns a ≡ some n
    → get_elem? is a ≡ some i
    → get t.names n ≡ some i
Slotted-get t [] is a n i h e f = cc
Slotted-get t (m ∷ ns) [] a n i h e f = cc
Slotted-get t (m ∷ ns) (j ∷ is) zero n i h e f = cc
Slotted-get t (m ∷ ns) (j ∷ is) (suc a) n i h e f = Slotted-get t ns is a n i h.1 e f

-- When no name of a source has the form `v<N>` and the source gets its slots, two of its places have
-- the same slot exactly when they hold the same name.
pub nm_all-injective :
    (ns : List Text) (is : List ℕ) (t : Naming) (a b : ℕ) (n m : Text) (i j : ℕ)
    → All (λ n. is_slot n ≡ none) ns
    → nm_all no_names ns ≡ some (is, t)
    → get_elem? ns a ≡ some n
    → get_elem? is a ≡ some i
    → get_elem? ns b ≡ some m
    → get_elem? is b ≡ some j
    → (i ≡ j) ↔ (n ≡ m)
nm_all-injective ns is t a b n m i j h e na ia mb jb =
    let run = nm_all-Run no_names ns is t refl h e in
    let gi = Slotted-get t ns is a n i run.slots na ia in
    let gj = Slotted-get t ns is b m j run.slots mb jb in
    (
      λ same. get-injective t.names t.next i n m run.valid gi (gj ∙ ap some (sym same)),
      λ same. cc (gi, gj, ap (get t.names) same),
    )

-- The form `v<N>` of a slot is read as that slot.
reads_slot : ℕ → Bool
reads_slot i = elim (is_slot (codes "v" ++ show_ℕ i)) [ none ↦ false | some j ↦ j == i ]

reads_slots : all_below 64 reads_slot ≡ true
unfolding all_below reads_slot is_slot show_ℕ
reads_slots = refl

is_slot-show : (i : ℕ) → i < 64 → is_slot (codes "v" ++ show_ℕ i) ≡ some i
unfolding reads_slot
is_slot-show i lt =
    by_test (is_slot (codes "v" ++ show_ℕ i)) (all_below_lem 64 reads_slot i reads_slots lt)
  where
    by_test : (o : Option ℕ) → (elim o [ none ↦ false | some j ↦ j == i ]) ≡ true → o ≡ some i
    by_test none h = cc
    by_test (some j) h = ap some ((==_iff j i).0 h)

-- When a name that has not the form `v<N>` gets the slot `i` below 64, the other name `v<i>` gets the
-- same slot right after it.
pub nm_clash :
    (st : Naming) (n : Text) (i : ℕ) (t : Naming)
    → is_slot n ≡ none
    → i < 64
    → nm st n ≡ some (i, t)
    → (nm t (codes "v" ++ show_ℕ i) ≡ some (i, t)) × (codes "v" ++ show_ℕ i ≢ n)
unfolding nm
nm_clash st n i t s lt e = (
  ap (slot_or t (codes "v" ++ show_ℕ i)) (is_slot-show i lt),
  λ same. cc (is_slot-show i lt, s, ap is_slot same),
)
