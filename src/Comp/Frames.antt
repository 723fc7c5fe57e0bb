-- ===== src/Comp/Frames.antt =====
-- Steps 4 and 5 of `resolve_locals` in comp/src/parse.rs: the names of each body get slots, and the
-- reads and stores of locals get the slots of their names. A map from names to slots is the list of the
-- names in the order of their slots.
use u_flux.Prelude.{
  ℕ, suc, List, [], ◌∷◌, ◌++◌, Option, none, some, ◌==◌, if◌then◌else◌, Text, text_eq, contains,
}
use u_flux.Comp.Ast.{Ins, local_set, local_get, local_set_i, local_get_i}
use u_flux.Comp.Arity.{at_key}

abbrev pub Frames : Type 0
Frames = List (ℕ × List Text)

abbrev pub local_name : Ins → Option Text
local_name (local_set n) = some n
local_name (local_get n) = some n
local_name _ = none

-- `if !slots.contains_key(n) { let id = slots.len(); slots.insert(n.clone(), id); }`
abbrev pub with_name : Option Text → List Text → List Text
with_name none names = names
with_name (some n) names = if contains names n then names else names ++ n ∷ []

-- `body_slots.entry(body).or_default()`
unfoldable pub add_to_frame : ℕ → Option Text → Frames → Frames
unfolding contains
add_to_frame b n [] = (b, with_name n []) ∷ []
add_to_frame b n ((c, names) ∷ frames) =
    let later = add_to_frame b n frames in
    (if c == b then (c, with_name n names) ∷ frames else (c, names) ∷ later)

unfoldable pub collect_frames : List Ins → List ℕ → Frames → Frames
unfolding add_to_frame
collect_frames (y ∷ code) (b ∷ bodies) frames =
    collect_frames code bodies (add_to_frame b (local_name y) frames)
collect_frames _ _ frames = frames

unfoldable pub slot_of : List Text → Text → Option ℕ
unfolding text_eq
slot_of [] n = none
slot_of (m ∷ names) n =
    if text_eq m n then some 0 else elim (slot_of names n) [ none ↦ none | some k ↦ some (suc k) ]

-- `body_slots.get(&body).and_then(|s| s.get(n))`
abbrev pub slot_in : Option (List Text) → Text → Option ℕ
slot_in none n = none
slot_in (some names) n = slot_of names n

abbrev pub with_slot : Ins → Option ℕ → Ins
with_slot (local_set n) (some k) = local_set_i k
with_slot (local_get n) (some k) = local_get_i k
with_slot y _ = y

abbrev pub slot_for : Frames → ℕ → Option Text → Option ℕ
slot_for frames b none = none
slot_for frames b (some n) = slot_in (at_key frames b) n

unfoldable pub resolve_slots : Frames → List Ins → List ℕ → List Ins
unfolding slot_of at_key
resolve_slots frames (y ∷ code) (b ∷ bodies) =
    with_slot y (slot_for frames b (local_name y)) ∷ resolve_slots frames code bodies
resolve_slots frames code _ = code

-- `insert` of a map by positions.
unfoldable pub put_key : {A : Type 0} → ℕ → A → List (ℕ × A) → List (ℕ × A)
put_key k a [] = (k, a) ∷ []
put_key k a ((j, b) ∷ m) =
    let later = put_key k a m in (if j == k then (k, a) ∷ m else (j, b) ∷ later)

-- Step 5 inserts the size of each frame, and its names.
unfoldable pub put_frames : {A : Type 0} → (List Text → A) → Frames → List (ℕ × A) → List (ℕ × A)
unfolding put_key
put_frames f [] m = m
put_frames f ((b, names) ∷ frames) m = put_frames f frames (put_key b (f names) m)
