-- ===== src/Comp/FrameLaws.antt =====
-- The frames of comp/src/parse.rs hold the names of their bodies, each at its slot.
use u_flux.Prelude.{
  ℕ, zero, suc, ◌<◌, ◌≡◌, refl, ap, inl, inr, arith, Bool, true, false, List, [], ◌∷◌, Option, none,
  some, ◌==◌, ==_iff, if◌then◌else◌, Text, text_eq, text_eq_iff, contains, length, get_elem?,
  Bool-cases, contains-nil, contains-cons, contains-head, contains-append,
}
use u_flux.Comp.Ast.{Ins}
use u_flux.Comp.Arity.{at_key}
use u_flux.Comp.Frames.{Frames, local_name, with_name, add_to_frame, collect_frames, slot_of}

-- A name's slot.
pub record Slot (names : List Text) (n : Text) : Type 0 where
  pub slot : ℕ
  pub found : slot_of names n ≡ some slot
  pub holds : get_elem? names slot ≡ some n
  pub below : slot < length names

pub contains-Slot : (names : List Text) (n : Text) → contains names n ≡ true → Slot names n
unfolding slot_of
contains-Slot [] n h = cc (h, contains-nil n)
contains-Slot (m ∷ names) n h = elim (Bool-cases (text_eq m n)) [
  | inl e ↦ record {
    slot = 0;
    found = rw e refl;
    holds = ap some ((text_eq_iff m n).0 e);
    below = omega arith;
  }
  | inr e ↦
      let s = contains-Slot names n (ground (arith, contains-cons m names n)) in
      record {
        slot = suc s.slot;
        found = rw (e, s.found) refl;
        holds = s.holds;
        below = omega (arith, s.below);
      }
]

-- The frame of `b` holds the name `n`.
pub record Holds (frames : Frames) (b : ℕ) (n : Text) : Type 0 where
  pub names : List Text
  pub frame : at_key frames b ≡ some names
  pub member : contains names n ≡ true

with_name-contains : (n : Text) (names : List Text) → contains (with_name (some n) names) n ≡ true
with_name-contains n names = elim (Bool-cases (contains names n)) [
  | inl e ↦ rw e e
  | inr e ↦ rw e (ground (arith, contains-append names (n ∷ []) n, contains-head n []))
]

with_name-keeps :
    (o : Option Text) (names : List Text) (n : Text)
    → contains names n ≡ true
    → contains (with_name o names) n ≡ true
with_name-keeps none names n h = h
with_name-keeps (some m) names n h = elim (Bool-cases (contains names m)) [
  | inl e ↦ rw e h
  | inr e ↦ rw e (ground (arith, contains-append names (m ∷ []) n))
]

key_same : (b : ℕ) → (b == b) ≡ true
key_same b = (==_iff b b).1 refl

add_to_frame-Holds :
    (b : ℕ) (n : Text) (frames : Frames) → Holds (add_to_frame b (some n) frames) b n
unfolding add_to_frame at_key
add_to_frame-Holds b n [] = record {
  names = with_name (some n) [];
  frame = rw (key_same b) refl;
  member = with_name-contains n [];
}
add_to_frame-Holds b n ((c, names) ∷ frames) = by_key (c == b) refl (add_to_frame-Holds b n frames)
  where
    by_key :
        (t : Bool)
        → (c == b) ≡ t
        → Holds (add_to_frame b (some n) frames) b n
        → Holds
            (if t
              then (c, with_name (some n) names) ∷ frames
              else (c, names) ∷ add_to_frame b (some n) frames)
            b
            n
    by_key true e later = record {
      names = with_name (some n) names;
      frame = rw e refl;
      member = with_name-contains n names;
    }
    by_key false e later = record {
      names = later.names;
      frame = rw e later.frame;
      member = later.member;
    }

-- Adding to any frame keeps what a frame holds.
add_to_frame-keeps :
    (c : ℕ) (o : Option Text) (b : ℕ) (n : Text) (frames : Frames)
    → Holds frames b n
    → Holds (add_to_frame c o frames) b n
unfolding add_to_frame at_key
add_to_frame-keeps c o b n [] h = cc (h.frame)
add_to_frame-keeps c o b n ((d, names) ∷ frames) h =
    by_keys (d == c) (d == b) refl refl (add_to_frame-keeps c o b n frames)
  where
    by_keys :
        (t u : Bool)
        → (d == c) ≡ t
        → (d == b) ≡ u
        → (Holds frames b n → Holds (add_to_frame c o frames) b n)
        → Holds
            (if t then (d, with_name o names) ∷ frames else (d, names) ∷ add_to_frame c o frames)
            b
            n
    by_keys true true e f later =
        let same : some names ≡ some h.names = rw f at (h.frame) in
        record {
          names = with_name o names;
          frame = rw f refl;
          member = with_name-keeps o names n (cc (same, h.member));
        }
    by_keys true false e f later = record {
      names = h.names;
      frame = rw f (rw f at (h.frame));
      member = h.member;
    }
    by_keys false true e f later = record {
      names = h.names;
      frame = rw f (rw f at (h.frame));
      member = h.member;
    }
    by_keys false false e f later =
        let rest : Holds frames b n = record {
          names = h.names;
          frame = rw f at (h.frame);
          member = h.member;
        } in
        let next = later rest in
        record { names = next.names; frame = rw f (next.frame); member = next.member }

collect_frames-keeps :
    (b : ℕ) (n : Text) (code : List Ins) (bodies : List ℕ) (frames : Frames)
    → Holds frames b n
    → Holds (collect_frames code bodies frames) b n
unfolding collect_frames
collect_frames-keeps b n [] bodies frames h = h
collect_frames-keeps b n (y ∷ code) [] frames h = h
collect_frames-keeps b n (y ∷ code) (c ∷ bodies) frames h =
    collect_frames-keeps b n code bodies _ (add_to_frame-keeps c (local_name y) b n frames h)

pub collect_frames-Holds :
    (b : ℕ) (n : Text) (y : Ins) (code : List Ins) (bodies : List ℕ) (i : ℕ) (frames : Frames)
    → get_elem? code i ≡ some y
    → get_elem? bodies i ≡ some b
    → local_name y ≡ some n
    → Holds (collect_frames code bodies frames) b n
unfolding collect_frames
collect_frames-Holds b n y [] bodies i frames e f g = cc (e)
collect_frames-Holds b n y (z ∷ code) [] i frames e f g = cc (f)
collect_frames-Holds b n y (z ∷ code) (c ∷ bodies) zero frames e f g =
    let same : local_name z ≡ some n = cc (e, g) in
    let body : c ≡ b = cc (f) in
    rw (same, body)
      (collect_frames-keeps b n code bodies (add_to_frame b (some n) frames)
        (add_to_frame-Holds b n frames))
collect_frames-Holds b n y (z ∷ code) (c ∷ bodies) (suc i) frames e f g =
    collect_frames-Holds b n y code bodies i _ e f g
