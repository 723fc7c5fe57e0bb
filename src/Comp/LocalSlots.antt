-- ===== src/Comp/LocalSlots.antt =====
-- The slots of locals in comp/src/parse.rs.
use u_flux.Prelude.{
  ℕ, zero, suc, ◌<◌, ◌≡◌, refl, sym, ◌∙◌, arith, Bool, true, false, ◌||◌, List, [], ◌∷◌, Option,
  some, ◌==◌, ==_iff, if◌then◌else◌, Text, length, get_elem?,
}
use u_flux.Comp.Ast.{Ins, Parsed}
use u_flux.Comp.Arity.{at_key, has_key}
use u_flux.Comp.Forests.{not_same}
use u_flux.Comp.Frames.{
  Frames, local_name, with_name, add_to_frame, collect_frames, slot_of, with_slot, resolve_slots,
  put_key, put_frames,
}
use u_flux.Comp.FrameLaws.{Slot, contains-Slot, Holds, collect_frames-Holds}
use u_flux.Comp.Compaction.{kept, kept_bodies}
use u_flux.Comp.Locals.{finish_locals}

-- No two frames of one body.
abbrev Distinct : Frames → Type 0
Distinct [] = Unit {0}
Distinct ((b, _) ∷ frames) = (has_key frames b ≡ false) × Distinct frames

add_to_frame-key :
    (c : ℕ) (o : Option Text) (b : ℕ) (frames : Frames)
    → (c == b) ≡ false
    → has_key frames b ≡ false
    → has_key (add_to_frame c o frames) b ≡ false
unfolding add_to_frame has_key
add_to_frame-key c o b [] n h = rw n refl
add_to_frame-key c o b ((d, names) ∷ frames) n h =
    by_key (d == c) (add_to_frame-key c o b frames n (rest (d == b) h))
  where
    rest : (t : Bool) → (t || has_key frames b) ≡ false → has_key frames b ≡ false
    rest true e = cc
    rest false e = e

    head : (t u : Bool) → (t || u) ≡ false → t ≡ false
    head true u e = cc
    head false u e = refl

    by_key :
        (t : Bool)
        → has_key (add_to_frame c o frames) b ≡ false
        → has_key
            (if t then (d, with_name o names) ∷ frames else (d, names) ∷ add_to_frame c o frames)
            b
          ≡ false
    by_key true later = h
    by_key false later = rw (head (d == b) (has_key frames b) h) later

add_to_frame-Distinct :
    (c : ℕ) (o : Option Text) (frames : Frames)
    → Distinct frames
    → Distinct (add_to_frame c o frames)
unfolding add_to_frame has_key
add_to_frame-Distinct c o [] h = (refl, tt)
add_to_frame-Distinct c o ((d, names) ∷ frames) h =
    by_key (d == c) refl (add_to_frame-Distinct c o frames h.1)
  where
    by_key :
        (t : Bool)
        → (d == c) ≡ t
        → Distinct (add_to_frame c o frames)
        → Distinct
            (if t then (d, with_name o names) ∷ frames else (d, names) ∷ add_to_frame c o frames)
    by_key true e later = h
    by_key false e later =
        let apart : (c == d) ≡ false = not_same c d (λ s. cc (e, (==_iff d c).1 (sym s))) in
        (add_to_frame-key c o d frames apart h.0, later)

collect_frames-Distinct :
    (code : List Ins) (bodies : List ℕ) (frames : Frames)
    → Distinct frames
    → Distinct (collect_frames code bodies frames)
unfolding collect_frames
collect_frames-Distinct [] bodies frames h = h
collect_frames-Distinct (y ∷ code) [] frames h = h
collect_frames-Distinct (y ∷ code) (c ∷ bodies) frames h =
    collect_frames-Distinct code bodies _ (add_to_frame-Distinct c (local_name y) frames h)

module _ {A : Type 0} where
  at_key-put_key :
      (k : ℕ) (a : A) (m : List (ℕ × A)) (j : ℕ)
      → at_key (put_key k a m) j ≡ (if k == j then some a else at_key m j)
  unfolding at_key put_key
  at_key-put_key k a [] j = refl
  at_key-put_key k a ((i, b) ∷ m) j =
      ground (arith, at_key-put_key k a m j, ==_iff i k, ==_iff k j, ==_iff i j)

  put_frames-skip :
      (f : List Text → A) (frames : Frames) (m : List (ℕ × A)) (b : ℕ)
      → has_key frames b ≡ false
      → at_key (put_frames f frames m) b ≡ at_key m b
  unfolding put_frames has_key
  put_frames-skip f [] m b h = refl
  put_frames-skip f ((c, names) ∷ frames) m b h =
      by_key (c == b) refl (has_key frames b) refl h
        (put_frames-skip f frames (put_key c (f names) m) b)
    where
      by_key :
          (t : Bool)
          → (c == b) ≡ t
          → (u : Bool) → has_key frames b ≡ u
          → (t || u) ≡ false
          → (has_key frames b ≡ false
              → at_key (put_frames f frames (put_key c (f names) m)) b
                ≡ at_key (put_key c (f names) m) b)
          → at_key (put_frames f frames (put_key c (f names) m)) b ≡ at_key m b
      by_key true e u k h later = cc
      by_key false e true k h later = cc
      by_key false e false k h later = later k ∙ at_key-put_key c (f names) m b ∙ (rw e refl)

  -- What step 5 records for a frame.
  put_frames-at :
      (f : List Text → A) (frames : Frames) (m : List (ℕ × A)) (b : ℕ) (names : List Text)
      → Distinct frames
      → at_key frames b ≡ some names
      → at_key (put_frames f frames m) b ≡ some (f names)
  unfolding put_frames at_key
  put_frames-at f [] m b names d h = cc
  put_frames-at f ((c, held) ∷ frames) m b names d h =
      by_key (c == b) refl (put_frames-at f frames (put_key c (f held) m) b names d.1)
    where
      by_key :
          (t : Bool)
          → (c == b) ≡ t
          → (at_key frames b ≡ some names
              → at_key (put_frames f frames (put_key c (f held) m)) b ≡ some (f names))
          → at_key (put_frames f frames (put_key c (f held) m)) b ≡ some (f names)
      by_key true e later =
          let same : held ≡ names = cc (rw e at h) in
          let body : c ≡ b = (==_iff c b).0 e in
          let free : has_key frames b ≡ false = rw (← body) (d.0) in
          put_frames-skip f frames (put_key c (f held) m) b free
          ∙ at_key-put_key c (f held) m b
          ∙ rw (e, same) refl
      by_key false e later = later (rw e at h)

resolve_slots-at :
    (frames : Frames) (b : ℕ) (n : Text) (y : Ins) (h : Holds frames b n) (s : Slot h.names n)
    → (code : List Ins) (bodies : List ℕ) (i : ℕ) → get_elem? code i ≡ some y
    → get_elem? bodies i ≡ some b
    → local_name y ≡ some n
    → get_elem? (resolve_slots frames code bodies) i ≡ some (with_slot y (some s.slot))
unfolding resolve_slots
resolve_slots-at frames b n y h s [] bodies i e f g = cc (e)
resolve_slots-at frames b n y h s (z ∷ code) [] i e f g = cc (f)
resolve_slots-at frames b n y h s (z ∷ code) (c ∷ bodies) zero e f g =
    let same : z ≡ y = cc (e) in
    let body : c ≡ b = cc (f) in rw (same, body, g, h.frame, s.found) refl
resolve_slots-at frames b n y h s (z ∷ code) (c ∷ bodies) (suc i) e f g =
    resolve_slots-at frames b n y h s code bodies i e f g

-- What the code `q` holds for a store or read `y` of the local `n` at the position `i` of a body `b`.
pub record Slotted (q : Parsed) (i b : ℕ) (y : Ins) (n : Text) : Type 0 where
  pub names : List Text
  pub slot : ℕ
  pub resolved : get_elem? q.ins i ≡ some (with_slot y (some slot))
  pub recorded : at_key q.local_names b ≡ some names
  pub sized : at_key q.local_counts b ≡ some (length names)
  pub within : slot < length names
  pub named : get_elem? names slot ≡ some n
  pub found : slot_of names n ≡ some slot

-- A store or read of a local gets a slot below the recorded size of its body's frame, at which the
-- recorded names hold its name, and which is the slot of that name.
pub finish_locals-Slotted :
    (p : Parsed) (vars : List Text) (code : List Ins) (bodies : List ℕ)
    → (i b : ℕ) (y : Ins) (n : Text) → get_elem? (kept code) i ≡ some y
    → get_elem? (kept_bodies code bodies) i ≡ some b
    → local_name y ≡ some n
    → Slotted (finish_locals p vars code bodies) i b y n
unfolding finish_locals
finish_locals-Slotted p vars code bodies i b y n e f g =
    let frames = collect_frames (kept code) (kept_bodies code bodies) [] in
    let d = collect_frames-Distinct (kept code) (kept_bodies code bodies) [] tt in
    let h : Holds frames b n =
      collect_frames-Holds b n y (kept code) (kept_bodies code bodies) i [] e f g in
    let s = contains-Slot h.names n h.member in
    record {
      names = h.names;
      slot = s.slot;
      resolved = resolve_slots-at frames b n y h s (kept code) (kept_bodies code bodies) i e f g;
      recorded = put_frames-at (λ names. names) frames p.local_names b h.names d h.frame;
      sized = put_frames-at (λ names. length names) frames p.local_counts b h.names d h.frame;
      within = s.below;
      named = s.holds;
      found = s.found;
    }
