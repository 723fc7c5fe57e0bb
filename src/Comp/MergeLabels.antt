-- ===== src/Comp/MergeLabels.antt =====
-- The labels of merged units in comp/src/parse.rs.
use u_flux.Prelude.{
  ℕ, ◌+◌, ◌≡◌, ◌≢◌, refl, sym, ap, ◌∙◌, arith, Bool, true, false, List, [], ◌∷◌, Option, none, some,
  if◌then◌else◌, Text, text_eq, text_eq_iff, text_eq_refl, ok, ◌>>=◌, Bool-cases, inl, inr,
}
use u_flux.Comp.Opcodes.{entry}
use u_flux.Comp.Merge.{mangle, put_label, add_labels, add_pubs, pub_at}

-- A name without a colon.
abbrev pub IsPlain : Text → Type 0
IsPlain [] = Unit {0}
IsPlain (c ∷ s) = (c ≢ b':') × IsPlain s

pub mangle-name : (a b l k : Text) → IsPlain a → IsPlain b → mangle a l ≡ mangle b k → a ≡ b
unfolding mangle
mangle-name [] [] l k p q e = refl
mangle-name [] (c ∷ b) l k p q e = let head : b':' ≡ c = cc (e) in absurd (q.0 (sym head))
mangle-name (c ∷ a) [] l k p q e = let head : c ≡ b':' = cc (e) in absurd (p.0 head)
mangle-name (c ∷ a) (d ∷ b) l k p q e =
    let head : c ≡ d = cc (e) in
    let tail : mangle a l ≡ mangle b k = cc (e) in
    let rest : a ≡ b = mangle-name a b l k p.1 q.1 tail in cc (head, rest)

pub mangle-label : (a l k : Text) → mangle a l ≡ mangle a k → l ≡ k
unfolding mangle
mangle-label [] l k e = cc (e)
mangle-label (c ∷ a) l k e = let tail : mangle a l ≡ mangle a k = cc (e) in mangle-label a l k tail

text_ne : (s t : Text) → s ≢ t → text_eq s t ≡ false
text_ne s t n = elim (Bool-cases (text_eq s t)) [
  | inl e ↦ absurd (n ((text_eq_iff s t).0 e))
  | inr e ↦ e
]

entry-put_label :
    (l : Text) (pc : ℕ) (labels : List (Text × ℕ)) (t : Text)
    → entry (put_label l pc labels) t ≡ (if text_eq l t then some pc else entry labels t)
unfolding entry put_label
entry-put_label l pc [] t = refl
entry-put_label l pc ((n, q) ∷ labels) t =
    ground (arith, entry-put_label l pc labels t, text_eq_iff n l, text_eq_iff l t, text_eq_iff n t)

entry-put_label_self :
    (l : Text) (pc : ℕ) (labels : List (Text × ℕ)) → entry (put_label l pc labels) l ≡ some pc
entry-put_label_self l pc labels = entry-put_label l pc labels l ∙ rw (text_eq_refl l) refl

entry-put_label_other :
    (l : Text) (pc : ℕ) (labels : List (Text × ℕ)) (t : Text)
    → l ≢ t
    → entry (put_label l pc labels) t ≡ entry labels t
entry-put_label_other l pc labels t n = entry-put_label l pc labels t ∙ rw (text_ne l t n) refl

-- The labels of a unit leave other names alone.
pub add_labels-other :
    (m : Text) (off : ℕ) (t : Text) (labels all : List (Text × ℕ))
    → ((l : Text) → mangle m l ≢ t)
    → entry (add_labels m off labels all) t ≡ entry all t
unfolding add_labels
add_labels-other m off t [] all n = refl
add_labels-other m off t ((l, pc) ∷ labels) all n =
    add_labels-other m off t labels _ n ∙ entry-put_label_other (mangle m l) (pc + off) all t (n l)

-- A map holds a key once.
abbrev pub Once : List (Text × ℕ) → Type 0
Once [] = Unit {0}
Once ((l, _) ∷ labels) = (entry labels l ≡ none) × Once labels

add_labels-absent :
    (m : Text) (off : ℕ) (l : Text) (labels all : List (Text × ℕ))
    → entry labels l ≡ none
    → entry (add_labels m off labels all) (mangle m l) ≡ entry all (mangle m l)
unfolding entry add_labels
add_labels-absent m off l [] all h = refl
add_labels-absent m off l ((k, pc) ∷ labels) all h =
    by_name (text_eq k l) refl h (add_labels-absent m off l labels _)
  where
    by_name :
        (b : Bool)
        → text_eq k l ≡ b
        → (if b then some pc else entry labels l) ≡ none
        → (entry labels l ≡ none
            → entry (add_labels m off labels (put_label (mangle m k) (pc + off) all)) (mangle m l)
              ≡ entry (put_label (mangle m k) (pc + off) all) (mangle m l))
        → entry (add_labels m off labels (put_label (mangle m k) (pc + off) all)) (mangle m l)
          ≡ entry all (mangle m l)
    by_name true e h later = cc (h)
    by_name false e h later =
        later h
        ∙ entry-put_label_other (mangle m k) (pc + off) all (mangle m l)
            (λ s. let same : k ≡ l = mangle-label m k l s in cc (e, (text_eq_iff k l).1 same))

-- A label of the unit gets its shifted position.
pub add_labels-own :
    (m : Text) (off : ℕ) (l : Text) (pc : ℕ) (labels all : List (Text × ℕ))
    → Once labels
    → entry labels l ≡ some pc
    → entry (add_labels m off labels all) (mangle m l) ≡ some (pc + off)
unfolding entry add_labels
add_labels-own m off l pc [] all o h = cc (h)
add_labels-own m off l pc ((k, q) ∷ labels) all o h =
    by_name (text_eq k l) refl h (add_labels-own m off l pc labels _ o.1)
  where
    by_name :
        (b : Bool)
        → text_eq k l ≡ b
        → (if b then some q else entry labels l) ≡ some pc
        → (entry labels l ≡ some pc
            → entry (add_labels m off labels (put_label (mangle m k) (q + off) all)) (mangle m l)
              ≡ some (pc + off))
        → entry (add_labels m off labels (put_label (mangle m k) (q + off) all)) (mangle m l)
          ≡ some (pc + off)
    by_name true e h later =
        let same : k ≡ l = (text_eq_iff k l).0 e in
        let place : q ≡ pc = cc (h) in
        rw (← same, ← place)
          (add_labels-absent m off k labels (put_label (mangle m k) (q + off) all) o.0
            ∙ entry-put_label_self (mangle m k) (q + off) all)
    by_name false e h later = later h

-- A public name is new, so it takes no label's place.
pub add_pubs-keeps :
    (labels : List (Text × ℕ)) (off : ℕ) (t : Text) (x : ℕ) (pubs : List Text)
    → (all : List (Text × ℕ)) {out : List (Text × ℕ)} → add_pubs labels off pubs all ≡ ok out
    → entry all t ≡ some x
    → entry out t ≡ some x
unfolding add_pubs
add_pubs-keeps labels off t x [] all {out} h e = let same : all ≡ out = cc (h) in rw (← same) e
add_pubs-keeps labels off t x (n ∷ pubs) all {out} h e =
    by_pub (entry all n) refl (entry labels n) h
      (λ pc. add_pubs-keeps labels off t x pubs (put_label n (pc + off) all))
  where
    by_pub :
        (o : Option ℕ)
        → entry all n ≡ o
        → (own : Option ℕ)
        → (pub_at o own n off all >>= λ all'. add_pubs labels off pubs all') ≡ ok out
        → ((pc : ℕ)
            → add_pubs labels off pubs (put_label n (pc + off) all) ≡ ok out
            → entry (put_label n (pc + off) all) t ≡ some x
            → entry out t ≡ some x)
        → entry out t ≡ some x
    by_pub (some _) f own h later = cc (h)
    by_pub none f none h later = cc (h)
    by_pub none f (some pc) h later = later pc h (
        entry-put_label_other n (pc + off) all t
          (λ s. let gone : some x ≡ none = sym e ∙ ap (entry all) (sym s) ∙ f in cc (gone))
        ∙ e)
