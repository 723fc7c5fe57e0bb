-- ===== src/Comp/Earliest.antt =====
-- The call bodies of comp/src/parse.rs: which of its labels' bodies a component takes.
use u_flux.Prelude.{
  ◌⊎◌, ℕ, ◌+◌, ◌<◌, ◌≤◌, ◌≡◌, refl, ap, ◌∙◌, arith, Bool, true, false, List, [], ◌∷◌, Option, some,
  ltb, if◌then◌else◌, inl, inr,
}
use u_flux.Comp.Ast.{Parsed}
use u_flux.Comp.UnionFind.{Parents, value_at, or_else, find, count_refs}
use u_flux.Comp.Forests.{Forest, root_of-Forest, compress-Forest, same_or_not}
use u_flux.Comp.Components.{link_ranges-Linked, own_parents-Forest}
use u_flux.Comp.Bodies.{
  member, sorted_pcs, ranges, least, comp_bodies, positional, call_entries, label_bodies,
}
use u_flux.Comp.Ranges.{member-tail}
use u_flux.Comp.BodyLaws.{value-here, value-else, comp_bodies-Filled, relabel-value}

-- An entry that is no later than `v`.
unfoldable pub Below : Parents → ℕ → ℕ → Type 0
Below m x v = (b : ℕ) × ((value_at m x ≡ some b) × (b ≤ v))

least-le : (pos : ℕ) (comp : Parents) (root : ℕ) → least pos comp root ≤ pos
least-le pos comp root = by_value (value_at comp root)
  where
    by_test : (e : ℕ) (b : Bool) → ltb pos e ≡ b → (if b then pos else e) ≤ pos
    by_test e true h = omega arith
    by_test e false h = ground (arith, h)

    by_value : (o : Option ℕ) → (if ltb pos (or_else pos o) then pos else or_else pos o) ≤ pos
    by_value o = by_test (or_else pos o) (ltb pos (or_else pos o)) refl

least-entry :
    (pos : ℕ) (comp : Parents) (root b : ℕ) → value_at comp root ≡ some b → least pos comp root ≤ b
least-entry pos comp root b e = rw e (by_test (ltb pos b) refl)
  where
    by_test : (c : Bool) → ltb pos b ≡ c → (if c then pos else b) ≤ b
    by_test true h = ground (arith, h)
    by_test false h = omega arith

least-Below :
    (m : Parents) (pos k x v : ℕ)
    → ((k ≡ x) × (pos ≤ v)) ⊎ Below m x v
    → Below ((k, least pos m k) ∷ m) x v
unfolding Below
least-Below m pos k x v h = elim (same_or_not k x) [
  | inl e ↦ (
    least pos m k,
    (
      value-here m k (least pos m k) x e,
      elim h [
        | inl (_, le) ↦ omega (arith, le, least-le pos m k)
        | inr (b, g) ↦ omega (arith, g.1, least-entry pos m k b (ap (value_at m) e ∙ g.0))
      ],
    ),
  )
  | inr n ↦ elim h [
    | inl (e, _) ↦ absurd (n e)
    | inr (b, g) ↦ (b, (value-else m k (least pos m k) x n ∙ g.0, g.1))
  ]
]

comp_bodies-Below :
    (f : ℕ) (labels : Parents) (r d : ℕ → ℕ) (x : ℕ) (pcs : List ℕ) (m comp : Parents)
    → Forest m r d
    → ((y : ℕ) → d y < f)
    → (member pcs x ≡ true) ⊎ Below comp (r x) (or_else 0 (value_at labels x))
    → Below (comp_bodies f labels m pcs comp).0 (r x) (or_else 0 (value_at labels x))
unfolding comp_bodies find member
comp_bodies-Below f labels r d x [] m comp forest near h = elim h [ inl e ↦ cc | inr b ↦ b ]
comp_bodies-Below f labels r d x (pc ∷ pcs) m comp forest near h =
    rw (comp_bodies, find, root_of-Forest forest f pc (near pc))
      (comp_bodies-Below f labels r d x pcs _ _ (compress-Forest f pc forest) near
        (elim (same_or_not pc x) [
          | inl e ↦ inr (
              least-Below comp (or_else 0 (value_at labels pc)) (r pc) (r x) _
                (inl (ap r e, here e)))
          | inr n ↦ elim h [
            | inl e ↦ inl (member-tail pc pcs x n e)
            | inr b ↦ inr (least-Below comp (or_else 0 (value_at labels pc)) (r pc) (r x) _ (inr b))
          ]
        ]))
  where
    here : pc ≡ x → or_else 0 (value_at labels pc) ≤ or_else 0 (value_at labels x)
    here e = rw e (omega arith)

-- The call body of a label is no later than the call entry at or before the label, or 0 where there
-- is none.
pub label_bodies-earliest :
    (p : Parsed) (x : ℕ)
    → member (sorted_pcs p.labels) x ≡ true
    → Below
        (label_bodies p)
        x
        (or_else 0 (value_at (positional (call_entries p) 0 (sorted_pcs p.labels)) x))
unfolding label_bodies Below
label_bodies-earliest p x mx =
    let pcs = sorted_pcs p.labels in
    let rs = ranges p pcs in
    let f = count_refs rs + 1 in
    let g =
      (link_ranges-Linked f rs 0 (own_parents-Forest pcs) (λ y. omega arith) (omega arith)).grown in
    let near : (y : ℕ) → g.depth y < f = λ y. omega (arith, g.near y) in
    let first = positional (call_entries p) 0 pcs in
    let filled = comp_bodies-Filled f first g.root g.depth pcs _ [] g.forest near in
    let found = comp_bodies-Below f first g.root g.depth x pcs _ [] g.forest near (inl mx) in
    (
      found.0,
      (
        relabel-value f _ g.root g.depth x found.0 pcs _ first filled.forest near found.1.0
            (inl mx),
        found.1.1,
      ),
    )
