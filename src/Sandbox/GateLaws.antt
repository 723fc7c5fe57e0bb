-- ===== src/Sandbox/GateLaws.antt =====
-- The gate of a compiled program (`uf_fs_gate` of the C text in comp/src/prelude.rs) beside the paths
-- that lie under a root.
use mathlib.Core.List.{reverse-cons, reverse-append, reverse-reverse}
use u_flux.Prelude.{
  ℕ, ◌≡◌, ◌↔◌, ◌⊎◌, inl, inr, refl, sym, ap, ◌∙◌, Bool, true, false, not, ◌||◌, List, [], ◌∷◌, ◌++◌,
  reverse, Option, none, some, append_assoc, append-nil, ◌==◌, ==_iff, if◌then◌else◌, Text, codes,
  take, drop, length, any, &&_iff, starts_with, starts_with-some, starts_with-append, All,
}
use u_flux.Sandbox.Caps.{Caps}
use u_flux.Sandbox.Bake.{roots_or_none, baked_globals}
use u_flux.Sandbox.BakeLaws.{is_nil, fs_gate-baked_globals}
use u_flux.Sandbox.Gate.{
  at_boundary, cut_at_slash, parent_of, resolved, is_inside, under_root, fs_gate,
}

-- No slash.
abbrev pub IsName : Text → Type 0
IsName = All (λ c. (c == b'/') ≡ false)

-- The path that is resolved in place of one that does not resolve.
pub data ParentIs : Text → Text → Type 0 where
  bare : (name : Text) → IsName name → ParentIs name (codes ".")
  at_top : (name : Text) → IsName name → ParentIs (b'/' ∷ name) (b'/' ∷ name)
  in_dir : (c : ℕ) (dir name : Text) → IsName name → ParentIs ((c ∷ dir) ++ b'/' ∷ name) (c ∷ dir)

-- The root itself, or a path with a slash behind the root.
pub data Under : Text → Text → Type 0 where
  root_itself : {root : Text} → Under root root
  below : {root : Text} (rest : Text) → Under (root ++ b'/' ∷ rest) root

drop-length : (s t : Text) → drop (length s) (s ++ t) ≡ t
drop-length [] t = refl
drop-length (c ∷ s) t = drop-length s t

Under-boundary : (root rest : Text) → at_boundary rest ≡ true → Under (root ++ rest) root
Under-boundary root [] h = rw append-nil root_itself
Under-boundary root (c ∷ rest) h =
    let slash : c ≡ b'/' = (==_iff c b'/').0 h in rw slash (below rest)

under_root_iff : (r root : Text) → (under_root r root ≡ true) ↔ Under r root
under_root_iff r root = (forth, back)
  where
    forth : under_root r root ≡ true → Under r root
    forth h =
        let (starts, ends) = (&&_iff (starts_with r root) _).0 h in
        let (rest, e) = starts_with-some r root starts in
        let tail : drop (length root) r ≡ rest =
          ap (drop (length root)) e ∙ drop-length root rest in
        rw e (Under-boundary root rest (ap at_boundary (sym tail) ∙ ends))

    at_rest : (rest : Text) → at_boundary rest ≡ true → under_root (root ++ rest) root ≡ true
    at_rest rest h = rw (starts_with-append, drop-length, h) refl

    back : {r : Text} → Under r root → under_root r root ≡ true
    back root_itself = ap (λ r. under_root r root) (sym (append-nil root)) ∙ at_rest [] refl
    back (below rest) = at_rest (b'/' ∷ rest) refl

cut-name :
    (path name rest : Text)
    → IsName name
    → cut_at_slash path (name ++ rest) ≡ cut_at_slash path rest
cut-name path [] rest h = refl
cut-name path (c ∷ name) rest h = rw (h.0) (cut-name path name rest h.1)

IsName-append : (s t : Text) → IsName s → IsName t → IsName (s ++ t)
IsName-append [] t h k = k
IsName-append (c ∷ s) t h k = (h.0, IsName-append s t h.1 k)

IsName-reverse : (s : Text) → IsName s → IsName (reverse s)
IsName-reverse [] h = tt
IsName-reverse (c ∷ s) h =
    rw reverse-cons (IsName-append (reverse s) (c ∷ []) (IsName-reverse s h.1) (h.0, tt))

-- What the search gives at a slash with `before` in front of it.
before_slash_lem :
    (path u : Text) (c : ℕ) (dir : Text)
    → reverse u ≡ c ∷ dir
    → elim u [ [] ↦ path | d ∷ ds ↦ reverse (d ∷ ds) ] ≡ c ∷ dir
before_slash_lem path [] c dir e = cc
before_slash_lem path (d ∷ ds) c dir e = e

ParentIs-parent_of : {path q : Text} → ParentIs path q → parent_of path ≡ q
unfolding parent_of
ParentIs-parent_of (bare name h) =
    ap (cut_at_slash name) (sym (append-nil (reverse name)))
    ∙ cut-name name (reverse name) [] (IsName-reverse name h)
ParentIs-parent_of (at_top name h) =
    rw reverse-cons (cut-name (b'/' ∷ name) (reverse name) (b'/' ∷ []) (IsName-reverse name h))
ParentIs-parent_of (in_dir c dir name h) =
    rw (reverse-append, reverse-cons b'/' name, append_assoc)
      (cut-name _ (reverse name) (b'/' ∷ reverse (c ∷ dir)) (IsName-reverse name h)
        ∙ before_slash_lem _ (reverse (c ∷ dir)) c dir (reverse-reverse (c ∷ dir)))

in_some_dir :
    (u name : Text) (d : ℕ) (ds : Text) → u ≡ d ∷ ds → IsName name → ParentIs (u ++ b'/' ∷ name) u
in_some_dir u name d ds e h = rw e (in_dir d ds name h)

reverse-cons_form : (d : ℕ) (ds : Text) → (c : ℕ) × (dir : Text) × (reverse (d ∷ ds) ≡ c ∷ dir)
reverse-cons_form d ds = by_front (reverse ds) (reverse-cons d ds)
  where
    by_front :
        (t : Text)
        → reverse (d ∷ ds) ≡ t ++ d ∷ []
        → (c : ℕ) × (dir : Text) × (reverse (d ∷ ds) ≡ c ∷ dir)
    by_front [] e = (d, [], e)
    by_front (c ∷ t) e = (c, t ++ d ∷ [], e)

-- The search from `u`, the rest of the reversed path, with `name` behind it.
cut-ParentIs :
    (path u name : Text)
    → path ≡ reverse u ++ name
    → IsName name
    → ParentIs path (cut_at_slash path u)
cut-ParentIs path [] name e h = rw e (bare name h)
cut-ParentIs path (c ∷ u) name e h =
    by_slash (c == b'/') refl (λ k. cut-ParentIs path u (c ∷ name) (e ∙ moved) (k, h))
  where
    moved : reverse (c ∷ u) ++ name ≡ reverse u ++ c ∷ name
    moved = rw (reverse-cons, append_assoc) refl

    at_slash :
        (v : Text)
        → path ≡ reverse v ++ b'/' ∷ name
        → ParentIs path (elim v [ [] ↦ path | d ∷ ds ↦ reverse (d ∷ ds) ])
    at_slash [] k = rw k (at_top name h)
    at_slash (d ∷ ds) k =
        let (x, dir, f) = reverse-cons_form d ds in
        rw k (in_some_dir (reverse (d ∷ ds)) name x dir f h)

    by_slash :
        (b : Bool)
        → (c == b'/') ≡ b
        → ((c == b'/') ≡ false → ParentIs path (cut_at_slash path u))
        → ParentIs path
            (if b then (elim u [ [] ↦ path | d ∷ ds ↦ reverse (d ∷ ds) ]) else cut_at_slash path u)
    by_slash true k later =
        let slash : c ≡ b'/' = (==_iff c b'/').0 k in
        at_slash u (e ∙ moved ∙ ap (λ x. reverse u ++ x ∷ name) slash)
    by_slash false k later = later k

parent_of-ParentIs : (path : Text) → ParentIs path (parent_of path)
unfolding parent_of
parent_of-ParentIs path =
    cut-ParentIs path (reverse path) [] (sym (reverse-reverse path) ∙ sym (append-nil _)) tt

module _ (realpath : Text → Option Text) where
  -- The path that stands for `path` in the gate.
  pub data Resolves (path r : Text) : Type 0 where
    directly : realpath path ≡ some r → Resolves path r
    by_parent :
        {q : Text} → realpath path ≡ none → ParentIs path q → realpath q ≡ some r → Resolves path r

  resolved_iff : (path r : Text) → (resolved realpath path ≡ some r) ↔ Resolves path r
  unfolding resolved
  resolved_iff path r = (forth (realpath path) refl, back)
    where
      forth :
          (o : Option Text)
          → realpath path ≡ o
          → elim o [ some a ↦ some a | none ↦ realpath (parent_of path) ] ≡ some r
          → Resolves path r
      forth (some a) e k = directly (e ∙ k)
      forth none e k = by_parent e (parent_of-ParentIs path) k

      back : Resolves path r → resolved realpath path ≡ some r
      back (directly e) = rw e refl
      back (by_parent {q} e p k) = let same = ParentIs-parent_of p in rw e (ap realpath same ∙ k)

  -- One of the roots has the path under it.
  abbrev pub UnderOne : Text → List Text → Type 0
  UnderOne r [] = ⊥
  UnderOne r (root ∷ roots) = Under r root ⊎ UnderOne r roots

  any-UnderOne :
      (r : Text) (roots : List Text) → (any (under_root r) roots ≡ true) ↔ UnderOne r roots
  any-UnderOne r [] = (λ h. cc, λ h. elim h [ ])
  any-UnderOne r (root ∷ roots) = (
    by_test (under_root r root) refl (any-UnderOne r roots).0,
    by_choice (any-UnderOne r roots).1,
  )
    where
      by_test :
          (b : Bool)
          → under_root r root ≡ b
          → (any (under_root r) roots ≡ true → UnderOne r roots)
          → (b || any (under_root r) roots) ≡ true
          → Under r root ⊎ UnderOne r roots
      by_test true e later h = inl ((under_root_iff r root).0 e)
      by_test false e later h = inr (later h)

      right_true : (b : Bool) → (b || true) ≡ true
      right_true true = refl
      right_true false = refl

      by_choice :
          (UnderOne r roots → any (under_root r) roots ≡ true)
          → Under r root ⊎ UnderOne r roots
          → (under_root r root || any (under_root r) roots) ≡ true
      by_choice later (inl u) = rw ((under_root_iff r root).1 u) refl
      by_choice later (inr u) = rw (later u) (right_true (under_root r root))

  is_inside_iff :
      (path : Text) (roots : List Text)
      → (is_inside realpath roots (resolved realpath path) ≡ true)
        ↔ ((r : Text) × Resolves path r × UnderOne r roots)
  is_inside_iff path roots = (forth (resolved realpath path) refl, back)
    where
      forth :
          (o : Option Text)
          → resolved realpath path ≡ o
          → is_inside realpath roots o ≡ true
          → (r : Text) × Resolves path r × UnderOne r roots
      forth none e h = cc
      forth (some r) e h = (r, (resolved_iff path r).0 e, (any-UnderOne r roots).0 h)

      back :
          (r : Text) × Resolves path r × UnderOne r roots
          → is_inside realpath roots (resolved realpath path) ≡ true
      back (r, p, u) = rw ((resolved_iff path r).1 p) ((any-UnderOne r roots).1 u)

  -- In a compiled program the gate lets a path through exactly when the build is not sandboxed, there
  -- are no workspace roots, or the path resolves, or else its parent does, to one of the first 16
  -- roots or to a path that has one of them and a slash in front.
  pub fs_gate_iff :
      (c : Caps) (device path : Text)
      → (fs_gate realpath (baked_globals c device) path ≡ true) ↔ (
          (c.is_sandboxed ≡ false)
          ⊎ (roots_or_none c.workspace ≡ [])
          ⊎ ((r : Text) × Resolves path r × UnderOne r (take 16 (roots_or_none c.workspace))))
  fs_gate_iff c device path = rw fs_gate-baked_globals (
      by_build c.is_sandboxed (roots_or_none c.workspace)
        (is_inside_iff path (take 16 (roots_or_none c.workspace))))
    where
      by_build :
          {P : Type 0} (on : Bool) (roots : List Text) {b : Bool}
          → (b ≡ true) ↔ P
          → ((not on || is_nil roots || b) ≡ true) ↔ ((on ≡ false) ⊎ (roots ≡ []) ⊎ P)
      by_build false roots i = (λ h. inl refl, λ h. refl)
      by_build true [] i = (λ h. inr (inl refl), λ h. refl)
      by_build {P} true (r ∷ roots) {b} i = (λ h. inr (inr (i.0 h)), by_choice)
        where
          by_choice : (true ≡ false) ⊎ ((r ∷ roots) ≡ []) ⊎ P → b ≡ true
          by_choice (inl e) = cc
          by_choice (inr (inl e)) = cc
          by_choice (inr (inr q)) = i.1 q
