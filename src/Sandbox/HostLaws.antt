-- ===== src/Sandbox/HostLaws.antt =====
-- `path_within` of comp/src/sandbox.rs, beside the paths above a path that exist.
use u_flux.Prelude.{
  ℕ, zero, suc, ◌<◌, ◌≡◌, ◌↔◌, refl, Bool, true, false, Option, none, some, if◌then◌else◌, arith,
  Text, length,
}
use u_flux.Sandbox.Host.{Host, existing_ancestor, path_within, within_resolved, resolves_under}

module _ (h : Host) where
  -- The first path from `p` upwards that exists.
  pub data Nearest : Text → Text → Type 0 where
    here : {p : Text} → h.exists p ≡ true → Nearest p p
    above : {p q a : Text} → h.exists p ≡ false → h.parent p ≡ some q → Nearest q a → Nearest p a

  Nearest-existing : {p a : Text} → h.exists p ≡ true → Nearest p a → p ≡ a
  Nearest-existing e (here _) = refl
  Nearest-existing e (above m k n) = cc

  Nearest-missing :
      {p q a : Text} → h.exists p ≡ false → h.parent p ≡ some q → Nearest p a → Nearest q a
  Nearest-missing e k (here m) = cc
  Nearest-missing {q = q} e k (above {q = r} m j n) = let same : q ≡ r = cc in rw same n

  Nearest-top : {p a : Text} → h.exists p ≡ false → h.parent p ≡ none → Nearest p a → none ≡ some a
  Nearest-top e k (here m) = cc
  Nearest-top e k (above m j n) = cc

  -- The answer of the search from `p`: the first path that exists, or none when there is none.
  abbrev Finds : Text → Option Text → Type 0
  Finds p r = (a : Text) → (r ≡ some a) ↔ Nearest p a

  abbrev Answers : Text → Option (Option Text) → Type 0
  Answers p o = (r : Option Text) × (o ≡ some r) × Finds p r

  at_parent :
      (next : Text → Option (Option Text)) (p : Text)
      → h.exists p ≡ false
      → ((q : Text) → length q < length p → Answers q (next q))
      → (o : Option Text) → h.parent p ≡ o
      → Answers p (elim o [ none ↦ some none | some par ↦ next par ])
  at_parent next p m later none e = (none, refl, λ a. (λ k. cc, Nearest-top m e))
  at_parent next p m later (some q) e =
      let (r, same, finds) = later q (h.parent_shorter p q e) in
      (r, same, λ a. (λ k. above m e ((finds a).0 k), λ n. (finds a).1 (Nearest-missing m e n)))

  at_path :
      (next : Text → Option (Option Text)) (p : Text)
      → ((q : Text) → length q < length p → Answers q (next q))
      → (b : Bool) → h.exists p ≡ b
      → Answers p (elim b [
        | true ↦ some (some p)
        | false ↦ elim (h.parent p) [ none ↦ some none | some par ↦ next par ]
      ])
  at_path next p later true e = (
    some p,
    refl,
    λ a. (
      λ k. let same : a ≡ p = cc in rw same (here e),
      λ n. let same = Nearest-existing e n in cc,
    ),
  )
  at_path next p later false e = at_parent next p e later (h.parent p) refl

  -- With more fuel than the path has characters the search ends, with the first path from `p`
  -- upwards that exists or, when there is none, with none.
  existing_ancestor_total :
      (fuel : ℕ) (p : Text) → length p < fuel → Answers p (existing_ancestor h fuel p)
  unfolding existing_ancestor
  existing_ancestor_total zero p lt = elim lt [ ]
  existing_ancestor_total (suc fuel) p lt =
      at_path (existing_ancestor h fuel) p
        (λ q shorter. existing_ancestor_total fuel q (omega arith)) (h.exists p) refl

  -- The canonical form of `p`, or of the first existing path above a `p` without one, starts with
  -- the canonical form of `root`.
  pub data Within (p root : Text) : Type 0 where
    resolved :
        {cp cr : Text}
        → h.canonicalize p ≡ some cp
        → h.canonicalize root ≡ some cr
        → h.path_starts_with cp cr ≡ true
        → Within p root
    unresolved :
        {a ca cr : Text}
        → h.canonicalize p ≡ none
        → Nearest p a
        → h.canonicalize a ≡ some ca
        → h.canonicalize root ≡ some cr
        → h.path_starts_with ca cr ≡ true
        → Within p root

  abbrev pub absolute : Text → Text
  absolute path = if h.is_absolute path then path else h.join_path h.current_dir path

  under-Nearest :
      (p cr : Text)
      → (resolves_under h (existing_ancestor h (suc (length p)) p) cr ≡ true) ↔ (
          (a ca : Text) × Nearest p a
          × (h.canonicalize a ≡ some ca)
          × (h.path_starts_with ca cr ≡ true))
  under-Nearest p cr =
      let (r, same, finds) = existing_ancestor_total (suc (length p)) p (omega arith) in
      rw same (by_answer r finds)
    where
      by_canonical :
          (a : Text) (o : Option Text)
          → h.canonicalize a ≡ o
          → Nearest p a
          → elim o [ none ↦ false | some cp ↦ h.path_starts_with cp cr ] ≡ true
          → (a ca : Text) × Nearest p a
            × (h.canonicalize a ≡ some ca)
            × (h.path_starts_with ca cr ≡ true)
      by_canonical a none e n k = cc
      by_canonical a (some ca) e n k = (a, ca, n, e, k)

      by_answer :
          (r : Option Text)
          → Finds p r
          → (resolves_under h (some r) cr ≡ true) ↔ (
              (a ca : Text) × Nearest p a
              × (h.canonicalize a ≡ some ca)
              × (h.path_starts_with ca cr ≡ true))
      by_answer none finds = (λ k. cc, λ (a, ca, n, e, k). let no = (finds a).1 n in cc)
      by_answer (some a) finds = (
        by_canonical a (h.canonicalize a) refl ((finds a).0 refl),
        λ (b, ca, n, e, k).
            let s = (finds b).1 n in
            let same : h.canonicalize a ≡ some ca = cc in rw (same, resolves_under) k,
      )

  within_resolved-Within :
      (p root : Text) (op or : Option Text)
      → h.canonicalize p ≡ op
      → h.canonicalize root ≡ or
      → (within_resolved h p op or ≡ true) ↔ Within p root
  within_resolved-Within p root (some cp) (some cr) e f = (λ k. resolved e f k, λ w. of_resolved w)
    where
      of_resolved : Within p root → h.path_starts_with cp cr ≡ true
      of_resolved (resolved g i k) = cc
      of_resolved (unresolved g n i j k) = cc
  within_resolved-Within p root none (some cr) e f = (
    λ k. let (a, ca, n, i, s) = (under-Nearest p cr).0 k in unresolved e n i f s,
    λ w. (under-Nearest p cr).1 (of_unresolved w),
  )
    where
      of_unresolved :
          Within p root
          → (a ca : Text) × Nearest p a
            × (h.canonicalize a ≡ some ca)
            × (h.path_starts_with ca cr ≡ true)
      of_unresolved (resolved g i k) = cc
      of_unresolved (unresolved {a} {ca} g n i j k) = (a, ca, n, i, cc)
  within_resolved-Within p root none none e f = (λ k. cc, λ w. no_root w)
    where
      no_root : Within p root → false ≡ true
      no_root (resolved g i k) = cc
      no_root (unresolved g n i j k) = cc
  within_resolved-Within p root (some cp) none e f = (λ k. cc, λ w. no_root w)
    where
      no_root : Within p root → false ≡ true
      no_root (resolved g i k) = cc
      no_root (unresolved g n i j k) = cc

  -- A path is found to be within a root exactly when the root has a canonical form that the canonical
  -- form of the path, made absolute, starts with or, for a path without one, that of the first
  -- existing path above it.
  pub path_within_iff :
      (path root : Text) → (path_within h path root ≡ true) ↔ Within (absolute path) root
  unfolding path_within
  path_within_iff path root =
      within_resolved-Within (absolute path) root (h.canonicalize (absolute path))
        (h.canonicalize root) refl refl
