-- ===== src/Comp/ScopeLaws.antt =====
-- What the scope checks of comp/src/parse.rs let through.
use u_flux.Prelude.{
  ℕ, zero, suc, ◌+◌, ◌≡◌, refl, sym, ◌∙◌, arith, Bool, true, false, not, ◌&&◌, ◌||◌, List, [], ◌∷◌,
  any, Option, none, some, ◌==◌, ==_iff, if◌then◌else◌, Text, text_eq, text_eq_iff, text_eq_refl,
  contains, get_elem?, ok, err, ◌>>=◌, bind-eq-ok,
}
use u_flux.Comp.Ast.{Ins, local_set, Parsed}
use u_flux.Comp.Arity.{has_key}
use u_flux.Comp.Bodies.{compute_ins_body}
use u_flux.Comp.Scope.{
  many_bodies, stored_name, assign_if, assigned, is_ambiguous, check_bodies, check_uses,
  first_label_pc, shared_names,
}
use u_flux.Comp.Locals.{
  check_scopes, shared_code, shared_vars, finish_locals, resolve_from, unless_empty, resolve_locals,
}

-- The instruction at `i` assigns the name `n` in the body `b`, and is no input bind.
pub record Assigns (p : Parsed) (bodies : List ℕ) (i b : ℕ) (n : Text) : Type 0 where
  pub store : get_elem? p.ins i ≡ some (local_set n)
  pub body : get_elem? bodies i ≡ some b
  pub free : has_key p.param_pcs i ≡ false

abbrev is_assigned : List (Text × ℕ) → Text → ℕ → Bool
is_assigned all n b = any (λ (m, c). text_eq m n && c == b) all

assigned-store :
    (binds : List (ℕ × ℕ)) (n : Text) (b : ℕ) (code : List Ins) (bodies : List ℕ) (i k j : ℕ)
    → j ≡ i + k
    → get_elem? code k ≡ some (local_set n)
    → get_elem? bodies k ≡ some b
    → has_key binds j ≡ false
    → is_assigned (assigned binds i code bodies) n b ≡ true
unfolding assigned
assigned-store binds n b [] bodies i k j e s h f = cc (s)
assigned-store binds n b (y ∷ code) [] i k j e s h f = cc (h)
assigned-store binds n b (y ∷ code) (c ∷ bodies) i zero j e s h f =
    let here : j ≡ i = omega (arith, e) in
    let same : y ≡ local_set n = cc (s) in
    let body : c ≡ b = cc (h) in
    let free : has_key binds i ≡ false = rw (← here) f in
    rw (same, free, body, text_eq_refl n, (==_iff b b).1 refl) refl
assigned-store binds n b (y ∷ code) (c ∷ bodies) i (suc k) j e s h f =
    kept (has_key binds i) (stored_name y)
      (assigned-store binds n b code bodies (i + 1) k j (omega (arith, e)) s h f)
  where
    later : (t : Bool) (u : Bool) → u ≡ true → (t || u) ≡ true
    later true u e = refl
    later false u e = e

    kept :
        (t : Bool) (o : Option Text)
        → is_assigned (assigned binds (i + 1) code bodies) n b ≡ true
        → is_assigned (assign_if t o c (assigned binds (i + 1) code bodies)) n b ≡ true
    kept false (some m) h = later (text_eq m n && c == b) _ h
    kept false none h = h
    kept true o h = h

-- A name that the check lets through is not ambiguous.
check_bodies-clear :
    (shared : List Text) (n : Text) (b : ℕ) (all rest : List (Text × ℕ))
    → check_bodies shared all rest ≡ ok tt
    → contains shared n ≡ false
    → is_assigned rest n b ≡ true
    → is_ambiguous all n b ≡ false
unfolding check_bodies
check_bodies-clear shared n b all [] h free m = cc
check_bodies-clear shared n b all ((l, c) ∷ rest) h free m =
    by_head (text_eq l n) refl (c == b) refl m (contains shared l) refl (is_ambiguous all l c) refl
      h (λ k. check_bodies-clear shared n b all rest k free)
  where
    by_head :
        (t : Bool)
        → text_eq l n ≡ t
        → (u : Bool) → (c == b) ≡ u
        → ((t && u) || is_assigned rest n b) ≡ true
        → (s : Bool) → contains shared l ≡ s
        → (a : Bool) → is_ambiguous all l c ≡ a
        → (if not s && a then err (many_bodies l) else check_bodies shared all rest) ≡ ok tt
        → (check_bodies shared all rest ≡ ok tt
            → is_assigned rest n b ≡ true
            → is_ambiguous all n b ≡ false)
        → is_ambiguous all n b ≡ false
    by_head true e true f m s g a k h later =
        let name : l ≡ n = (text_eq_iff l n).0 e in
        let body : c ≡ b = (==_iff c b).0 f in by_test s (rw name at g) a (rw (name, body) at k) h
      where
        by_test :
            (s : Bool)
            → contains shared n ≡ s
            → (a : Bool) → is_ambiguous all n b ≡ a
            → (if not s && a then err (many_bodies l) else check_bodies shared all rest) ≡ ok tt
            → is_ambiguous all n b ≡ false
        by_test true g a k h = cc
        by_test false g true k h = cc
        by_test false g false k h = k
    by_head true e false f m true g a k h later = later h m
    by_head true e false f m false g true k h later = cc
    by_head true e false f m false g false k h later = later h m
    by_head false e u f m true g a k h later = later h m
    by_head false e u f m false g true k h later = cc
    by_head false e u f m false g false k h later = later h m

-- The bodies that assign a clear name are one.
clear-one_body :
    (n : Text) (b c : ℕ) (all : List (Text × ℕ))
    → is_ambiguous all n b ≡ false
    → is_assigned all n c ≡ true
    → b ≡ c
unfolding is_ambiguous
clear-one_body n b c [] h m = cc
clear-one_body n b c ((l, d) ∷ all) h m =
    by_head (text_eq l n) (d == b) refl (d == c) refl h m (clear-one_body n b c all)
  where
    by_head :
        (t u : Bool)
        → (d == b) ≡ u
        → (v : Bool) → (d == c) ≡ v
        → ((t && not u) || is_ambiguous all n b) ≡ false
        → ((t && v) || is_assigned all n c) ≡ true
        → (is_ambiguous all n b ≡ false → is_assigned all n c ≡ true → b ≡ c)
        → b ≡ c
    by_head true true e true f h m later = sym ((==_iff d b).0 e) ∙ (==_iff d c).0 f
    by_head true true e false f h m later = later h m
    by_head true false e v f h m later = cc
    by_head false u e v f h m later = later h m

-- When `resolve_locals` succeeds, a name that is not shared is assigned in one body, its input binds
-- left aside.
pub resolve_locals-one_body :
    (p q : Parsed) (extra : List Text) (n : Text) (i j b c : ℕ)
    → resolve_locals p extra ≡ ok q
    → contains (shared_names p extra) n ≡ false
    → Assigns p (compute_ins_body p) i b n
    → Assigns p (compute_ins_body p) j c n
    → b ≡ c
unfolding resolve_locals resolve_from check_scopes
resolve_locals-one_body p q extra n i j b c h free x y = by_code p.ins refl h
  where
    shared : List Text
    shared = shared_names p extra

    bodies : List ℕ
    bodies = compute_ins_body p

    by_code :
        (code : List Ins)
        → p.ins ≡ code
        → unless_empty code p (resolve_from p shared bodies) ≡ ok q
        → b ≡ c
    by_code [] e h = cc (e, x.store)
    by_code (z ∷ code) e h =
        let scopes =
          bind-eq-ok (check_scopes p shared bodies)
            (λ _. shared_code p shared bodies >>= λ code.
              ok (finish_locals p (shared_vars p shared bodies) code bodies))
            h in
        let all = assigned p.param_pcs 0 p.ins bodies in
        let first =
          bind-eq-ok (check_bodies shared all all)
            (λ _. check_uses shared all (first_label_pc p) 0 p.ins bodies) scopes.1 in
        clear-one_body n b c all
          (check_bodies-clear shared n b all all first.1 free
            (assigned-store p.param_pcs n b p.ins bodies 0 i i (omega arith) x.store x.body x.free))
          (assigned-store p.param_pcs n c p.ins bodies 0 j j (omega arith) y.store y.body y.free)
