-- ===== src/Comp/ArityMoves.antt =====
-- How the depth of the arity check follows the cells of a run, one instruction at a time.
use u_flux.Prelude.{
  ℕ, suc, zero, ◌+◌, ◌-◌, ◌≡◌, ◌≢◌, refl, Bool, true, false, ◌||◌, List, [], ◌∷◌, Option, none,
  some, ltb, leb, if◌then◌else◌, Text, codes, text_eq, length, get_elem?, map, pos, negsuc, plus_ℕ,
  Outcome, ok, err, ap, arith,
}
use u_flux.Comp.Ast.{
  Ins, push_i, push_f, push_s, push_addr, simple, for_, call, call_ext, set_v, get_v, atomic_add,
  nop, ret, strict, loose, local_set, local_get, local_set_i, local_get_i, sys, list_start,
  dict_start, list_lit, dict_lit, if_, if_else, while_, Import, Param, Parsed,
}
use u_flux.Comp.Opcodes.{entry}
use u_flux.Comp.Effects.{helper_effect}
use u_flux.Comp.OpCells.{op_cells, op_cells-helper_effect}
use u_flux.Comp.Arity.{
  ArityError, Depth, missing_values, has_key, params_of, param_names, is_variadic, moved, lost,
  by_effect, call_at, call_to, import_call, bind_or, closed_at, check_ins,
}
use u_flux.Comp.Heights.{
  End, unknown, underflow, short, is_effect, Cells, take_put, effect, pass, enter, foreign,
  close_at, bound_or, run_ins, is_counted,
}

-- What the check knows of a stack.
abbrev pub known : Cells → Depth
known m = record { depth = some (pos m.cells); marks = map pos m.marks }

unfoldable pub IsServed : {A : Type 0} → Outcome End A → Type 0
IsServed r = r ≢ err short

-- A step of the check beside a step of the run.
abbrev pub Follows : Outcome ArityError Depth → Outcome End Cells → Type 0
Follows (err e) r = Unit {0}
Follows (ok s) (ok m) = s ≡ known m
Follows (ok s) (err e) = e ≢ short

moved-Follows :
    (pops pushes : ℕ) (m : Cells)
    → Follows (ok (moved pops pushes (known m))) (take_put pops pushes m)
moved-Follows pops pushes m = by_test (leb pops m.cells)
  where
    by_test :
        (b : Bool)
        → Follows
            (ok (record {
              depth =
                  some (
                    plus_ℕ
                      (if b then pos (m.cells - pops) else negsuc (pops - m.cells - 1))
                      pushes);
              marks = map pos m.marks;
            }))
            (if b then ok (record m { cells = m.cells - pops + pushes }) else err underflow)
    by_test true = refl
    by_test false = λ e. cc

simple-Follows :
    (b : Bool) (h : Text) (m : Cells)
    → (b || is_effect (op_cells h)) ≡ true
    → Follows
        (ok (if b then moved 1 0 (known m) else by_effect (helper_effect h) (known m)))
        (if b then take_put 1 0 m else effect (op_cells h) m)
simple-Follows true h m k = moved-Follows 1 0 m
simple-Follows false h m k = by_cells (op_cells h) refl
  where
    by_cells :
        (o : Option (ℕ × ℕ))
        → op_cells h ≡ o
        → Follows (ok (by_effect (helper_effect h) (known m))) (effect o m)
    by_cells none e = λ x. cc
    by_cells (some f) e = rw (op_cells-helper_effect h f e) (moved-Follows f.0 f.1 m)

pass-Follows :
    (l : Text) (ps : List Param) (m : Cells)
    → Follows (call_at l ps (some (pos m.cells)) (known m)) (pass (length ps) m)
pass-Follows l ps m = by_test (ltb m.cells (length ps)) refl
  where
    by_test :
        (b : Bool)
        → ltb m.cells (length ps) ≡ b
        → Follows
            (if b
              then err (missing_values l (param_names ps) (pos m.cells) (length ps - m.cells))
              else ok (moved (length ps) 1 (known m)))
            (if b then err short else ok (record m { cells = m.cells - length ps + 1 }))
    by_test true e = tt
    by_test false e =
        let enough : leb (length ps) m.cells ≡ true = ground (arith, e) in rw enough refl

enter-Follows :
    (p : Parsed) (l : Text) (o : Option ℕ) (m : Cells)
    → Follows (call_to p l o (known m)) (enter p o m)
enter-Follows p l none m = λ e. cc
enter-Follows p l (some tp) m = pass-Follows l (params_of p tp) m

foreign-Follows :
    (o : Option Import) (ii : ℕ) (m : Cells) → Follows (import_call o ii (known m)) (foreign o m)
foreign-Follows none ii m = tt
foreign-Follows (some im) ii m = by_test (is_variadic im)
  where
    by_test :
        (b : Bool)
        → Follows
            (if b
              then ok (lost (known m))
              else ok (
                  moved
                    (length im.params)
                    (if text_eq im.ret (codes "void") then 0 else 1)
                    (known m)))
            (if b
              then err unknown
              else take_put (length im.params) (if text_eq im.ret (codes "void") then 0 else 1) m)
    by_test true = λ e. cc
    by_test false =
        moved-Follows (length im.params) (if text_eq im.ret (codes "void") then 0 else 1) m

close-Follows :
    (ks : List ℕ) (c : ℕ) → Follows (ok (closed_at (map pos ks) (some (pos c)))) (close_at ks c)
close-Follows [] c = λ e. cc
close-Follows (k ∷ ks) c = by_test (leb k c)
  where
    by_test :
        (b : Bool)
        → Follows
            (ok (record { depth = some (pos (k + 1)); marks = map pos ks }))
            (if b then ok (record { cells = k + 1; marks = ks }) else err underflow)
    by_test true = refl
    by_test false = λ e. cc

bind-Follows :
    (b : Bool) (pops pushes : ℕ) (m : Cells)
    → pops ≡ 0
    → Follows (ok (bind_or b pushes (known m))) (bound_or b pops pushes m)
bind-Follows true pops pushes m e = moved-Follows 1 0 m
bind-Follows false pops pushes m e = rw e (moved-Follows 0 pushes m)

-- A store that leaves its value needs one.
keep-Follows : (b : Bool) (m : Cells) → Follows (ok (bind_or b 0 (known m))) (bound_or b 1 1 m)
keep-Follows true m = moved-Follows 1 0 m
keep-Follows false m = by_cells m.cells
  where
    by_cells :
        (c : ℕ)
        → Follows
            (ok (bind_or false 0 (known (record m { cells = c }))))
            (take_put 1 1 (record m { cells = c }))
    by_cells zero = λ e. cc
    by_cells (suc c) =
        let enough : leb 1 (suc c) ≡ true = ground arith in
        let all : leb 0 (suc c) ≡ true = ground arith in
        let same : suc c - 0 + 0 ≡ suc c - 1 + 1 = omega arith in
        rw (enough, all)
          (ap {A = ℕ} (λ n. record { depth = some (pos n); marks = map pos m.marks }) same)

pub step-Follows :
    (p : Parsed) (i : ℕ) (y : Ins) (m : Cells)
    → is_counted p i y ≡ true
    → Follows (check_ins p i y (known m)) (run_ins p i y m)
unfolding check_ins run_ins is_counted
step-Follows p i (push_i _) m h = moved-Follows 0 1 m
step-Follows p i (push_f _) m h = moved-Follows 0 1 m
step-Follows p i (push_s _) m h = moved-Follows 0 1 m
step-Follows p i (push_addr _) m h = moved-Follows 0 1 m
step-Follows p i (simple f) m h = simple-Follows (has_key p.param_pcs i) f m h
step-Follows p i (call l) m h = enter-Follows p l (entry p.labels l) m
step-Follows p i (call_ext ii) m h = foreign-Follows (get_elem? p.imports ii) ii m
step-Follows p i for_ m h = moved-Follows 2 0 m
step-Follows p i while_ m h = moved-Follows 2 0 m
step-Follows p i if_ m h = moved-Follows 2 0 m
step-Follows p i if_else m h = moved-Follows 3 0 m
step-Follows p i (sys n) m h = moved-Follows (n + 1) 1 m
step-Follows p i list_start m h = refl
step-Follows p i dict_start m h = refl
step-Follows p i list_lit m h = close-Follows m.marks m.cells
step-Follows p i dict_lit m h = close-Follows m.marks m.cells
step-Follows p i strict m h = refl
step-Follows p i loose m h = refl
step-Follows p i nop m h = cc
step-Follows p i (set_v _) m h = rw h (moved-Follows 1 0 m)
step-Follows p i (local_set _) m h = keep-Follows (has_key p.param_pcs i) m
step-Follows p i (local_set_i _) m h = keep-Follows (has_key p.param_pcs i) m
step-Follows p i (get_v _) m h = bind-Follows (has_key p.param_pcs i) 0 1 m refl
step-Follows p i (local_get _) m h = bind-Follows (has_key p.param_pcs i) 0 1 m refl
step-Follows p i (local_get_i _) m h = bind-Follows (has_key p.param_pcs i) 0 1 m refl
step-Follows p i (atomic_add _ true) m h = bind-Follows (has_key p.param_pcs i) 0 1 m refl
step-Follows p i (atomic_add _ false) m h = rw h (moved-Follows 1 0 m)
step-Follows p i ret m h = λ e. cc
step-Follows p i _ m h = cc
