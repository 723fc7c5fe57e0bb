-- ===== src/Trans/Emit/Labels.antt =====
-- The labels of a whole program: how often a number is defined, and what a statement quotes.
use u_flux.Prelude.{
  ℕ, ◌+◌, ◌≤◌, ◌≡◌, refl, ◌∙◌, arith, Bool, true, false, All, List, [], ◌∷◌, ◌++◌, Outcome, ok, err,
  if◌then◌else◌, Text, codes, text_eq, show_ℕ,
}
use u_flux.Trans.Ast.{Function, Program}
use u_flux.Trans.Emit.Code.{Letter, letter_i, Word, heading, Code, followed}
use u_flux.Trans.Emit.Expressions.{Fault}
use u_flux.Trans.Emit.State.{Buf, State, M, pure, in_buf, restored}
use u_flux.Trans.Emit.Statements.{fn_body, stmt_list}
use u_flux.Trans.Emit.Functions.{
  new_state, bind_params, header_name, epilogue, emit_function, emit_functions, registers, written,
  emit_code, assemble,
}
use u_flux.Trans.Emit.PlainCode.{is_plain, append-plain}
use u_flux.Trans.Emit.Counts.{
  clashes, clash-le, defines_number, defines, quotes, count, count-append, number-plain,
  defines-plain, quotes-plain, between, between_trans, between_same, between-le, defines-le,
}
use u_flux.Trans.Emit.Steps.{
  Step, Post, returns, fails, Nothing, Step-refl, Step-trans, held, restored-Step,
}
use u_flux.Trans.Emit.SimpleSteps.{slots-Step}
use u_flux.Trans.Emit.LabelSteps.{stmt_list-Numbers}

epilogue-plain : (b : Bool) → is_plain (epilogue b) ≡ true
epilogue-plain true = refl
epilogue-plain false = refl

-- The label of a function's header, which is `entry` for `main`.
abbrev pub function_label : Function → Text
function_label f = if text_eq f.name (codes "main") then codes "entry" else f.name

-- No function's label is a letter of a construct label with the number behind it.
abbrev pub Apart : ℕ → Program → Type 0
Apart n g = All (λ (f : Function). clashes n (function_label f) ≡ 0) g.functions

module _ (l : Letter) (n : ℕ) where
  -- The parameters of a function, which leave the buffer.
  data Bound (s : State) : Outcome Fault (Code × State) → Type 0 where
    bound :
        {ws : Code} {t : State}
        → is_plain ws ≡ true
        → Step l n s t []
        → t.buf ≡ s.buf
        → Bound s (ok (ws, t))

  Bound-behind :
      (s t : State) (w : Code) {r : Outcome Fault (Code × State)}
      → is_plain w ≡ true
      → Step l n s t []
      → t.buf ≡ s.buf
      → Bound t r
      → Bound s (elim r [ err x ↦ err x | ok (ws, u) ↦ ok (w ++ ws, u) ])
  Bound-behind s t w h x e (bound {ws = ws} k y f) =
      bound (append-plain w ws h k) (Step-trans l n x y) (f ∙ e)

  bind_params-Bound : (ps : List Text) (s : State) → Bound s (bind_params ps s)
  unfolding bind_params show_ℕ
  bind_params-Bound [] s = bound refl (Step-refl l n s) refl
  bind_params-Bound (p ∷ ps) s =
      Bound-behind s _ (followed (codes "v" ++ show_ℕ s.self.next_slot) "!\n") refl
        (slots-Step l n s _ refl refl refl refl refl refl) refl (bind_params-Bound ps _)

  -- From one function's start to its end, in what is written.
  record Written (s t : State) : Type 0 where
    same_buf : t.buf ≡ s.buf
    up : s.self.next_label ≤ t.self.next_label
    fresh :
        count (defines_number n) t.self.out
        ≤ count (defines_number n) s.self.out + between s.self.next_label t.self.next_label n
    kept : count (defines l n) s.self.out ≤ count (defines l n) t.self.out
    closed :
        count (quotes l n) s.self.out + count (defines l n) t.self.out ≡ 0
        → count (quotes l n) t.self.out ≡ 0

  Written-trans : {s t u : State} → Written s t → Written t u → Written s u
  Written-trans {s} {t} {u} x y = record {
    same_buf = y.same_buf ∙ x.same_buf;
    up = omega (arith, x.up, y.up);
    fresh = omega (
      arith,
      x.fresh,
      y.fresh,
      between_trans s.self.next_label t.self.next_label u.self.next_label n x.up y.up,
    );
    kept = omega (arith, x.kept, y.kept);
    closed = λ z. y.closed (omega (arith, y.kept, x.closed (omega (arith, y.kept))));
  }

  data Wrote (s : State) : Outcome Fault (Unit {0} × State) → Type 0 where
    wrote : {u : Unit {0}} {t : State} → Written s t → Wrote s (ok (u, t))
    failed : {e : Fault} → Wrote s (err e)

  entered : Bool → State → State
  entered main s = record s {
    self = record (s.self) { hoisted = []; hoisted_guards = [] };
    ctx = record { is_main = main; slots = []; loops = [] };
  }

  bare : (w : Word → ℕ) {b : Buf} → b ≡ new_state.buf → count w b.code + count w b.labels ≡ 0
  bare w e = rw e refl

  -- Code that neither quotes nor defines the label, nor defines one with the number.
  record Silent (ws : Code) : Type 0 where
    no_number : count (defines_number n) ws ≡ 0
    no_label : count (defines l n) ws ≡ 0
    no_quote : count (quotes l n) ws ≡ 0

  heading-Silent :
      (t : Text) (ws : Code) → clashes n t ≡ 0 → is_plain ws ≡ true → Silent (heading t ∷ ws)
  heading-Silent t ws h k = record {
    no_number = omega (arith, h, number-plain n ws k);
    no_label = omega (arith, h, clash-le l n t, defines-plain l n ws k);
    no_quote = omega (arith, quotes-plain l n ws k);
  }

  header-Silent :
      (b : Bool) (name : Text) (ws : Code)
      → clashes n (if b then codes "entry" else name) ≡ 0
      → is_plain ws ≡ true
      → Silent (header_name b name ++ ws)
  header-Silent true name ws h k = heading-Silent (codes "entry") ws h k
  header-Silent false name ws h k = heading-Silent name ws h k

  assembled-Written :
      (main : Bool) (w : Code) (s t u : State)
      → Silent w
      → s.buf ≡ new_state.buf
      → t.buf ≡ s.buf
      → Step l n (entered main s) (record u { buf = t.buf }) (held u.buf)
      → Wrote s (assemble main w u.buf (record u { buf = t.buf }))
  unfolding entered
  assembled-Written main w s t u h e f x =
      let end = epilogue-plain main in
      wrote (record {
        same_buf = f;
        up = x.up;
        fresh = grind (
          arith,
          count-append,
          h.no_number,
          number-plain n (epilogue main) end,
          bare (defines_number n) e,
          x.fresh,
        );
        kept = grind (
          arith,
          count-append,
          h.no_label,
          defines-plain l n (epilogue main) end,
          bare (defines l n) (f ∙ e),
          x.kept,
        );
        closed = λ z. grind (
          arith,
          count-append,
          h.no_quote,
          quotes-plain l n (epilogue main) end,
          h.no_label,
          defines-plain l n (epilogue main) end,
          bare (quotes l n) e,
          bare (defines l n) (f ∙ e),
          x.closed,
        );
      })

  body_Wrote :
      (main : Bool) (w : Code) (s t : State) {r : Outcome Fault (Bool × State)}
      → Silent w
      → s.buf ≡ new_state.buf
      → t.buf ≡ s.buf
      → Step l n (entered main s) t []
      → Post l n (record t { buf = new_state.buf }) (Nothing l n) r
      → Wrote s (elim (restored t.buf r) [ err x ↦ err x | ok (p, u) ↦ assemble main w p.1 u ])
  body_Wrote main w s t h e f x (returns {t = u} y) =
      assembled-Written main w s t u h e f (Step-trans l n x (restored-Step l n t u [] refl y))
  body_Wrote main w s t h e f x fails = failed

  emit_function-Wrote :
      (f : Function) (s : State)
      → clashes n (function_label f) ≡ 0
      → s.buf ≡ new_state.buf
      → Wrote s (emit_function f s)
  unfolding emit_function in_buf entered
  emit_function-Wrote f s apart e =
      let main = text_eq f.name (codes "main") in with_params main apart _ (params main _)
    where
      params : (b : Bool) (t : State) → Bound t ((if b then pure [] else bind_params f.params) t)
      params true t = bound refl (Step-refl l n t) refl
      params false t = bind_params-Bound f.params t

      with_params :
          (main : Bool)
          → clashes n (if main then codes "entry" else f.name) ≡ 0
          → (r : Outcome Fault (Code × State)) → Bound (entered main s) r
          → Wrote s (elim r [
            | err x ↦ err x
            | ok (w, t) ↦ elim (in_buf [] (stmt_list f.body fn_body) t) [
              | err x ↦ err x
              | ok (p, u) ↦ assemble main (header_name main f.name ++ w) p.1 u
            ]
          ])
      with_params main apart _ (bound {ws = w} {t = t} h x g) =
          body_Wrote main (header_name main f.name ++ w) s t (header-Silent main f.name w apart h) e
            g x (stmt_list-Numbers l n f.body fn_body _)

  Wrote-then :
      {s : State} {r : Outcome Fault (Unit {0} × State)} (m : M (Unit {0}))
      → s.buf ≡ new_state.buf
      → Wrote s r
      → ((t : State) → t.buf ≡ new_state.buf → Wrote t (m t))
      → Wrote s (elim r [ err x ↦ err x | ok (u, t) ↦ m t ])
  Wrote-then m e failed k = failed
  Wrote-then {s} m e (wrote {t = t} x) k = joined (k t (x.same_buf ∙ e))
    where
      joined : {r : Outcome Fault (Unit {0} × State)} → Wrote t r → Wrote s r
      joined failed = failed
      joined (wrote y) = wrote (Written-trans x y)

  emit_functions-Wrote :
      (fs : List Function) (s : State)
      → All (λ (f : Function). clashes n (function_label f) ≡ 0) fs
      → s.buf ≡ new_state.buf
      → Wrote s (emit_functions fs s)
  unfolding emit_functions
  emit_functions-Wrote [] s apart e = wrote (record {
    same_buf = refl;
    up = omega arith;
    fresh = omega (arith, between_same s.self.next_label n);
    kept = omega arith;
    closed = λ z. omega arith;
  })
  emit_functions-Wrote (f ∷ fs) s apart e =
      Wrote-then (emit_functions fs) e (emit_function-Wrote f s apart.0 e)
        (λ t. emit_functions-Wrote fs t apart.1)

  registers-plain : (fs : List Function) → is_plain (registers fs) ≡ true
  registers-plain [] = refl
  registers-plain (f ∷ fs) = refl

  -- Of the whole output.
  record Sound (ws : Code) : Type 0 where
    once : count (defines_number n) ws ≤ 1
    defined : count (defines l n) ws ≡ 0 → count (quotes l n) ws ≡ 0

  written-Sound :
      (s : State) (r : Outcome Fault (Unit {0} × State)) (ws : Code)
      → is_plain s.self.out ≡ true
      → Wrote s r
      → written r ≡ ok ws
      → Sound ws
  written-Sound s _ ws h failed e = cc
  written-Sound s _ ws h (wrote {t = t} x) e =
      let same : t.self.out ≡ ws = cc in
      record {
        once = rw⁻¹ same (
            omega (
              arith,
              x.fresh,
              number-plain n s.self.out h,
              between-le s.self.next_label t.self.next_label n,
            ));
        defined = rw⁻¹ same (λ z. x.closed (omega (arith, z, quotes-plain l n s.self.out h)));
      }

  emit_code-Sound : (g : Program) (ws : Code) → Apart n g → emit_code g ≡ ok ws → Sound ws
  unfolding emit_code
  emit_code-Sound g ws apart =
      written-Sound _ _ ws (registers-plain g.functions)
        (emit_functions-Wrote g.functions _ apart refl)

-- Of the words that a program is emitted as, those of function headers included, one at most defines
-- a label with the number `n`, when no function's label is a letter of a construct label with `n`
-- behind it.
pub emit_code-defines_once :
    (g : Program) (ws : Code) (n : ℕ)
    → Apart n g
    → emit_code g ≡ ok ws
    → count (defines_number n) ws ≤ 1
emit_code-defines_once g ws n apart e = (emit_code-Sound letter_i n g ws apart e).once

-- If a word that a program is emitted as quotes a label, by its letter and its number `n`, then exactly
-- one of the words, those of function headers included, defines that label, when no function's label
-- is a letter of a construct label with `n` behind it.
pub emit_code-quotes_defined :
    (g : Program) (ws : Code) (l : Letter) (n : ℕ)
    → Apart n g
    → emit_code g ≡ ok ws
    → 1 ≤ count (quotes l n) ws
    → count (defines l n) ws ≡ 1
emit_code-quotes_defined g ws l n apart e h =
    let sound = emit_code-Sound l n g ws apart e in
    ground (arith, sound.defined, sound.once, defines-le l n ws)
