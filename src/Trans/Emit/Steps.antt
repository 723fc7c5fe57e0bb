-- ===== src/Trans/Emit/Steps.antt =====
-- What every method of the emitter does to the counts of labels: new definitions take new numbers,
-- each of them once, and what is quoted is defined or is the step label of an open loop.
use u_flux.Prelude.{
  ℕ, ◌+◌, ◌≤◌, ◌≡◌, refl, arith, Bool, true, false, [], ◌++◌, Outcome, ok, err, if◌then◌else◌,
}
use u_flux.Trans.Ast.{Expr}
use u_flux.Trans.Emit.Code.{Letter, Code}
use u_flux.Trans.Emit.Expressions.{Fault}
use u_flux.Trans.Emit.State.{State, Buf, M, in_buf, restored, emit_expr, appended}
use u_flux.Trans.Emit.PlainCode.{is_plain, IsPlain, Yields, yields, raises, expr_code-IsPlain}
use u_flux.Trans.Emit.Counts.{
  defines_number, defines, quotes, count, count-append, total, number-plain, defines-plain,
  quotes-plain, between, between_trans, between_same, loop_hits,
}

abbrev pub held : Buf → Code
held b = b.code ++ b.labels

module _ (l : Letter) (n : ℕ) where
  -- From `s` to `t`, with the code `b` taken out of the state and not written yet.
  pub record Step (s t : State) (b : Code) : Type 0 where
    pub loops : t.ctx.loops ≡ s.ctx.loops
    pub up : s.self.next_label ≤ t.self.next_label
    pub fresh :
        total (defines_number n) t + count (defines_number n) b
        ≤ total (defines_number n) s + between s.self.next_label t.self.next_label n
    pub kept : total (defines l n) s ≤ total (defines l n) t + count (defines l n) b
    pub closed :
        total (quotes l n) s
            + (total (defines l n) t + count (defines l n) b)
            + loop_hits l n s.ctx.loops
          ≡ 0
        → total (quotes l n) t + count (quotes l n) b ≡ 0

  pub data Post {A : Type 0} (s : State) (pending : A → Code)
      : Outcome Fault (A × State) → Type 0 where
    returns : {a : A} {t : State} → Step s t (pending a) → Post s pending (ok (a, t))
    fails : {e : Fault} → Post s pending (err e)

  abbrev pub Nothing : {A : Type 0} → A → Code
  Nothing a = []

  -- A method that starts at `s`, then `f` on its result; all of it is seen from `s'`.
  pub Post-bind :
      {A B : Type 0} {s s' : State} {p : A → Code} {q : B → Code} (f : A → M B)
      {r : Outcome Fault (A × State)}
      → Post s p r
      → ((a : A) (t : State) → Step s t (p a) → Post s' q (f a t))
      → Post s' q (elim r [ err x ↦ err x | ok (a, t) ↦ f a t ])
  Post-bind f (returns {a = a} {t = t} h) k = k a t h
  Post-bind f fails k = fails

  -- Plain code into the buffer changes no count.
  pub put-Step :
      (s : State) (ws : Code)
      → is_plain ws ≡ true
      → Step s (record s { buf = record (s.buf) { code = s.buf.code ++ ws } }) []
  put-Step s ws h = record {
    loops = refl;
    up = omega arith;
    fresh = omega (arith, count-append, number-plain n ws h, between_same s.self.next_label n);
    kept = omega (arith, count-append, defines-plain l n ws h);
    closed = λ e. omega (arith, count-append, quotes-plain l n ws h);
  }

  pub Step-refl : (s : State) → Step s s []
  Step-refl s = record {
    loops = refl;
    up = omega arith;
    fresh = omega (arith, between_same s.self.next_label n);
    kept = omega arith;
    closed = λ e. omega arith;
  }

  pub Step-trans : {s t u : State} {b : Code} → Step s t [] → Step t u b → Step s u b
  Step-trans {s} {t} {u} {b} x y = record {
    loops = cc;
    up = omega (arith, x.up, y.up);
    fresh = omega (
      arith,
      x.fresh,
      y.fresh,
      between_trans s.self.next_label t.self.next_label u.self.next_label n x.up y.up,
    );
    kept = omega (arith, x.kept, y.kept);
    closed = λ e. y.closed (by_loops e);
  }
    where
      by_loops :
          total (quotes l n) s
              + (total (defines l n) u + count (defines l n) b)
              + loop_hits l n s.ctx.loops
            ≡ 0
          → total (quotes l n) t
              + (total (defines l n) u + count (defines l n) b)
              + loop_hits l n t.ctx.loops
            ≡ 0
      by_loops e = rw x.loops (omega (arith, y.kept, x.closed (omega (arith, y.kept))))

  -- A method that starts in a new buffer, with what it leaves there.
  abbrev pub held_of : {A : Type 0} → A × Buf → Code
  held_of p = held p.1

  pub restored-Step :
      (s t : State) (ws : Code)
      → is_plain ws ≡ true
      → Step (record s { buf = record { code = ws; labels = [] } }) t []
      → Step s (record t { buf = s.buf }) (held t.buf)
  restored-Step s t ws h x = record {
    loops = x.loops;
    up = x.up;
    fresh = omega (arith, x.fresh, count-append, number-plain n ws h);
    kept = omega (arith, x.kept, count-append);
    closed = λ e.
        omega (arith, count-append, x.closed (omega (arith, count-append, quotes-plain l n ws h)));
  }

  restored-Post :
      {A : Type 0} {s : State} (ws : Code) {r : Outcome Fault (A × State)}
      → is_plain ws ≡ true
      → Post (record s { buf = record { code = ws; labels = [] } }) Nothing r
      → Post s held_of (restored s.buf r)
  restored-Post {s = s} ws h (returns {t = t} x) = returns (restored-Step s t ws h x)
  restored-Post ws h fails = fails

  abbrev pub Numbers : {A : Type 0} → M A → Type 0
  Numbers m = (s : State) → Post s Nothing (m s)

  pub in_buf-Post :
      {A : Type 0} (ws : Code) (m : M A)
      → is_plain ws ≡ true
      → Numbers m
      → (s : State) → Post s held_of (in_buf ws m s)
  unfolding in_buf
  in_buf-Post ws m h k s =
      restored-Post ws h (k (record s { buf = record { code = ws; labels = [] } }))

  appended-Post :
      (s : State) (o : Outcome Fault Code) → Yields IsPlain o → Post s Nothing (appended s o)
  appended-Post s _ (yields {a = ws} h) = returns (put-Step s ws h)
  appended-Post s _ raises = fails

  pub emit_expr-Numbers : (e : Expr) → Numbers (emit_expr e)
  unfolding emit_expr
  emit_expr-Numbers e s = appended-Post s _ (expr_code-IsPlain s.ctx.slots e)

  pub Post-if :
      {A : Type 0} {s : State} {p : A → Code} {x y : Outcome Fault (A × State)} (b : Bool)
      → Post s p x
      → Post s p y
      → Post s p (if b then x else y)
  Post-if true h k = h
  Post-if false h k = k
