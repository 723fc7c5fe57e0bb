-- ===== src/Comp/Locals.antt =====
-- `resolve_locals` of comp/src/parse.rs: names become shared variables or slots of a body's frame.
use u_flux.Prelude.{ℕ, List, [], ◌∷◌, Text, length, Outcome, ok, ◌>>=◌}
use u_flux.Comp.Ast.{Ins, Parsed}
use u_flux.Comp.Bodies.{compute_ins_body}
use u_flux.Comp.Scope.{
  ScopeError, shared_names, first_label_pc, body_params, assigned, check_bodies, check_uses, rename,
  new_vars,
}
use u_flux.Comp.Atomics.{fuse_adds}
use u_flux.Comp.Compaction.{kept, kept_bodies, move_labels, move_keys}
use u_flux.Comp.Frames.{Frames, collect_frames, resolve_slots, put_frames}

-- The checks of step 4.5.
unfoldable pub check_scopes : Parsed → List Text → List ℕ → Outcome ScopeError (Unit {0})
unfolding assigned check_bodies check_uses first_label_pc
check_scopes p shared bodies =
    let all = assigned p.param_pcs 0 p.ins bodies in
    check_bodies shared all all >>= λ _. check_uses shared all (first_label_pc p) 0 p.ins bodies

-- Step 4.5 after its checks, up to the additions.
unfoldable pub shared_code : Parsed → List Text → List ℕ → Outcome ScopeError (List Ins)
unfolding rename body_params fuse_adds
shared_code p shared bodies =
    fuse_adds (rename shared p.param_pcs (body_params p.ins bodies p.param_pcs) 0 p.ins bodies)

unfoldable pub shared_vars : Parsed → List Text → List ℕ → List Text
unfolding new_vars body_params
shared_vars p shared bodies =
    new_vars shared p.param_pcs (body_params p.ins bodies p.param_pcs) 0 p.ins bodies p.vars

-- The unit with its frames, from the instructions after the additions.
abbrev pub framed : Parsed → List Text → List Ins → List ℕ → Frames → Parsed
framed p vars code bodies frames = record p {
  ins = resolve_slots frames (kept code) (kept_bodies code bodies);
  labels = move_labels code p.labels;
  label_params = move_keys code p.label_params;
  param_pcs = move_keys code p.param_pcs;
  vars = vars;
  local_counts = put_frames length frames p.local_counts;
  local_names = put_frames (λ names. names) frames p.local_names;
}

unfoldable pub finish_locals : Parsed → List Text → List Ins → List ℕ → Parsed
unfolding collect_frames resolve_slots put_frames kept kept_bodies move_labels move_keys
finish_locals p vars code bodies =
    framed p vars code bodies (collect_frames (kept code) (kept_bodies code bodies) [])

unfoldable pub resolve_from : Parsed → List Text → List ℕ → Outcome ScopeError Parsed
unfolding check_scopes shared_code shared_vars finish_locals
resolve_from p shared bodies = check_scopes p shared bodies >>= λ _.
    shared_code p shared bodies >>= λ code.
    ok (finish_locals p (shared_vars p shared bodies) code bodies)

abbrev pub unless_empty : List Ins → Parsed → Outcome ScopeError Parsed → Outcome ScopeError Parsed
unless_empty [] p r = ok p
unless_empty (y ∷ code) p r = r

unfoldable pub resolve_locals : Parsed → List Text → Outcome ScopeError Parsed
unfolding resolve_from compute_ins_body shared_names
resolve_locals p extra =
    unless_empty p.ins p (resolve_from p (shared_names p extra) (compute_ins_body p))
