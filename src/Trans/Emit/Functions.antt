-- ===== src/Trans/Emit/Functions.antt =====
-- `emit` and `function` of trans/src/emit.rs: the whole program's text.
use u_flux.Prelude.{
  Bool, true, false, List, [], ◌∷◌, ◌++◌, Outcome, ok, err, if◌then◌else◌, Text, codes, text_eq,
}
use u_flux.Trans.Ast.{Function, Program}
use u_flux.Trans.Emit.Code.{Code, plain, heading, str, followed, render}
use u_flux.Trans.Emit.Expressions.{Fault}
use u_flux.Trans.Emit.State.{Buf, State, M, ◌>>=◌, ◌>>◌, pure, fresh_slot, bind_slot, in_buf}
use u_flux.Trans.Emit.Statements.{fn_body, stmt_list}

-- The preamble of imports.
unfoldable pub prelude : Text
prelude =
    codes "import c\"printf\"(ptr,...)->int\n"
    ++ codes "import c\"fprintf\"(ptr,ptr,...)->int\n"
    ++ codes "import c\"fputc\"(int,ptr)->int\n"
    ++ codes "import c\"ungetc\"(int,ptr)->int\n"
    ++ codes "import c\"putchar\"(int)->int\n"
    ++ codes "import c\"getchar\"()->int\n"
    ++ codes "import c\"fputs\"(ptr,ptr)->int\n"
    ++ codes "import c\"fwrite\"(ptr,int,int,ptr)->int\n"
    ++ codes "import c\"strcmp\"(ptr,ptr)->int\n"
    ++ codes "import c\"strncmp\"(ptr,ptr,int)->int\n"
    ++ codes "import c\"strcpy\"(ptr,ptr)->ptr\n"
    ++ codes "import c\"exit\"(int)->void\n"
    ++ codes "import c\"fread\"(ptr,int,int,ptr)->int\n"
    ++ codes "import c\"fopen\"(ptr,ptr)->ptr\n"
    ++ codes "import c\"fclose\"(ptr)->int\n"
    ++ codes "import c\"fgetc\"(ptr)->int\n"
    ++ codes "import c\"strstr\"(ptr,ptr)->ptr\n"
    ++ codes "extern \"stdout\"\n"
    ++ codes "extern \"stdin\"\n"
    ++ codes "extern \"stderr\"\n"

-- `Emitter::new()`, with a context and a buffer that no function has used.
abbrev pub new_state : State
new_state = record {
  self = record { out = []; hoisted = []; hoisted_guards = []; next_label = 0; next_slot = 0 };
  ctx = record { is_main = false; slots = []; loops = [] };
  buf = record { code = []; labels = [] };
}

-- `self.out.push_str(...)`
abbrev write : Code → M (Unit {0})
write ws s = ok (tt, record s { self = record (s.self) { out = s.self.out ++ ws } })

-- The context and the hoisted labels of a new function.
abbrev pub enter : Bool → M (Unit {0})
enter is_main s = ok (
  tt,
  record s {
    self = record (s.self) { hoisted = []; hoisted_guards = [] };
    ctx = record { is_main = is_main; slots = []; loops = [] };
  },
)

-- The binds of the parameters, which end a function's header.
unfoldable pub bind_params : List Text → M Code
bind_params [] = pure []
bind_params (p ∷ ps) = do
  slot ← fresh_slot
  bind_slot p slot
  ws ← bind_params ps
  pure (followed slot "!\n" ++ ws)

abbrev pub header_name : Bool → Text → Code
header_name true name = heading (codes "entry") ∷ []
header_name false name = heading name ∷ []

abbrev pub epilogue : Bool → Code
epilogue true = str "0 _call exit\nret\n"
epilogue false = str "fr rv mul frv! 0 fr! ret frv\n"

-- A function's parts in the order of the output, the hoisted guards before the hoisted steps.
abbrev pub assemble : Bool → Code → Buf → M (Unit {0})
assemble is_main header b s =
    write
      (header
        ++ (b.code
            ++ (epilogue is_main ++ (b.labels ++ (s.self.hoisted_guards ++ s.self.hoisted)))))
      s

unfoldable pub emit_function : Function → M (Unit {0})
unfolding text_eq bind_params stmt_list
emit_function f =
    let is_main = text_eq f.name (codes "main") in
    (do
      enter is_main
      params ← if is_main then pure [] else bind_params f.params
      r ← in_buf [] (stmt_list f.body fn_body)
      assemble is_main (header_name is_main f.name ++ params) r.1)

unfoldable pub emit_functions : List Function → M (Unit {0})
unfolding emit_function
emit_functions [] = pure tt
emit_functions (f ∷ fs) = emit_function f >> emit_functions fs

abbrev pub registers : List Function → Code
registers [] = []
registers (f ∷ fs) = str "0 rv! 0 fr! 0 frv! 0 pt!\nret\n"

abbrev pub written : Outcome Fault (Unit {0} × State) → Outcome Fault Code
written (err e) = err e
written (ok (u, s)) = ok s.self.out

-- The output as words, and as text.
unfoldable pub emit_code : Program → Outcome Fault Code
unfolding emit_functions prelude
emit_code g =
    written
      ((write (plain prelude ∷ registers g.functions) >> emit_functions g.functions) new_state)

abbrev pub rendered : Outcome Fault Code → Outcome Fault Text
rendered (err e) = err e
rendered (ok ws) = ok (render ws)

unfoldable pub emit : Program → Outcome Fault Text
unfolding emit_code render
emit g = rendered (emit_code g)
