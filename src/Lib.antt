-- ===== src/Lib.antt =====
-- The capability model of the uFlux compiler, parts of the compiler, and its transpiler from a subset
-- of C.
--
-- The repository holds a compiler (comp) from the uFlux language to C, and a transpiler (trans) from
-- a subset of C to that language. The capability model, the transpiler and those parts of the
-- compiler that compute on their own data are modelled here.
--
-- The capability model (comp/src/sandbox.rs, and the gate in the C text of comp/src/prelude.rs):
--   * Sandbox/Pattern: `CAP_NAMES`, `op_capability` and `pattern_matches`.
--   * Sandbox/Rules: `Tri`, `Rules` and `resolve_cap`.
--   * Sandbox/Host: `path_within`. What the operating system and `std::path` answer (exists, parent,
--     canonicalize, starts_with, absolute paths) is the record `Host`, a parameter. Its one law is
--     that a path's parent is a shorter path. Sandbox/HostLaws follows the search upwards.
--   * Sandbox/Caps: `Caps`, `cap`, `cap_i64`, `module_allowed` and `apply_rules`, one layer at a
--     time.
--   * Sandbox/Describe: `describe`, which the driver puts into the key of its cache of builds, and
--     `report`.
--   * Sandbox/Effective: `SandboxFile`, `policy_list` and `effective`. The baked configuration, the
--     selected policy, the run-time files, the extra roots and the base directory are arguments, in
--     the order in which `effective` applies them.
--   * Sandbox/Ufs: `parse_rules` and `parse_ufs`.
--   * Sandbox/Bake: `c_bake` and `c_escape`. The generated C is a list of statements, each with its
--     text and with what it does to the globals of the run time.
--   * Sandbox/Gate: `uf_fs_gate`, `uf_cap_names`, `uf_cap_index` and `op_cap`. `realpath` is a
--     parameter. Sandbox/GateLaws has the paths that lie under a root.
--     Sandbox/Discovery compares `op_cap` with `cap_i64`.
-- `effective` computes a `Caps`, `c_bake` writes it into the program, and `fs_gate` reads it there;
-- Sandbox/Workspace, Sandbox/BakeLaws and Sandbox/GateLaws follow the roots along the whole way.
--
-- The transpiler (trans/src) lexes, parses and emits, each from what the one before gives:
--   * Trans/Token: token.rs and error.rs.
--   * Trans/Lexer: `lex` of lexer.rs; Trans/Lexemes and Trans/Positions say what it finds and where.
--   * Trans/Ast: ast.rs.
--   * Trans/Parser: parser.rs, with the cursor in State, the binary levels in Operators, the rest of
--     `expr` in Expressions, declarations and `return` in Declarations, and the other methods in
--     Statements. Jumps says where `break` and `continue` stand; Progress and the modules named
--     after it (from OperatorProgress to ProgramProgress) follow the tokens that are left.
--   * Trans/Emit: emit.rs, with the output's words in Code, `expr` in Expressions, `Emitter`, `FnCtx`
--     and `Buf` in State, `stmt_list` and `stmt` in Statements, and `function` and `emit` in
--     Functions. Quoted and defined labels are words of their own, and so are functions' labels; the
--     map of slots is a list, the latest entry first.
--
-- Trans/Emit/Counts, Steps, Tallies, SimpleSteps, LoopSteps, BranchSteps and LabelSteps count the
-- labels that each method quotes and defines; Labels puts them together for a program.
--
-- Trans/Run is trans/src/main.rs: `run`, the three parts behind each other, and the place of an error
-- in the joined inputs; Trans/RunLaws is about both. Reading the arguments and the files, and
-- printing, are left aside.
--
-- Of the compiler (comp/src):
--   * Comp/Tokens and Comp/Strings: `text_tokens` and `unquote` of lex.rs, and `escape_str` of
--     emit.rs.
--   * Comp/Numbers: the base-64 numbers of the dense encoding, `lrun` and `lrun_u64` of lex.rs and
--     `lrun_u` of emit.rs.
--   * Comp/Slots: `is_slot` and `nm` of `emit_dense` in emit.rs, the names of the dense encoding.
--   * Comp/Ast: the instructions and the parsed program (`Parsed`) of ast.rs.
--   * Comp/Opcodes and Comp/Gate: `simple_ins` and `gate_op` of parse.rs, and the arm of `parse` that
--     calls them. Their capabilities are those of Sandbox/Caps.
--   * Comp/UnionFind: the union-find of `compute_ins_body` in parse.rs, which joins labels that refer
--     to each other; Comp/Forests, Comp/Unions and Comp/Components follow its roots. Comp/Bodies is
--     the rest of `compute_ins_body`, from a parsed program to the call body of each instruction.
--   * Comp/Merge: `merge_tus` of parse.rs, which puts the units behind each other and calls
--     `resolve_locals`: Comp/Scope (shared names and the checks on names), Comp/Atomics (additions to
--     shared variables), Comp/Compaction (positions without `nop`s), Comp/Frames (slots of locals)
--     and Comp/Locals, which composes them. Comp/MergeLabels, Comp/MergeUnits, Comp/ScopeLaws,
--     Comp/FrameLaws, Comp/LocalSlots and Comp/CompactionLaws have their lemmas.
--   * Comp/Effects and Comp/Arity: `helper_effect` and `check_label_arity` of parse.rs, which the
--     driver calls on the merged program. Comp/Heights counts the cells of a run, with
--     Comp/OpCells for what the run time's arithmetic takes and gives, to compare the check with
--     (Comp/ArityMoves, Comp/ArityLaws).
--   * Compute/Expr and Compute/Equal: `TExpr` of compute.rs, the expressions of the fused kernels,
--     with `expr_width`, `expr_uses_input`, `expr_input_free`, `remap_input`, `fuse_binop` and
--     `same_expr`. Compute/Inputs, Compute/Renumbering and Compute/Domains say which inputs an
--     expression reads, and where.
--   * Compute/Tasks: `analyze_one_task` of compute.rs, with the conversion of an i64 to an f64 as a
--     parameter. Compute/Machine is a stack machine for such code, with assignments as gen.rs emits
--     them and integers kept apart from doubles, and the value of an expression, over any doubles, to
--     compare the analysis with; Compute/Stores is where the two part.
--
-- A text is a list of numbers: the bytes of the C source, the characters of the configuration. A
-- panic or an error is the `err` of an `Outcome`. Loops that need not take a smaller argument are
-- on fuel: `lex` has one more than the bytes of the source, the parser one more than its tokens,
-- the search of `path_within` one more than the characters of the path, and `text_tokens` the
-- characters of its source. Each turn takes at least one of these. The digits of a u64 have fuel
-- for eleven of them, the searches of the union-find one more than there are references, and the
-- count of a task's binds more than the largest key. A parser that runs out of fuel reports the
-- failure `fuel`, which stands for no error of the program.
--
-- Not modelled: the glyphs and the other readers of the compiler's lexer; of its parser the reading
-- of instructions and `check_strictness`; its code generation, the regions and the text of its
-- kernels, its run time other than the gate, and the drivers, which read files and call a C compiler.
-- Lines and columns, which count bytes of a file in memory, and specificities are not bounded.
pub mod Prelude
pub mod Sandbox
pub mod Trans
pub mod Comp
pub mod Compute
