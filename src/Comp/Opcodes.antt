-- ===== src/Comp/Opcodes.antt =====
-- `simple_ins` of comp/src/parse.rs: the helper of the run time that an opcode calls.
use u_flux.Prelude.{List, [], ◌∷◌, Option, none, some, if◌then◌else◌, Text, codes, text_eq}

-- The opcodes in the order of the source.
abbrev pub helpers : List (Text × Text)
helpers =
    (codes "ADD", codes "op_add")
    ∷ (codes "SUB", codes "op_sub")
    ∷ (codes "MUL", codes "op_mul")
    ∷ (codes "AND", codes "op_and")
    ∷ (codes "POW", codes "op_pow")
    ∷ (codes "SQRT", codes "op_sqrt")
    ∷ (codes "LTE", codes "op_lte")
    ∷ (codes "GTE", codes "op_gte")
    ∷ (codes "SHUTDOWN", codes "op_shutdown")
    ∷ (codes "DROP", codes "op_drop")
    ∷ (codes "SHR", codes "op_shr")
    ∷ (codes "INC", codes "op_inc")
    ∷ (codes "DEC", codes "op_dec")
    ∷ (codes "OBJ", codes "op_obj")
    ∷ (codes "GET", codes "op_get")
    ∷ (codes "SET", codes "op_set")
    ∷ (codes "ARR", codes "op_arr")
    ∷ (codes "CLONE", codes "op_clone")
    ∷ (codes "CAST", codes "op_cast")
    ∷ (codes "TENSOR", codes "op_tensor")
    ∷ (codes "CAT", codes "op_cat")
    ∷ (codes "FMT", codes "op_fmt")
    ∷ (codes "BUF", codes "op_buf")
    ∷ (codes "BUFCOPY", codes "op_bufcopy")
    ∷ (codes "LOADX", codes "op_loadx")
    ∷ (codes "STOREX", codes "op_storex")
    ∷ (codes "SIZEOF", codes "op_sizeof")
    ∷ (codes "MALLOC", codes "op_malloc")
    ∷ (codes "FREE", codes "op_free")
    ∷ (codes "GC", codes "op_gc")
    ∷ (codes "PRINT", codes "op_print")
    ∷ (codes "SCAN", codes "op_scan")
    ∷ (codes "DICT", codes "op_dict")
    ∷ (codes "LIST", codes "op_list")
    ∷ (codes "PUSH", codes "op_push")
    ∷ (codes "POP", codes "op_lpop")
    ∷ (codes "CHAN", codes "op_chan")
    ∷ (codes "ENQ", codes "op_enq")
    ∷ (codes "DEQ", codes "op_deq")
    ∷ (codes "CLOSE", codes "op_close")
    ∷ (codes "ATOM", codes "op_atom")
    ∷ (codes "AGET", codes "op_aget")
    ∷ (codes "ASET", codes "op_aset")
    ∷ (codes "AADD", codes "op_aadd")
    ∷ (codes "CAS", codes "op_cas")
    ∷ (codes "TYPEOF", codes "op_typeof")
    ∷ (codes "LEN", codes "op_len")
    ∷ (codes "SH", codes "op_sh")
    ∷ (codes "SHP", codes "op_shp")
    ∷ (codes "EXEC", codes "op_exec")
    ∷ (codes "CAP", codes "op_cap")
    ∷ (codes "CAPS", codes "op_caps")
    ∷ (codes "MATCH", codes "op_match")
    ∷ (codes "REPLACE", codes "op_replace")
    ∷ (codes "RSPLIT", codes "op_rsplit")
    ∷ (codes "GLOB", codes "op_glob")
    ∷ (codes "SPLIT", codes "op_split")
    ∷ (codes "JOIN", codes "op_join")
    ∷ (codes "SLICE", codes "op_slice")
    ∷ (codes "FIND", codes "op_find")
    ∷ (codes "REPL", codes "op_repl")
    ∷ (codes "TRIM", codes "op_trim")
    ∷ (codes "UP", codes "op_up")
    ∷ (codes "DOWN", codes "op_down")
    ∷ (codes "STARTS", codes "op_starts")
    ∷ (codes "ENDS", codes "op_ends")
    ∷ (codes "DIV", codes "op_div")
    ∷ (codes "REM", codes "op_rem")
    ∷ (codes "EQ", codes "op_eq")
    ∷ (codes "SEQ", codes "op_seq")
    ∷ (codes "SNE", codes "op_sne")
    ∷ (codes "LT", codes "op_lt")
    ∷ (codes "GT", codes "op_gt")
    ∷ (codes "NOT", codes "op_not")
    ∷ (codes "OR", codes "op_or")
    ∷ (codes "XOR", codes "op_xor")
    ∷ (codes "SHL", codes "op_shl")
    ∷ (codes "BNOT", codes "op_bnot")
    ∷ (codes "DEL", codes "op_del")
    ∷ (codes "GETQ", codes "op_getq")
    ∷ (codes "HAS", codes "op_has")
    ∷ (codes "ORELSE", codes "op_orelse")
    ∷ (codes "KEYS", codes "op_keys")
    ∷ (codes "RANGE", codes "op_range")
    ∷ (codes "SORT", codes "op_sort")
    ∷ (codes "FILTER", codes "op_filter")
    ∷ (codes "SOME", codes "op_some")
    ∷ (codes "EVERY", codes "op_every")
    ∷ (codes "VADD", codes "op_add")
    ∷ (codes "VSUB", codes "op_sub")
    ∷ (codes "VMUL", codes "op_mul")
    ∷ (codes "VDIV", codes "op_div")
    ∷ (codes "VEADD", codes "op_add")
    ∷ (codes "VESUB", codes "op_sub")
    ∷ (codes "VEMUL", codes "op_mul")
    ∷ (codes "VEDIV", codes "op_div")
    ∷ (codes "VEMAX", codes "op_vemax")
    ∷ (codes "VEMIN", codes "op_vemin")
    ∷ (codes "VEQ", codes "op_veq")
    ∷ (codes "VLT", codes "op_vlt")
    ∷ (codes "VGT", codes "op_vgt")
    ∷ (codes "VGE", codes "op_vge")
    ∷ (codes "VLE", codes "op_vle")
    ∷ (codes "VAND", codes "op_vand")
    ∷ (codes "VOR", codes "op_vor")
    ∷ (codes "VNOT", codes "op_vnot")
    ∷ (codes "VCOUNT", codes "op_vcount")
    ∷ (codes "VGATHER", codes "op_vgather")
    ∷ (codes "VSUM", codes "op_vsum")
    ∷ (codes "VMEAN", codes "op_vmean")
    ∷ (codes "VMIN", codes "op_vmin")
    ∷ (codes "VMAX", codes "op_vmax")
    ∷ (codes "VMAP", codes "op_vmap")
    ∷ (codes "VFOLD", codes "op_vfold")
    ∷ (codes "NOW", codes "op_now")
    ∷ (codes "TIME", codes "op_time")
    ∷ (codes "TIMEF", codes "op_timef")
    ∷ (codes "BLOOM", codes "op_bloom")
    ∷ (codes "BADD", codes "op_badd")
    ∷ (codes "BTEST", codes "op_btest")
    ∷ (codes "SLURP", codes "op_slurp")
    ∷ (codes "SPIT", codes "op_spit")
    ∷ (codes "ARGV", codes "op_argv")
    ∷ (codes "GROUP", codes "op_group")
    ∷ (codes "AGG", codes "op_agg")
    ∷ (codes "UNIQUE", codes "op_unique")
    ∷ (codes "FLAT", codes "op_flat")
    ∷ (codes "CHUNK", codes "op_chunk")
    ∷ (codes "VARGSORT", codes "op_vargsort")
    ∷ (codes "VSEARCHSORTED", codes "op_vsearchsorted")
    ∷ (codes "VWHERE", codes "op_vwhere")
    ∷ (codes "MMAP", codes "op_mmap")
    ∷ (codes "FEACH", codes "op_feach")
    ∷ (codes "FFOLD", codes "op_ffold")
    ∷ (codes "FSPLIT", codes "op_fsplit")
    ∷ (codes "FGET", codes "op_fget")
    ∷ (codes "FATOI", codes "op_fatoi")
    ∷ (codes "FATOF", codes "op_fatof")
    ∷ (codes "FSGET", codes "op_fsget")
    ∷ (codes "FBYTE", codes "op_fbyte")
    ∷ (codes "VGET", codes "op_vget")
    ∷ (codes "VSET", codes "op_vset")
    ∷ (codes "ADDTO", codes "op_addto")
    ∷ (codes "FADDTO", codes "op_faddto")
    ∷ (codes "FINC", codes "op_finc")
    ∷ (codes "INCR", codes "op_count")
    ∷ (codes "FMATCH", codes "op_fmatch")
    ∷ (codes "BFS", codes "op_bfs")
    ∷ (codes "DFS", codes "op_dfs")
    ∷ (codes "WFIND", codes "op_wfind")
    ∷ (codes "JSON", codes "op_json")
    ∷ (codes "UNJSON", codes "op_unjson")
    ∷ (codes "ITER", codes "op_iter")
    ∷ (codes "NEXT", codes "op_next")
    ∷ (codes "COLLECT", codes "op_collect")
    ∷ (codes "IMAP", codes "op_imap")
    ∷ (codes "IFILTER", codes "op_ifilter")
    ∷ (codes "FEMIT", codes "op_femit")
    ∷ (codes "TRY", codes "op_try")
    ∷ (codes "RETRY", codes "op_retry")
    ∷ (codes "SPAWN", codes "op_spawn")
    ∷ (codes "ATOI", codes "op_atoi")
    ∷ (codes "ATOF", codes "op_atof")
    ∷ (codes "ITOA", codes "op_itoa")
    ∷ (codes "FTOA", codes "op_ftoa")
    ∷ (codes "HASARGS", codes "op_hasargs")
    ∷ (codes "ARGI", codes "op_argi")
    ∷ (codes "SORTKEYS", codes "op_sortkeys")
    ∷ (codes "TOPN", codes "op_topn")
    ∷ (codes "RANGEFOLD", codes "op_rangefold")
    ∷ (codes "TRANSPOSE", codes "op_transpose")
    ∷ (codes "DCAST", codes "op_dcast")
    ∷ []

unfoldable pub entry : {A : Type 0} → List (Text × A) → Text → Option A
unfolding text_eq
entry [] n = none
entry ((m, a) ∷ es) n = if text_eq m n then some a else entry es n

-- `none` is the panic on an opcode without a helper.
unfoldable pub helper_of : Text → Option Text
unfolding entry
helper_of name = entry helpers name
