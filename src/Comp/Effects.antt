-- ===== src/Comp/Effects.antt =====
-- `helper_effect` of comp/src/parse.rs: how many cells an operation of the run time takes off the
-- stack and puts there.
use u_flux.Prelude.{ℕ, List, [], ◌∷◌, Option, none, some, if◌then◌else◌, Text, codes, contains}

-- The arms in the order of the source; that of `op_ffold` and `op_fmatch` gives a result for the
-- former only, and those for no result are left out.
abbrev pub arms : List (List Text × (ℕ × ℕ))
arms =
    (
      codes "op_add"
          ∷ codes "op_sub"
          ∷ codes "op_mul"
          ∷ codes "op_and"
          ∷ codes "op_pow"
          ∷ codes "op_div"
          ∷ codes "op_rem"
          ∷ codes "op_eq"
          ∷ codes "op_seq"
          ∷ codes "op_sne"
          ∷ codes "op_lt"
          ∷ codes "op_gt"
          ∷ codes "op_lte"
          ∷ codes "op_gte"
          ∷ codes "op_or"
          ∷ codes "op_xor"
          ∷ codes "op_shl"
          ∷ codes "op_shr"
          ∷ [],
      (2, 1),
    )
    ∷ (
      codes "op_sqrt" ∷ codes "op_inc" ∷ codes "op_dec" ∷ codes "op_not" ∷ codes "op_bnot" ∷ [],
      (1, 1),
    )
    ∷ (
      codes "op_get"
          ∷ codes "op_getq"
          ∷ codes "op_orelse"
          ∷ codes "op_has"
          ∷ codes "op_contains"
          ∷ [],
      (2, 1),
    )
    ∷ (codes "op_set" ∷ [], (3, 0))
    ∷ (codes "op_append" ∷ codes "op_push" ∷ [], (2, 1))
    ∷ (codes "op_lpop" ∷ [], (1, 1))
    ∷ (codes "op_del" ∷ [], (2, 0))
    ∷ (
      codes "op_len"
          ∷ codes "op_typeof"
          ∷ codes "op_clone"
          ∷ codes "op_keys"
          ∷ codes "op_sort"
          ∷ codes "op_unique"
          ∷ codes "op_flat"
          ∷ [],
      (1, 1),
    )
    ∷ (
      codes "op_range"
          ∷ codes "op_filter"
          ∷ codes "op_some"
          ∷ codes "op_every"
          ∷ codes "op_chunk"
          ∷ [],
      (2, 1),
    )
    ∷ (codes "op_dict" ∷ codes "op_list" ∷ codes "op_caps" ∷ [], (0, 1))
    ∷ (codes "op_arr" ∷ codes "op_tensor" ∷ [], (2, 1))
    ∷ (codes "op_cast" ∷ [], (2, 1))
    ∷ (codes "op_dcast" ∷ [], (2, 1))
    ∷ (codes "op_vadd" ∷ codes "op_vsub" ∷ codes "op_vmul" ∷ codes "op_vdiv" ∷ [], (2, 1))
    ∷ (
      codes "op_veadd"
          ∷ codes "op_vesub"
          ∷ codes "op_vemul"
          ∷ codes "op_vediv"
          ∷ codes "op_vemax"
          ∷ codes "op_vemin"
          ∷ [],
      (2, 1),
    )
    ∷ (
      codes "op_veq" ∷ codes "op_vlt" ∷ codes "op_vgt" ∷ codes "op_vge" ∷ codes "op_vle" ∷ [],
      (2, 1),
    )
    ∷ (codes "op_vand" ∷ codes "op_vor" ∷ [], (2, 1))
    ∷ (
      codes "op_vnot"
          ∷ codes "op_vcount"
          ∷ codes "op_vsum"
          ∷ codes "op_vmean"
          ∷ codes "op_vmin"
          ∷ codes "op_vmax"
          ∷ codes "op_vargsort"
          ∷ [],
      (1, 1),
    )
    ∷ (codes "op_vgather" ∷ codes "op_vwhere" ∷ codes "op_vsearchsorted" ∷ [], (2, 1))
    ∷ (codes "op_vmap" ∷ codes "op_vfold" ∷ [], (3, 1))
    ∷ (codes "op_vget" ∷ [], (2, 1))
    ∷ (codes "op_vset" ∷ [], (3, 0))
    ∷ (
      codes "op_cat"
          ∷ codes "op_join"
          ∷ codes "op_slice"
          ∷ codes "op_starts"
          ∷ codes "op_ends"
          ∷ codes "op_find"
          ∷ codes "op_rsplit"
          ∷ [],
      (2, 1),
    )
    ∷ (codes "op_replace" ∷ codes "op_repl" ∷ [], (3, 1))
    ∷ (codes "op_trim" ∷ codes "op_up" ∷ codes "op_down" ∷ [], (1, 1))
    ∷ (codes "op_glob" ∷ [], (2, 1))
    ∷ (codes "op_slurp" ∷ codes "op_mmap" ∷ [], (1, 1))
    ∷ (codes "op_spit" ∷ [], (2, 0))
    ∷ (codes "op_femit" ∷ [], (2, 1))
    ∷ (codes "op_feach" ∷ [], (2, 0))
    ∷ (codes "op_ffold" ∷ [], (3, 1))
    ∷ (codes "op_fsplit" ∷ [], (4, 1))
    ∷ (codes "op_fget" ∷ codes "op_fatoi" ∷ codes "op_fatof" ∷ codes "op_fbyte" ∷ [], (1, 1))
    ∷ (codes "op_fsget" ∷ [], (2, 1))
    ∷ (codes "op_addto" ∷ [], (3, 0))
    ∷ (codes "op_faddto" ∷ codes "op_finc" ∷ [], (2, 0))
    ∷ (codes "op_count" ∷ [], (1, 1))
    ∷ (codes "op_argv" ∷ codes "op_hasargs" ∷ codes "op_now" ∷ [], (0, 1))
    ∷ (codes "op_argi" ∷ [], (1, 1))
    ∷ (codes "op_sh" ∷ [], (1, 3))
    ∷ (codes "op_shp" ∷ codes "op_exec" ∷ [], (1, 1))
    ∷ (codes "op_time" ∷ codes "op_timef" ∷ [], (2, 1))
    ∷ (codes "op_bloom" ∷ [], (1, 1))
    ∷ (codes "op_badd" ∷ [], (2, 0))
    ∷ (codes "op_btest" ∷ [], (2, 1))
    ∷ (
      codes "op_json"
          ∷ codes "op_unjson"
          ∷ codes "op_iter"
          ∷ codes "op_next"
          ∷ codes "op_collect"
          ∷ [],
      (1, 1),
    )
    ∷ (codes "op_imap" ∷ codes "op_ifilter" ∷ [], (2, 1))
    ∷ (codes "op_atoi" ∷ codes "op_atof" ∷ codes "op_itoa" ∷ codes "op_ftoa" ∷ [], (1, 1))
    ∷ (
      codes "op_chan" ∷ codes "op_atom" ∷ codes "op_aget" ∷ codes "op_deq" ∷ codes "op_spawn" ∷ [],
      (1, 1),
    )
    ∷ (codes "op_enq" ∷ [], (2, 0))
    ∷ (codes "op_close" ∷ [], (1, 0))
    ∷ (codes "op_aset" ∷ codes "op_aadd" ∷ [], (2, 0))
    ∷ (codes "op_cas" ∷ [], (3, 1))
    ∷ (codes "op_buf" ∷ codes "op_malloc" ∷ codes "op_sizeof" ∷ [], (1, 1))
    ∷ (codes "op_free" ∷ [], (1, 0))
    ∷ (codes "op_bufcopy" ∷ codes "op_storex" ∷ [], (3, 0))
    ∷ (codes "op_loadx" ∷ [], (1, 1))
    ∷ (codes "op_print" ∷ [], (1, 0))
    ∷ (codes "op_scan" ∷ [], (1, 1))
    ∷ (codes "op_cap" ∷ codes "op_transpose" ∷ [], (1, 1))
    ∷ (codes "op_shutdown" ∷ [], (0, 0))
    ∷ (codes "op_drop" ∷ [], (1, 0))
    ∷ (codes "op_wfind" ∷ codes "op_bfs" ∷ codes "op_dfs" ∷ [], (2, 1))
    ∷ (codes "op_rangefold" ∷ [], (3, 1))
    ∷ []

unfoldable pub first_arm : List (List Text × (ℕ × ℕ)) → Text → Option (ℕ × ℕ)
unfolding contains
first_arm [] h = none
first_arm ((names, e) ∷ rest) h = if contains names h then some e else first_arm rest h

unfoldable pub helper_effect : Text → Option (ℕ × ℕ)
unfolding first_arm
helper_effect h = first_arm arms h
