-- ===== src/Cli/Main.antt =====
-- `main` of src/cli.c. The opening of the device by libxnvme is a parameter; what goes to stderr is left
-- out.
use Prim.Native.String.{String}
use xallib.Prelude.{ℕ, Bool, true, false, Option, none, some, List, [], ◌∷◌, ◌++◌, if◌then◌else◌}
use xallib.Result.{Error, Exec, Result, ok, err, einval, overrun, ◌>>=◌}
use xallib.Pool.{Kernel}
use xallib.Types.{Xal, Backend, unset, xfs, fiemap, Inode, inode_at}
use xallib.Paths.{str_eq}
use xallib.Walk.{Walk, walk, get_root}
use xallib.Xfs.Iab3.{dinodes_retrieve}
use xallib.Fiemap.Search.{get_inode}
use xallib.Fiemap.Open.{Opts, Release}
use xallib.Core.{on_xfs, on_fiemap, Handle, Env, xal_of, index_xal, close_xal}
use xallib.Core.Open.{open_xal}
use xallib.Print.{Piece, text, bytes, number, error, unsigned}
use xallib.Print.Records.{xal_pp}
use xallib.Cli.Args.{CliArgs, blank_args, codes, parse_args}
use xallib.Cli.Inspect.{Inspector, node_inspector_find, node_inspector_bmap, pp_inode_extents}

-- What `main` returns: 0, an error as the library has it, or the same with its sign changed.
pub data ExitCode : Type 0 where
  success : ExitCode
  negative positive : Error → ExitCode

-- What a run leaves: the exit code, the output, what xal_close() gave back, and whether the device
-- was closed.
pub record Outcome : Type 0 where
  pub exit : ExitCode
  pub out : List Piece
  pub released : List Release
  pub is_dev_closed : Bool

-- A return that closes nothing.
abbrev pub leave : ExitCode → List Piece → Outcome
leave exit out = record { exit = exit; out = out; released = []; is_dev_closed = false }

abbrev pub backend_pieces : CliArgs → List Piece
backend_pieces args = elim args.backend [ none ↦ [] | some name ↦ bytes name ∷ [] ]

-- `opts.be`
unfoldable pub backend_of : CliArgs → Result Backend
backend_of args = elim args.backend [
  | some name ↦
      if str_eq name (codes "xfs")
      then ok xfs
      else if str_eq name (codes "fiemap")
      then ok fiemap
      else err einval
  | none ↦ elim args.filename [ some path ↦ ok fiemap | none ↦ ok unset ]
]

-- The output so far, and the counts in `cb_args`.
pub record Report : Type 0 where
  pub out : List Piece
  pub ndirs : ℕ
  pub nfiles : ℕ

abbrev pub put_out : List Piece → Exec Report (Unit {0})
put_out ps s = (ok tt, record s { out = s.out ++ ps })

-- The line for a call that failed.
abbrev pub failed : String → Error → List Piece
failed call e = text call ∷ (text "; err(" ∷ (error e ∷ (text ")\n" ∷ [])))

-- A call whose failure is printed and handed on.
abbrev pub reported : {A : Type 0} → String → Result A × Report → Result A × Report
reported call (ok a, t) = (ok a, t)
reported call (err e, t) = (err e, record t { out = t.out ++ failed call e })

-- `xal_walk` from the root, with counts that start at 0.
unfoldable pub walk_root :
    (fuel : ℕ) → Xal → (ℕ → ℕ → Exec (Walk Inspector) (Unit {0})) → Exec Report (Unit {0})
walk_root fuel xal cb s =
    let (r, w) =
      walk xal (some cb) fuel (get_root xal)
        (record { dirty = xal.dirty; cb_data = record { ndirs = 0; nfiles = 0; out = s.out } }) in
    (r, record { out = w.cb_data.out; ndirs = w.cb_data.ndirs; nfiles = w.cb_data.nfiles })

abbrev pub stats_line : Report → List Piece
stats_line s =
    text "ndirs("
    ∷ (number unsigned s.ndirs
        ∷ (text "); nfiles(" ∷ (number unsigned s.nfiles ∷ (text ")\n" ∷ []))))

module _ (env : Env) (fuel : ℕ) where
  -- `xal_get_inode` of the FIEMAP backend; others have none.
  unfoldable pub find_inode : Handle → (path : List ℕ) → Result ℕ
  find_inode h path = elim h.backing [
    | on_fiemap s ↦ get_inode env.fiemap_env s path
    | _ ↦ err einval
  ]

  -- `if (args.filename != NULL) { … }`
  unfoldable pub report_file : CliArgs → Handle → Exec Report (Unit {0})
  report_file args h s = elim args.filename [
    | none ↦ (ok tt, s)
    | some path ↦ elim (find_inode h path) [
      | err e ↦ (err e, record s { out = s.out ++ failed "FAILED: xal_get_inode()" e })
      | ok i ↦
          let inode : Inode = inode_at (xal_of h) i in
          put_out
            (text "'" ∷ (bytes inode.name ∷ (text "':\n" ∷ pp_inode_extents (xal_of h) inode))) s
    ]
  ]

  -- `if (args.bmap) { … }` and `if (args.find) { … }`
  unfoldable pub report_bmap : CliArgs → (dev_uri : List ℕ) → Xal → Exec Report (Unit {0})
  report_bmap args dev_uri xal s =
      if args.bmap
      then reported "xal_walk(.. node_visistor_bmap ..)"
          (walk_root fuel xal (node_inspector_bmap xal dev_uri fuel) s)
      else (ok tt, s)

  unfoldable pub report_find : CliArgs → (dev_uri : List ℕ) → Xal → Exec Report (Unit {0})
  report_find args dev_uri xal s =
      if args.find
      then reported "xal_walk(.. node_visistor_find ..)"
          (walk_root fuel xal (node_inspector_find xal dev_uri fuel) s)
      else (ok tt, s)

  unfoldable pub report_stats : CliArgs → Exec Report (Unit {0})
  report_stats args s = if args.stats then put_out (stats_line s) s else (ok tt, s)

  -- From the index to the label `exit`.
  unfoldable pub report : CliArgs → (dev_uri : List ℕ) → Handle → Exec Report (Unit {0})
  report args dev_uri h = report_bmap args dev_uri (xal_of h) >>= λ _.
      report_find args dev_uri (xal_of h) >>= λ _. report_file args h >>= λ _. report_stats args

  -- `xal_dinodes_retrieve`, which does something on XFS only.
  unfoldable pub retrieve : Exec Handle (Unit {0})
  retrieve h = elim h.backing [
    | on_xfs s ↦
        let (r, t) = dinodes_retrieve env.xfs_env fuel s in (r, record h { backing = on_xfs t })
    | _ ↦ (ok tt, h)
  ]

  -- What stands behind `exit`.
  abbrev pub close_all : Handle → ExitCode → List Piece → Outcome
  close_all h exit out = record {
    exit = exit;
    out = out;
    released = close_xal h;
    is_dev_closed = true;
  }

  abbrev pub exit_of : Result (Unit {0}) → ExitCode
  exit_of (ok u) = success
  exit_of (err e) = positive e

  -- What follows `xal_index`; `cb` is what `cb_args` has on the stack where no walk sets it.
  unfoldable pub after_index :
      CliArgs → (dev_uri : List ℕ) (cb : ℕ × ℕ) → List Piece → Result (Unit {0}) × Handle → Outcome
  after_index args dev_uri cb out (err e, h) =
      close_all h (positive e) (out ++ failed "xal_index(...)" e)
  after_index args dev_uri cb out (ok u, h) =
      let (r, s) = report args dev_uri h (record { out = out; ndirs = cb.0; nfiles = cb.1 }) in
      close_all h (exit_of r) s.out

  unfoldable pub index_and_report :
      CliArgs → (dev_uri : List ℕ) (cb : ℕ × ℕ) → Handle → List Piece → Outcome
  index_and_report args dev_uri cb h out = after_index args dev_uri cb out (index_xal env fuel h)

  -- From `xal_open` on. A failure of `xal_open` or `xal_dinodes_retrieve` closes nothing.
  unfoldable pub with_device :
      Kernel → (width : Piece → ℕ) (cb : ℕ × ℕ) → CliArgs → (dev_uri : List ℕ) → Backend → Outcome
  with_device kernel width cb args dev_uri be =
      let opts : Opts = record {
        watch_mode = xallib.Fiemap.State.off;
        is_hashmap = args.file_lookup_map;
        shm_name = none;
      } in
      let (r, handle) = open_xal env fuel kernel be opts in
      elim r [
        | err e ↦ leave (positive e) (failed "xal_open(...)" e)
        | ok u ↦ elim handle [
          | none ↦ leave (negative overrun) []
          | some h ↦
              let out = if args.meta then (xal_pp width (some h)).out else [] in
              let (q, t) = retrieve h in
              elim q [
                | err e ↦ leave (negative e) (out ++ failed "xal_dinodes_retrieve(...)" e)
                | ok v ↦ index_and_report args dev_uri cb t out
              ]
        ]
      ]

  -- `main`; `dev_open` gives the errno of xnvme_dev_open(), `width` the bytes that printf() writes.
  unfoldable pub run_main :
      Kernel
      → (dev_open : List ℕ → Option Error) (width : Piece → ℕ) (cb : ℕ × ℕ) (argv : List (List ℕ))
      → Outcome
  run_main kernel dev_open width cb argv = elim (parse_args argv blank_args) [
    | err e ↦ leave (negative e) []
    | ok args ↦ elim args.dev_uri [
      | none ↦ leave (negative overrun) []
      | some uri ↦ elim (dev_open uri) [
        | some e ↦ leave (negative e) (failed "xnvme_dev_open(...)" e)
        | none ↦ elim (backend_of args) [
          | err e ↦ leave (negative e) (
              text "Invalid backend: "
              ∷ (backend_pieces args ++ (text "; Valid choices: xfs, fiemap\n" ∷ [])))
          | ok be ↦ with_device kernel width cb args uri be
        ]
      ]
    ]
  ]
