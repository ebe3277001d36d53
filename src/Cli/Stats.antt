-- ===== src/Cli/Stats.antt =====
-- The last line that src/cli.c prints with `--find` and `--stats`.
use Prim.Native.String.{String}
use xallib.Prelude.{
  ℕ, ◌%◌, ◌≡◌, refl, sym, subst, ◌∙◌, ap, true, inl, inr, Option-cases, List, ◌++◌, arith,
}
use xallib.Result.{Result, ok, err, Result-cases, bind_ok, ◌>>=◌}
use xallib.Word.{size_mod}
use xallib.Types.{Xal}
use xallib.Walk.Preorder.{IsTree, preorder}
use xallib.Core.{Env, Handle, xal_of}
use xallib.Print.{Piece}
use xallib.Cli.Args.{CliArgs}
use xallib.Cli.Inspect.{node_inspector_find}
use xallib.Cli.Counts.{number_of, is_dir_at, is_file_at, find-Counts, walk-Counted}
use xallib.Cli.Main.{
  Report, put_out, stats_line, reported, walk_root, report_bmap, report_find, report_stats,
  find_inode, report_file, report,
}

-- The counts of the inodes below the root.
pub record HasCounts (fuel : ℕ) (xal : Xal) (s : Report) : Type 0 where
  pub dirs : s.ndirs ≡ number_of (is_dir_at xal) (preorder xal fuel xal.root_idx 0) % size_mod
  pub files : s.nfiles ≡ number_of (is_file_at xal) (preorder xal fuel xal.root_idx 0) % size_mod

walk_root-HasCounts :
    (fuel : ℕ) (xal : Xal) (dev_uri : List ℕ) (s : Report)
    → IsTree xal fuel xal.root_idx
    → (walk_root fuel xal (node_inspector_find xal dev_uri fuel) s).0 ≡ ok tt
    → HasCounts fuel xal (walk_root fuel xal (node_inspector_find xal dev_uri fuel) s).1
unfolding walk_root
walk_root-HasCounts fuel xal dev_uri s tree h =
    let c =
      walk-Counted xal (node_inspector_find xal dev_uri fuel) (find-Counts xal dev_uri fuel) fuel
        xal.root_idx
        (record { dirty = xal.dirty; cb_data = record { ndirs = 0; nfiles = 0; out = s.out } }) tree
        (omega arith) (omega arith) h in
    record { dirs = omega (arith, c.dirs); files = omega (arith, c.files) }

reported-ok :
    {A : Type 0} (call : String) (r : Result A × Report) {a : A}
    → (reported call r).0 ≡ ok a
    → reported call r ≡ r
reported-ok call (ok a, t) h = refl
reported-ok call (err e, t) h = cc h

-- What a report with `--find` and `--stats` ends with.
pub record EndsWithStats (fuel : ℕ) (xal : Xal) (s : Report) : Type 0 where
  pub counts : HasCounts fuel xal s
  pub before : List Piece
  pub last_line : s.out ≡ before ++ stats_line s

module _ (env : Env) (fuel : ℕ) (args : CliArgs) (dev_uri : List ℕ) where
  report_find-HasCounts :
      (xal : Xal) (s : Report)
      → args.find ≡ true
      → IsTree xal fuel xal.root_idx
      → (report_find env fuel args dev_uri xal s).0 ≡ ok tt
      → HasCounts fuel xal (report_find env fuel args dev_uri xal s).1
  unfolding report_find
  report_find-HasCounts xal s on tree h =
      let r = walk_root fuel xal (node_inspector_find xal dev_uri fuel) s in
      let h' = rw on at h in
      let same = reported-ok "xal_walk(.. node_visistor_find ..)" r h' in
      rw on (
        subst (λ q. HasCounts fuel xal q.1) (sym same)
          (walk_root-HasCounts fuel xal dev_uri s tree (ap (λ q. q.0) (sym same) ∙ h')))

  report_file_counts :
      (h : Handle) (s : Report)
      → ((report_file env fuel args h s).1.ndirs ≡ s.ndirs)
        × ((report_file env fuel args h s).1.nfiles ≡ s.nfiles)
  unfolding report_file
  report_file_counts h s = elim (Option-cases args.filename) [
    | inl e ↦ (simp (report_file, e) refl, simp (report_file, e) refl)
    | inr (path, e) ↦ elim (Result-cases (find_inode env fuel h path)) [
      | inl (i, f) ↦ (simp (report_file, e, f) refl, simp (report_file, e, f) refl)
      | inr (c, f) ↦ (simp (report_file, e, f) refl, simp (report_file, e, f) refl)
    ]
  ]

  stats_run :
      (s : Report) → args.stats ≡ true → report_stats env fuel args s ≡ put_out (stats_line s) s
  unfolding report_stats
  stats_run s on = rw on refl

  pub report-EndsWithStats :
      (h : Handle) (s : Report)
      → args.find ≡ true
      → args.stats ≡ true
      → IsTree (xal_of h) fuel (xal_of h).root_idx
      → (report env fuel args dev_uri h s).0 ≡ ok tt
      → EndsWithStats fuel (xal_of h) (report env fuel args dev_uri h s).1
  unfolding report
  report-EndsWithStats h s find stats tree e =
      let xal = xal_of h in
      let (u1, e1, r1) =
        bind_ok (report_bmap env fuel args dev_uri xal)
          (λ _. report_find env fuel args dev_uri xal >>= λ _.
            report_file env fuel args h >>= λ _. report_stats env fuel args)
          s e in
      let s1 : Report = (report_bmap env fuel args dev_uri xal s).1 in
      let (u2, e2, r2) =
        bind_ok (report_find env fuel args dev_uri xal)
          (λ _. report_file env fuel args h >>= λ _. report_stats env fuel args) s1
          (ap (λ q. q.0) (sym r1) ∙ e) in
      let s2 : Report = (report_find env fuel args dev_uri xal s1).1 in
      let (u3, e3, r3) =
        bind_ok (report_file env fuel args h) (λ _. report_stats env fuel args) s2
          (ap (λ q. q.0) (sym r2) ∙ ap (λ q. q.0) (sym r1) ∙ e) in
      let s3 : Report = (report_file env fuel args h s2).1 in
      let c = report_find-HasCounts xal s1 find tree e2 in
      let same = report_file_counts h s2 in
      subst (λ q. EndsWithStats fuel xal q.1) (sym (r1 ∙ r2 ∙ r3 ∙ stats_run s3 stats))
        (record {
          counts = record { dirs = same.0 ∙ c.dirs; files = same.1 ∙ c.files };
          before = s3.out;
          last_line = refl;
        })
