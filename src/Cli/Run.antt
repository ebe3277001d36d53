-- ===== src/Cli/Run.antt =====
-- What a run of src/cli.c with `--find` and `--stats` on a FIEMAP handle prints.
use xallib.Prelude.{ℕ, zero, suc, ◌≡◌, refl, Bool, true, false, inl, inr, ◌⊎◌, List, if◌then◌else◌}
use xallib.Result.{Result, ok, err, einval}
use xallib.Types.{Xal}
use xallib.Walk.Preorder.{IsTree}
use xallib.Types.{blank_inode}
use xallib.Pool.Bounds.{ChecksMapping, IsValid}
use xallib.Fiemap.State.{Fiemap}
use xallib.Fiemap.Index.{index}
use xallib.Fiemap.Tree.Region.{IsIndexedIn}
use xallib.Fiemap.Tree.Listing.{IsReaddir, IsQsort}
use xallib.Fiemap.Tree.Built.{HasIndex, index-HasIndex}
use xallib.Core.{Env, Handle, on_fiemap, index_backing, index_xal}
use xallib.Print.{Piece}
use xallib.Cli.Args.{CliArgs}
use xallib.Cli.Main.{Report, Outcome, success, exit_of, after_index, index_and_report, report}
use xallib.Cli.Stats.{EndsWithStats, report-EndsWithStats}

IsIndexedIn-IsTree :
    (xal : Xal) (lo hi fuel : ℕ) (path : List ℕ) (inode : ℕ)
    → IsIndexedIn xal lo hi fuel path inode
    → IsTree xal fuel inode
unfolding IsIndexedIn IsTree
IsIndexedIn-IsTree xal lo hi zero path inode h = h
IsIndexedIn-IsTree xal lo hi (suc fuel) path inode (inl file) = inl file
IsIndexedIn-IsTree xal lo hi (suc fuel) path inode (inr (dir, sorted, at)) =
    inr (dir, λ k bound. IsIndexedIn-IsTree xal lo hi fuel _ _ (at k bound).3)

-- A run that made an index and printed its counts.
pub record Reported (fuel : ℕ) (s : Fiemap) (outcome : Outcome) : Type 0 where
  pub index_there : HasIndex fuel s
  pub report : Report
  pub same_out : outcome.out ≡ report.out
  pub stats : EndsWithStats fuel s.xal report

-- A handle of the FIEMAP backend.
abbrev pub handle : Fiemap → (shared : Bool) → Handle
handle s shared = record { backing = on_fiemap s; is_dirty_shared = shared }

module _ (env : Env) (checks : ChecksMapping env.fiemap_env.kernel)
    (readdir : IsReaddir env.fiemap_env.opendir) (qsort : IsQsort env.fiemap_env.qsort) where
  exit_of-success : (r : Result (Unit {0})) → exit_of env 0 r ≡ success → r ≡ ok tt
  exit_of-success (ok u) h = refl
  exit_of-success (err e) h = cc h

  -- The handle of an index.
  index_run :
      (fuel : ℕ) (s : Fiemap) (shared : Bool)
      → (index_xal env fuel (handle s shared) ≡ (err einval, handle s shared))
        ⊎ (index_xal env fuel (handle s shared)
            ≡ ((index env.fiemap_env fuel s).0, handle (index env.fiemap_env fuel s).1 shared))
  unfolding index_xal index_backing
  index_run fuel s shared = by_view s.xal.shared_view _ _
    where
      by_view :
          (b : Bool) (x y : Result (Unit {0}) × Handle)
          → ((if b then x else y) ≡ x) ⊎ ((if b then x else y) ≡ y)
      by_view true x y = inl refl
      by_view false x y = inr refl

  after_index-Reported :
      (fuel : ℕ) (args : CliArgs) (dev_uri : List ℕ) (cb : ℕ × ℕ) (s : Fiemap) (shared : Bool)
      (out : List Piece) (r : Result (Unit {0}))
      → args.find ≡ true
      → args.stats ≡ true
      → (r ≡ ok tt → HasIndex fuel s)
      → (after_index env fuel args dev_uri cb out (r, handle s shared)).exit ≡ success
      → Reported fuel s (after_index env fuel args dev_uri cb out (r, handle s shared))
  unfolding after_index
  after_index-Reported fuel args dev_uri cb s shared out (err e) find stats found h = cc h
  after_index-Reported fuel args dev_uri cb s shared out (ok u) find stats found h =
      let x = found refl in
      let start : Report = record { out = out; ndirs = cb.0; nfiles = cb.1 } in
      let q = report env fuel args dev_uri (handle s shared) start in
      record {
        index_there = x;
        report = q.1;
        same_out = refl;
        stats =
            report-EndsWithStats env fuel args dev_uri (handle s shared) start find stats
              (IsIndexedIn-IsTree s.xal 0 s.xal.inodes.free fuel s.mountpoint s.xal.root_idx
                x.within)
              (exit_of-success q.0 h);
      }

  -- Where the command line tool has a FIEMAP handle with a valid pool of inodes and is given
  -- --find and --stats, and its exit code is 0, it has made an index below the mountpoint, and
  -- its last line has the number of the directories and that of the files in that index, modulo
  -- 2^64. This supposes what POSIX says of readdir(), what the C standard says of qsort(), and
  -- that mprotect() refuses what is not mapped.
  pub index_and_report-Reported :
      (fuel : ℕ) (args : CliArgs) (dev_uri : List ℕ) (cb : ℕ × ℕ) (s : Fiemap) (shared : Bool)
      (out : List Piece)
      → args.find ≡ true
      → args.stats ≡ true
      → IsValid blank_inode s.xal.inodes
      → (index_and_report env fuel args dev_uri cb (handle s shared) out).exit ≡ success
      → Reported fuel
          (index env.fiemap_env fuel s).1
          (index_and_report env fuel args dev_uri cb (handle s shared) out)
  unfolding index_and_report after_index
  index_and_report-Reported fuel args dev_uri cb s shared out find stats v h =
      elim (index_run fuel s shared) [
        | inl e ↦ cc (rw e at h)
        | inr e ↦ rw e (
            after_index-Reported fuel args dev_uri cb (index env.fiemap_env fuel s).1 shared out
              (index env.fiemap_env fuel s).0 find stats
              (λ k. index-HasIndex env.fiemap_env checks readdir qsort fuel s v k) (rw e at h))
      ]
