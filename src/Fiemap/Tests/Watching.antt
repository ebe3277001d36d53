-- ===== src/Fiemap/Tests/Watching.antt =====
-- Files, events and locks in the file system of `Fiemap.Tests`.
use xallib.Prelude.{
  ℕ, zero, suc, ◌%◌, ◌≤◌, ◌<◌, ◌≡◌, ◌⊎◌, refl, inr, false, none, some, [], ◌∷◌, arith,
}
use xallib.Result.{Error, ok, err, einval}
use xallib.Pool.{claim_extents, make_room, grow, take_free, map_pool, map_private}
use xallib.Pool.Bounds.{IsValid}
use xallib.Pool.Tests.{test_kernel-ChecksMapping}
use xallib.Types.{blank_extent}
use xallib.Extents.Held.{IsReady, Holds}
use xallib.Paths.{has_slash, strcmp}
use xallib.Fiemap.State.{Env, Fiemap, off, lock_step}
use xallib.Fiemap.Search.{put_path}
use xallib.Fiemap.Search.Named.{IsNamed}
use xallib.Fiemap.Files.{read_fiemap, store_extents, fill_extents, process_inode_file}
use xallib.Fiemap.Index.{index}
use xallib.Fiemap.Events.{InotifyEvent, check_events}
use xallib.Fiemap.Open.{
  Opts, open_fiemap, open_tree, open_pools, open_path_map, open_inotify, retrieve_total_entries,
  count_entries,
}
use xallib.Fiemap.Stored.{AllInBlocks, process_inode_file-Holds}
use xallib.Fiemap.Locks.{index-seq_lock, check_events-seq_lock}
use xallib.Fiemap.RootUpdate.{check_events-root}
use xallib.Fiemap.Empty.{open_fiemap-empty}
use xallib.Fiemap.Tests.{slash_m, name_a, test_env, small_fs, watching_root, extents_of_file}

extents-IsValid : IsValid blank_extent small_fs.xal.extents
extents-IsValid = record {
  sized = omega arith;
  small = omega arith;
  step = omega arith;
  used = omega arith;
  mapped = omega arith;
  zeroed = λ i lo hi. refl;
}

small_fs-IsReady : IsReady 1 small_fs.xal
small_fs-IsReady = record { valid = extents-IsValid; small = omega arith; counts = omega arith }

read_test : read_fiemap test_env name_a ≡ ok extents_of_file
unfolding read_fiemap
read_test = refl

file_test : (process_inode_file test_env name_a 1 small_fs).0 ≡ ok tt
unfolding process_inode_file read_fiemap store_extents fill_extents claim_extents make_room
    take_free put_path
file_test = refl

process_inode_file-Holds_example :
    Holds 1 small_fs.xal (process_inode_file test_env name_a 1 small_fs).1.xal
    × ((process_inode_file test_env name_a 1 small_fs).1.xal.extents.free ≡ 2)
    × AllInBlocks 4096 extents_of_file
        (process_inode_file test_env name_a 1 small_fs).1.xal.extents.memory
        small_fs.xal.extents.free
process_inode_file-Holds_example =
    process_inode_file-Holds test_env test_kernel-ChecksMapping name_a 1 _ _ small_fs
      small_fs-IsReady (omega arith) refl read_test file_test

index-seq_lock_example :
    ((index test_env 3 small_fs).1.xal.seq_lock % 2 ≡ 0)
    × ((((index test_env 3 small_fs).0 ≡ ok tt) × ((index test_env 3 small_fs).1.xal.dirty ≡ false))
        ⊎ (e : Error) × ((index test_env 3 small_fs).0 ≡ err e)
          × ((index test_env 3 small_fs).1.xal.dirty ≡ false))
index-seq_lock_example = index-seq_lock test_env 3 small_fs

-- A write to the file `a` of the root.
abbrev written_a : InotifyEvent
written_a = record { wd = 2; mask = 8; event_name = b'a' ∷ [] }

check_events-seq_lock_example :
    (check_events test_env watching_root (written_a ∷ []) small_fs).1.xal.seq_lock % 2 ≡ 0
check_events-seq_lock_example =
    check_events-seq_lock test_env watching_root (written_a ∷ []) small_fs

named : (k : ℕ) → 1 ≤ k → k < 3 → IsNamed slash_m (small_fs.xal.inodes.memory k)
unfolding has_slash
named zero lo hi = absurd (omega arith)
named (suc zero) lo hi = record {
  component = b'a' ∷ [];
  not_empty = omega arith;
  no_slash = refl;
  named = refl;
  has_name = omega arith;
}
named (suc (suc zero)) lo hi = record {
  component = b'b' ∷ [];
  not_empty = omega arith;
  no_slash = refl;
  named = refl;
  has_name = omega arith;
}
named (suc (suc (suc k))) lo hi = absurd (omega arith)

no_slash_a : has_slash (b'a' ∷ []) ≡ false
unfolding has_slash
no_slash_a = refl

check_events-root_example :
    check_events test_env watching_root (written_a ∷ []) small_fs
    ≡ (err einval, lock_step (lock_step small_fs))
check_events-root_example =
    check_events-root test_env watching_root written_a [] small_fs 0 b'/' (b'm' ∷ []) refl refl refl
      refl refl refl no_slash_a (omega arith) named

-- A mountpoint with the two entries that every directory has.
abbrev empty_env : Env
empty_env = record test_env { opendir = λ p. inr [] }

abbrev plain : Opts
plain = record { watch_mode = off; is_hashmap = false; shm_name = none }

total_test : retrieve_total_entries empty_env 1 slash_m ≡ ok 0
unfolding retrieve_total_entries count_entries strcmp
total_test = refl

abbrev opened : Fiemap
opened = elim (open_fiemap empty_env 1 (some slash_m) plain) [ ok s ↦ s | err e ↦ small_fs ]

opened_test : open_fiemap empty_env 1 (some slash_m) plain ≡ ok opened
unfolding open_fiemap open_tree open_pools open_path_map retrieve_total_entries count_entries strcmp
    open_inotify map_pool map_private grow
opened_test = refl

open_fiemap-empty_example : (index empty_env 1 opened).0 ≡ err einval
open_fiemap-empty_example =
    open_fiemap-empty empty_env 1 1 slash_m plain opened refl total_test opened_test
