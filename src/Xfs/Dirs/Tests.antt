-- ===== src/Xfs/Dirs/Tests.antt =====
-- A directory in short form with two entries.
use xallib.Prelude.{ℕ, ◌≡◌, refl, ap, false, List, [], ◌∷◌, arith}
use xallib.Result.{Exec, Result, ok, pure}
use xallib.Pool.{make_room, take_free, claim_inodes}
use xallib.Bytes.{Buf}
use xallib.Xfs.State.{Xfs, put_content, claim_inode_slots}
use xallib.Xfs.Dirs.{process_dinode_dir_local}
use xallib.Xfs.Dirs.Encoding.{ShortEntry, dir_bytes}
use xallib.Xfs.Dirs.ShortForm.{Lists, process_dinode_dir_local-Lists}
use xallib.Xfs.Tests.{behind, behind-SpellsAt, test_env, test_xfs}

abbrev two_entries : List ShortEntry
two_entries =
    record { name = b'a' ∷ []; tag = (0, 96); ftype = 1; ino = 131 }
    ∷ (record { name = b'b' ∷ (b'c' ∷ []); tag = (0, 112); ftype = 2; ino = 70000 } ∷ [])

abbrev short_dinode : Buf
short_dinode = behind (λ o. 0) 176 (dir_bytes false 0 64 two_entries)

abbrev no_process : ℕ → ℕ → Exec Xfs (Unit {0})
no_process ino self = pure tt

abbrev claim_two : Result ℕ × Xfs
claim_two = claim_inode_slots test_env 2 (put_content 0 0 2 test_xfs).1

claim_two_test : claim_two.0 ≡ ok 1
unfolding claim_inodes make_room take_free
claim_two_test = refl

process_dinode_dir_local-Lists_example :
    Lists no_process 0 1 two_entries claim_two.1
      (process_dinode_dir_local test_env no_process short_dinode 0 test_xfs)
process_dinode_dir_local-Lists_example =
    process_dinode_dir_local-Lists test_env no_process false short_dinode 0 0 64 1 two_entries
      test_xfs claim_two.1 (behind-SpellsAt (λ o. 0) 176 (dir_bytes false 0 64 two_entries))
      (omega arith, (omega arith, tt)) refl refl (ap (λ r. (r, claim_two.1)) claim_two_test)
