-- ===== src/Xfs/DirBlock/Tests.antt =====
-- A directory block with the entry `.` and a file `a`, and an unused entry behind them.
use xallib.Prelude.{◌≡◌, refl, inr, List, [], ◌∷◌, ◌++◌, arith}
use xallib.Result.{ok}
use xallib.Pool.{make_room, take_free, claim_inodes}
use xallib.Pool.Tests.{test_kernel-ChecksMapping}
use xallib.Bytes.{Buf}
use xallib.Xfs.Dentry.{decode_dentry}
use xallib.Xfs.Dirs.Encoding.{SpellsAt-append}
use xallib.Xfs.DirBlock.{add_dentry, round_at, dblock_loop}
use xallib.Xfs.DirBlock.Adds.{Adds}
use xallib.Xfs.DirBlock.Listing.{
  DataEntry, IsEntry, IsBlock, data_bytes, children_of, dblock_loop-children,
}
use xallib.Xfs.Tests.{behind, behind-SpellsAt, test_env, test_xfs, test_xfs-IsFilling}

abbrev dot_entry : DataEntry
dot_entry = record { ino = 64; name = b'.' ∷ []; ftype = 2; tail = 0 ∷ (0 ∷ (0 ∷ (0 ∷ (64 ∷ [])))) }

abbrev file_entry : DataEntry
file_entry = record {
  ino = 131;
  name = b'a' ∷ [];
  ftype = 1;
  tail = 0 ∷ (0 ∷ (0 ∷ (0 ∷ (80 ∷ []))));
}

abbrev two_data : List DataEntry
two_data = dot_entry ∷ (file_entry ∷ [])

abbrev listed : Buf
listed = behind (λ o. 0) 64 (data_bytes two_data ++ (0xff ∷ (0xff ∷ [])))

dot_entry-IsEntry : IsEntry dot_entry
dot_entry-IsEntry = record {
  numbered = omega arith;
  small = omega arith;
  has_name = omega arith;
  aligned = refl;
  room = omega arith;
  next = omega arith;
}

file_entry-IsEntry : IsEntry file_entry
file_entry-IsEntry = record {
  numbered = omega arith;
  small = omega arith;
  has_name = omega arith;
  aligned = refl;
  room = omega arith;
  next = omega arith;
}

listed-IsBlock : IsBlock listed 4096 64 two_data
listed-IsBlock = record {
  spelled =
      (SpellsAt-append listed 64 (data_bytes two_data) (0xff ∷ (0xff ∷ []))
        (behind-SpellsAt (λ o. 0) 64 (data_bytes two_data ++ (0xff ∷ (0xff ∷ []))))).0;
  all = (dot_entry-IsEntry, (file_entry-IsEntry, tt));
  within = omega arith;
  ends = inr refl;
}

listed_test : (dblock_loop test_env 4 listed 64 0 test_xfs).0 ≡ ok tt
unfolding dblock_loop add_dentry round_at decode_dentry claim_inodes make_room take_free
listed_test = refl

dblock_loop-children_example :
    Adds 0 (children_of two_data) test_xfs (dblock_loop test_env 4 listed 64 0 test_xfs).1
dblock_loop-children_example =
    dblock_loop-children test_env test_kernel-ChecksMapping 4 listed 64 0 two_data test_xfs
      test_xfs-IsFilling listed-IsBlock (omega arith) listed_test
