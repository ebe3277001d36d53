-- ===== src/Xfs/FileBtree/Tests.antt =====
-- Files on the disk of `Xfs.Tests`: one with two extents in the dinode, one with a B+tree root.
use xallib.Prelude.{◌^◌, List, ◌≡◌, refl, some, [], ◌∷◌, if◌then◌else◌, ◌==◌, arith}
use xallib.Result.{ok}
use xallib.Pool.{claim_extents, make_room, take_free}
use xallib.Pool.Tests.{test_kernel-ChecksMapping}
use xallib.Bytes.{Buf}
use xallib.Geometry.{fsbno_offset}
use xallib.Xfs.State.{Env}
use xallib.Xfs.Device.{dev_read}
use xallib.Xfs.FileBtree.{
  process_dinode_file_btree_root, process_file_btree_leaf, pointers_loop, store_loop,
}
use xallib.Xfs.Btree.{btree_dinode_meta}
use xallib.Extents.Held.{IsReady, Holds}
use xallib.Xfs.FileBtree.Files.{file_btree_root-Holds}
use xallib.Xfs.FileBtree.Inline.{Unpacked, records_bytes}
use xallib.Xfs.Tests.{test_env, test_xfs, test_extents-IsValid, buf_of, behind}

abbrev two_records : List Unpacked
two_records =
    record { flag = 0; offset = 0; block = 7; nblocks = 2 }
    ∷ (record { flag = 1; offset = 2; block = 2 ^ 42; nblocks = 3 } ∷ [])

-- The records from byte 176 on, and `di_nextents` at byte 76.
abbrev test_inline : Buf
test_inline = behind (λ o. if o == 79 then 2 else 0) 176 (records_bytes two_records)

-- A root of level 1 with one pointer, and an attribute fork.
abbrev test_root : Buf
test_root o = if o == 177 then 1 else if o == 179 then 1 else if o == 82 then 24 else 0

-- Every block is a leaf with one record.
abbrev test_leaf : Buf
test_leaf = buf_of (0x42 ∷ 0x4d ∷ 0x41 ∷ 0x33 ∷ 0 ∷ 0 ∷ 0 ∷ 1 ∷ [])

abbrev leaf_env : Env
leaf_env = record test_env {
  device = record { mdts_nbytes = 131072; lba_nbytes = 512; nvm_read = λ slba nlb. some test_leaf };
}

test_xfs-IsReady : IsReady 0 test_xfs.xal
test_xfs-IsReady = record {
  valid = test_extents-IsValid;
  small = omega arith;
  counts = omega arith;
}

file_btree_root-test : (process_dinode_file_btree_root leaf_env 1 test_root 0 test_xfs).0 ≡ ok tt
unfolding process_dinode_file_btree_root process_file_btree_leaf pointers_loop store_loop
    claim_extents make_room take_free dev_read fsbno_offset btree_dinode_meta
file_btree_root-test = refl

file_btree_root-Holds_example :
    Holds 0 test_xfs.xal (process_dinode_file_btree_root leaf_env 1 test_root 0 test_xfs).1.xal
file_btree_root-Holds_example =
    file_btree_root-Holds leaf_env test_kernel-ChecksMapping 1 test_root 0 test_xfs test_xfs-IsReady
      file_btree_root-test
