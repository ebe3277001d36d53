-- ===== src/Xfs/Tests.antt =====
-- The XFS backend on a small disk, each of whose blocks is a directory block with one entry.
use xallib.Prelude.{
  ℕ, zero, suc, ◌+◌, ◌-◌, ◌^◌, ◌<◌, ◌≡◌, ◌≢◌, ◌∙◌, ap, refl, true, false, none, some, List, [], ◌∷◌,
  ltb, ◌==◌, if◌then◌else◌, arith,
}
use xallib.Result.{ok, err, stuck}
use xallib.Pool.{Pool}
use xallib.Pool.Bounds.{IsValid}
use xallib.Pool.Tests.{test_kernel, test_kernel-ChecksMapping}
use xallib.Types.{Inode, Extent, xfs, blank_inode, blank_extent, ft_dir}
use xallib.Bytes.{Buf}
use xallib.Geometry.Tests.{small_sb}
use xallib.Xfs.State.{Env, Xfs}
use xallib.Xfs.ExtentRecord.{decode_xfs_extent, high_word, low_word, decode-record}
use xallib.Xfs.Btree.{
  Packs, btree_lblock_meta, btree_dinode_meta, lblock-Packs, dinode-Packs, dinode_without_fork,
}
use xallib.Xfs.Dirs.Encoding.{SpellsAt}
use xallib.Xfs.DirBlock.{dblock_loop, process_dinode_dir_extents_dblock}
use xallib.Xfs.DirBlock.Adds.{IsFilling}
use xallib.Xfs.DirBlock.Progress.{process_dinode_dir_extents_dblock-ne-stuck, dblock_loop_unused}

-- The bytes of a list, then zeros.
abbrev pub buf_of : List ℕ → Buf
buf_of [] i = 0
buf_of (b ∷ bs) zero = b
buf_of (b ∷ bs) (suc i) = buf_of bs i

-- The file `a` with inode number 131
abbrev pub test_entry : List ℕ
test_entry = 0 ∷ 0 ∷ 0 ∷ 0 ∷ 0 ∷ 0 ∷ 0 ∷ 131 ∷ 1 ∷ b'a' ∷ 1 ∷ 0 ∷ 0 ∷ 0 ∷ 0 ∷ 64 ∷ []

-- The bytes of a list behind the first `n` of a buffer.
abbrev pub behind : Buf → (n : ℕ) → List ℕ → Buf
behind front n bs o = if ltb o n then front o else buf_of bs (o - n)

list-SpellsAt :
    (buf : Buf) (o : ℕ) (bs : List ℕ) → ((i : ℕ) → buf (o + i) ≡ buf_of bs i) → SpellsAt buf o bs
list-SpellsAt buf o [] same = tt
list-SpellsAt buf o (b ∷ bs) same = (
  ap buf (omega arith) ∙ same 0,
  list-SpellsAt buf (o + 1) bs (λ i. ap buf (omega arith) ∙ same (suc i)),
)

pub behind-SpellsAt : (front : Buf) (n : ℕ) (bs : List ℕ) → SpellsAt (behind front n bs) n bs
behind-SpellsAt front n bs =
    list-SpellsAt (behind front n bs) n bs (λ i. rw (not_before i) (ap (buf_of bs) (back i)))
  where
    not_before : (i : ℕ) → ltb (n + i) n ≡ false
    not_before i = ground arith

    back : (i : ℕ) → n + i - n ≡ i
    back i = omega arith

abbrev pub test_dblock : Buf
test_dblock o =
    if ltb o 64 then buf_of (0x58 ∷ 0x44 ∷ 0x44 ∷ 0x33 ∷ []) o else buf_of test_entry (o - 64)

abbrev test_unused : Buf
test_unused o = if ltb o 66 then 0xff else buf_of test_entry (o - 80)

abbrev pub test_env : Env
test_env = record {
  device = record {
    mdts_nbytes = 131072;
    lba_nbytes = 512;
    nvm_read = λ slba nlb. some test_dblock;
  };
  kernel = test_kernel;
  calloc = λ n. none;
  kh_init = true;
  buf_alloc = some (λ o. 0);
  errno = 5;
  unset = ok tt;
  kh_put = λ t k v. some (λ j. if k == j then some v else t j);
}

-- A pool with the root directory handed out.
abbrev pub test_inodes : Pool Inode
test_inodes = record {
  reserved = 8;
  allocated = 4;
  growby = 4;
  free = 1;
  element_size = 312;
  memory = λ i. if i == 0 then record blank_inode { ino = 64; ftype = ft_dir } else blank_inode;
}

abbrev pub test_extents : Pool Extent
test_extents = record {
  reserved = 8;
  allocated = 4;
  growby = 4;
  free = 0;
  element_size = 25;
  memory = λ i. blank_extent;
}

abbrev pub test_xfs : Xfs
test_xfs = record {
  xal = record {
    inodes = test_inodes;
    extents = test_extents;
    root_idx = 0;
    sb = small_sb;
    backend = xfs;
    dirty = false;
    seq_lock = 0;
    shared_view = false;
  };
  buf = λ o. 0;
  retrieved = false;
  dinodes_map = λ k. none;
  ags = [];
}

pub test_inodes-IsValid : IsValid blank_inode test_inodes
test_inodes-IsValid = record {
  sized = omega arith;
  small = omega arith;
  step = omega arith;
  used = omega arith;
  mapped = omega arith;
  zeroed = λ i lo hi. ground arith;
}

pub test_extents-IsValid : IsValid blank_extent test_extents
test_extents-IsValid = record {
  sized = omega arith;
  small = omega arith;
  step = omega arith;
  used = omega arith;
  mapped = omega arith;
  zeroed = λ i lo hi. refl;
}

pub test_xfs-IsFilling : IsFilling 0 test_xfs
test_xfs-IsFilling = record {
  valid = test_inodes-IsValid;
  owned = omega arith;
  counts = omega arith;
}

decode-record_example :
    decode_xfs_extent (high_word 1 7 (2 ^ 42)) (low_word (2 ^ 42) 3)
    ≡ record { start_offset = 7; start_block = 2 ^ 42; nblocks = 3; flag = 1 }
decode-record_example =
    decode-record 1 7 (2 ^ 42) 3 (omega arith) (omega arith) (omega arith) (omega arith)

lblock-Packs_example : Packs 8 8 4096 (btree_lblock_meta 4096)
lblock-Packs_example = lblock-Packs 4096 (omega arith) (omega arith)

dinode-Packs_example : Packs 8 8 368 (btree_dinode_meta 512 24)
dinode-Packs_example = dinode-Packs 512 24 (omega arith) (omega arith) (omega arith)

dinode_without_fork_example : 512 + 2 ^ 62 < (btree_dinode_meta 512 0).pointers
dinode_without_fork_example = dinode_without_fork 512 (omega arith) (omega arith)

process_dblock-ne-stuck_example :
    (process_dinode_dir_extents_dblock test_env 4 0 test_xfs).0 ≢ err stuck
process_dblock-ne-stuck_example =
    process_dinode_dir_extents_dblock-ne-stuck test_env test_kernel-ChecksMapping 4 0 test_xfs

dblock_loop_unused_example : dblock_loop test_env 9 test_unused 64 0 test_xfs ≡ (ok tt, test_xfs)
dblock_loop_unused_example = dblock_loop_unused test_env 8 test_unused 64 0 test_xfs refl
