-- ===== src/Geometry/Tests.antt =====
-- The geometry of a small file system: two groups of 12 blocks of 4096 bytes, with 4 bits of block
-- number and 8 inodes a block.
use xallib.Prelude.{◌+◌, ◌≤◌, ◌≡◌, refl, arith}
use xallib.Types.{Sb, unset, xfs, fiemap}
use xallib.Geometry.{
  fsbno_offset, agbno_absolute_offset, ino_decode_relative, ino_decode_absolute,
  ino_decode_absolute_offset, ino_abs_to_rel, einval_u64,
}
use xallib.Geometry.Blocks.{Fits, fsbno_of, fsbno_offset-agbno, fsbno_offset_disjoint}
use xallib.Geometry.Inodes.{
  decode_relative-relative_of, decode_absolute-absolute_of, relative_of, absolute_of,
}

abbrev pub small_sb : Sb
small_sb = record {
  blocksize = 4096;
  sectsize = 512;
  inodesize = 512;
  inopblock = 8;
  inopblog = 3;
  icount = 128;
  nallocated = 128;
  rootino = 64;
  agblocks = 12;
  agblklog = 4;
  agcount = 2;
  dirblocksize = 4096;
  lba_blksze = 512;
}

-- The second group starts at block 16 by number, at the thirteenth block on the disk.
fsbno_offset-backends :
    (fsbno_offset xfs small_sb 16 ≡ 49152)
    × (fsbno_offset fiemap small_sb 16 ≡ 65536)
    × (fsbno_offset unset small_sb 16 ≡ einval_u64)
unfolding fsbno_offset
fsbno_offset-backends = (refl, refl, refl)

-- Inode 8 * 16 + 5 * 8 + 2 is slot 2 of block 5 of group 1.
decode_absolute-170 :
    (ino_decode_absolute small_sb 170 ≡ (1, 5, 2))
    × (ino_decode_absolute_offset small_sb 170 ≡ 70656)
    × (ino_abs_to_rel small_sb 170 ≡ 42)
unfolding ino_decode_absolute ino_decode_relative ino_decode_absolute_offset ino_abs_to_rel
decode_absolute-170 = (refl, refl, refl)

small_sb-Fits : Fits small_sb
small_sb-Fits = record {
  block = omega arith;
  bits = omega arith;
  ag = omega arith;
  disk = omega arith;
}

fsbno_offset-agbno_example :
    fsbno_offset xfs small_sb (fsbno_of small_sb 1 3) ≡ agbno_absolute_offset small_sb 1 3
fsbno_offset-agbno_example = fsbno_offset-agbno small_sb 1 3 (omega arith) (omega arith)

fsbno_offset_disjoint_example :
    fsbno_offset xfs small_sb (fsbno_of small_sb 0 11) + 4096
    ≤ fsbno_offset xfs small_sb (fsbno_of small_sb 1 0)
fsbno_offset_disjoint_example =
    fsbno_offset_disjoint small_sb 0 11 1 0 small_sb-Fits (omega arith) (omega arith) (omega arith)
      (omega arith) (omega arith)

decode_relative_example : ino_decode_relative small_sb (relative_of small_sb 5 2) ≡ (5, 2)
decode_relative_example = decode_relative-relative_of small_sb 5 2 (omega arith) (omega arith)

decode_absolute_example : ino_decode_absolute small_sb (absolute_of small_sb 1 5 2) ≡ (1, 5, 2)
decode_absolute_example =
    decode_absolute-absolute_of small_sb (omega arith) 1 5 2 (omega arith) (omega arith)
      (omega arith)
