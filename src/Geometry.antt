-- ===== src/Geometry.antt =====
-- Where things lie on the disk: `xal_fsbno_offset` of src/xal.c and the inode numbers of
-- src/xal_be_xfs.c. Shifts and masks are written as division, remainder and multiplication.
pub mod Blocks
pub mod Inodes
pub mod Tests
use xallib.Prelude.{ℕ, ◌+◌, ◌-◌, ◌%◌, ◌^◌}
use xallib.Word.{mul_size, add_size, size_mod, shr, low_bits}
use xallib.Types.{Sb, Backend, unset, xfs, fiemap}

-- The block number of an allocation group `agno`, as a byte offset.
pub agbno_absolute_offset : Sb → ℕ → ℕ → ℕ
agbno_absolute_offset sb seqno agbno =
    mul_size (add_size (mul_size seqno sb.agblocks) agbno) sb.blocksize

-- -EINVAL, as the `uint64_t` that it is returned as
abbrev pub einval_u64 : ℕ
einval_u64 = size_mod - 22

-- `fsbno & ((1 << agblklog) - 1)`. The 1 is an `int`: from 31 on the shift is undefined in C, and
-- on x86 its count is taken modulo 32.
abbrev pub bno_bits : ℕ → ℕ
bno_bits agblklog = agblklog % 32

unfoldable pub fsbno_offset : Backend → Sb → ℕ → ℕ
fsbno_offset fiemap sb fsbno = mul_size fsbno sb.blocksize
fsbno_offset xfs sb fsbno =
    let ag = shr fsbno sb.agblklog in
    let bno = low_bits fsbno (bno_bits sb.agblklog) in
    mul_size (add_size (mul_size ag sb.agblocks) bno) sb.blocksize
fsbno_offset unset sb fsbno = einval_u64

pub ino_abs_to_rel : Sb → ℕ → ℕ
ino_abs_to_rel sb inoabs = low_bits inoabs (sb.agblklog + sb.inopblog) % 2 ^ 32

-- The pair is `*agbno` and `*agbino`; `ino` is a `uint32_t`.
pub ino_decode_relative : Sb → ℕ → ℕ × ℕ
ino_decode_relative sb ino = (low_bits (shr ino sb.inopblog) sb.agblklog, low_bits ino sb.inopblog)

-- `*seqno`, a `uint32_t`, and what `ino_decode_relative` gives for the number cut to 32 bits.
pub ino_decode_absolute : Sb → ℕ → ℕ × ℕ × ℕ
ino_decode_absolute sb ino =
    let (agbno, agbino) = ino_decode_relative sb (ino % 2 ^ 32) in
    (shr ino (sb.inopblog + sb.agblklog) % 2 ^ 32, agbno, agbino)

pub ino_decode_absolute_offset : Sb → ℕ → ℕ
ino_decode_absolute_offset sb ino =
    let (seqno, agbno, agbino) = ino_decode_absolute sb ino in
    add_size (mul_size (add_size (mul_size seqno sb.agblocks) agbno) sb.blocksize)
      (mul_size agbino sb.inodesize)
