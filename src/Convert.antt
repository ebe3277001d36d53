-- ===== src/Convert.antt =====
-- `xal_extent_in_bytes` and `xal_extent_in_lba` of src/xal.c. A `lba_blksze` of 0 is a fault of the
-- processor there; here the quotient is then 0.
pub mod Tests
use xallib.Prelude.{ℕ, ◌*◌, ◌/◌, ◌<◌, ◌≡◌, ap, Option, none, some, arith}
use native.Mathlib.Nat.{mul_assoc}
use xallib.Word.{mul_size, size_mod, mul_size_exact, mul-div_cancel}
use xallib.Result.{einval, Result, ok, err}
use xallib.Types.{Extent, Sb, Backend}
use xallib.Geometry.{fsbno_offset}

-- `enum xal_extent_unit`
pub data ExtentUnit : Type 0 where
  bytes lba : ExtentUnit

-- `struct xal_extent_converted`
pub record Converted : Type 0 where
  pub start_offset : ℕ
  pub start_block : ℕ
  pub size : ℕ
  pub unit : ExtentUnit

pub extent_in_bytes : Backend → Sb → Option Extent → Result Converted
extent_in_bytes be sb none = err einval
extent_in_bytes be sb (some extent) = ok (record {
  start_offset = mul_size extent.start_offset sb.blocksize;
  start_block = fsbno_offset be sb extent.start_block;
  size = mul_size extent.nblocks sb.blocksize;
  unit = bytes;
})

pub extent_in_lba : Backend → Sb → Option Extent → Result Converted
extent_in_lba be sb none = err einval
extent_in_lba be sb (some extent) = ok (record {
  start_offset = mul_size extent.start_offset sb.blocksize / sb.lba_blksze;
  start_block = fsbno_offset be sb extent.start_block / sb.lba_blksze;
  size = mul_size extent.nblocks sb.blocksize / sb.lba_blksze;
  unit = lba;
})

-- `l` is `b` in units of the block size.
pub record Scaled (lba_blksze : ℕ) (b l : Converted) : Type 0 where
  pub offset : l.start_offset * lba_blksze ≡ b.start_offset
  pub block : l.start_block * lba_blksze ≡ b.start_block
  pub size : l.size * lba_blksze ≡ b.size

-- The extent's first byte in the file and its length have 64-bit numbers, and its offset on the
-- disk is the number `at` of a block (see `Geometry.Blocks`).
pub record InRange (be : Backend) (sb : Sb) (e : Extent) : Type 0 where
  pub at : ℕ
  pub block : fsbno_offset be sb e.start_block ≡ at * sb.blocksize
  pub offset : e.start_offset * sb.blocksize < size_mod
  pub size : e.nblocks * sb.blocksize < size_mod

scale : (n q l : ℕ) → 0 < l → n * (q * l) / l * l ≡ n * (q * l)
scale n q l h = rw (← mul_assoc n q l) (ap (λ k. k * l) (mul-div_cancel (n * q) l h))

scaled : (m n b q l : ℕ) → 0 < l → b ≡ q * l → m ≡ n * b → m / l * l ≡ m
scaled m n b q l h e f = rw (f, e) (scale n q l h)

-- Where a file-system block is a whole number of device blocks, the extent starts at a whole
-- number of file-system blocks on the disk, and its offset and length in bytes fit 64 bits, the
-- extent in LBAs is the extent in bytes divided by the block size, with no remainder.
pub in_lba-in_bytes :
    (be : Backend) (sb : Sb) (e : Extent) (q : ℕ) {b l : Converted}
    → 0 < sb.lba_blksze
    → sb.blocksize ≡ q * sb.lba_blksze
    → InRange be sb e
    → extent_in_bytes be sb (some e) ≡ ok b
    → extent_in_lba be sb (some e) ≡ ok l
    → Scaled sb.lba_blksze b l
unfolding extent_in_bytes extent_in_lba
in_lba-in_bytes be sb e q p s r hb hl =
    let u = sb.lba_blksze in
    let offset =
      scaled (mul_size e.start_offset sb.blocksize) e.start_offset sb.blocksize q u p s
        (mul_size_exact _ _ r.offset) in
    let block = scaled (fsbno_offset be sb e.start_block) r.at sb.blocksize q u p s r.block in
    let size =
      scaled (mul_size e.nblocks sb.blocksize) e.nblocks sb.blocksize q u p s
        (mul_size_exact _ _ r.size) in
    record { offset = ground arith; block = ground arith; size = ground arith }
