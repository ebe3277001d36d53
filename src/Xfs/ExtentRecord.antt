-- ===== src/Xfs/ExtentRecord.antt =====
-- `decode_xfs_extent`: the packed extent record.
use xallib.Prelude.{ℕ, ◌+◌, ◌*◌, ◌/◌, ◌%◌, ◌^◌, ◌<◌, ◌≡◌, arith}
use xallib.Word.{shr, shl, low_bits}
use xallib.Types.{Extent}
use xallib.Bytes.{Buf, be64}

-- `|` joins bits that do not overlap: `l1 >> 21` has 43 bits.
pub decode_xfs_extent : ℕ → ℕ → Extent
decode_xfs_extent l0 l1 = record {
  start_offset = shr (shl l0 1) 10;
  start_block = shl (low_bits l0 9) 43 + shr l1 21;
  nblocks = low_bits l1 21;
  flag = shr l1 63;
}

-- `struct pair_u64`, the `rec`-th of an array at `ofz`, in host order, and decoded.
unfoldable pub extent_of_pair : Buf → ℕ → ℕ → Extent
extent_of_pair buf ofz rec =
    decode_xfs_extent (be64 buf (ofz + rec * 16)) (be64 buf (ofz + rec * 16 + 8))

-- The record of the on-disk format: from the top, 1 bit of flag, 54 bits of file offset, 52 bits of
-- start block and 21 bits of length.
abbrev pub high_word : ℕ → ℕ → ℕ → ℕ
high_word flag offset block = flag * 2 ^ 63 + offset * 2 ^ 9 + block / 2 ^ 43

abbrev pub low_word : ℕ → ℕ → ℕ
low_word block nblocks = block % 2 ^ 43 * 2 ^ 21 + nblocks

-- Decoding a packed extent record gives back its file offset, start block and length, whatever
-- its flag is; the field flag is then bit 42 of the start block.
pub decode-record :
    (flag offset block nblocks : ℕ)
    → flag < 2
    → offset < 2 ^ 54
    → block < 2 ^ 52
    → nblocks < 2 ^ 21
    → decode_xfs_extent (high_word flag offset block) (low_word block nblocks) ≡ record {
      start_offset = offset;
      start_block = block;
      nblocks = nblocks;
      flag = block / 2 ^ 42 % 2;
    }
unfolding decode_xfs_extent
decode-record flag offset block nblocks hf ho hb hn = ground arith
