-- ===== src/Xfs/FileBtree/Inline.antt =====
-- The extents that stand in a dinode, as the on-disk format has them, and what
-- `process_dinode_file_extents` of src/xal_be_xfs.c makes of them.
use xallib.Prelude.{ℕ, ◌+◌, ◌/◌, ◌%◌, ◌^◌, ◌<◌, ◌≡◌, ◌⊎◌, List, [], ◌∷◌, ◌++◌, length}
use xallib.Types.{Extent}
use xallib.Bytes.{Buf, be32, be64}
use xallib.Xfs.State.{Xfs}
use xallib.Xfs.ExtentRecord.{high_word, low_word}
use xallib.Xfs.Dirs.Encoding.{SpellsAt, bytes_64}

-- A record, before it is packed.
pub record Unpacked : Type 0 where
  pub flag : ℕ
  pub offset : ℕ
  pub block : ℕ
  pub nblocks : ℕ

-- The two words of a record, the high one first.
abbrev pub record_bytes : Unpacked → List ℕ
record_bytes r =
    bytes_64 (high_word r.flag r.offset r.block) ++ bytes_64 (low_word r.block r.nblocks)

abbrev pub records_bytes : List Unpacked → List ℕ
records_bytes [] = []
records_bytes (r ∷ rs) = record_bytes r ++ records_bytes rs

pub record HasWidths (r : Unpacked) : Type 0 where
  pub flag : r.flag < 2
  pub offset : r.offset < 2 ^ 54
  pub block : r.block < 2 ^ 52
  pub nblocks : r.nblocks < 2 ^ 21

abbrev pub AllWidths : List Unpacked → Type 0
AllWidths [] = Unit {0}
AllWidths (r ∷ rs) = HasWidths r × AllWidths rs

-- A dinode with these records: their number in its 4 bytes from 76 on, or in the 8 from 24 on where
-- those are 0, and the records from byte 176 on.
pub record IsInline (dinode : Buf) (rs : List Unpacked) : Type 0 where
  pub number :
      ((be32 dinode 76 ≡ length rs) × (0 < length rs))
      ⊎ ((be32 dinode 76 ≡ 0) × (be64 dinode 24 ≡ length rs))
  pub bytes : SpellsAt dinode 176 (records_bytes rs)
  pub widths : AllWidths rs

-- The extent of a record: `flag` is what `decode_xfs_extent` takes for it.
abbrev pub as_extent : Unpacked → Extent
as_extent r = record {
  start_offset = r.offset;
  start_block = r.block;
  nblocks = r.nblocks;
  flag = r.block / 2 ^ 42 % 2;
}

-- The elements from `at` on are the extents of the records, in their order.
abbrev pub AllExtents : List Unpacked → (memory : ℕ → Extent) → (at : ℕ) → Type 0
AllExtents [] memory at = Unit {0}
AllExtents (r ∷ rs) memory at = (memory at ≡ as_extent r) × AllExtents rs memory (at + 1)
