-- ===== src/Convert/Tests.antt =====
-- One extent in both units, on the file system of `Geometry.Tests`.
use xallib.Prelude.{◌≡◌, refl, some, arith}
use xallib.Result.{ok}
use xallib.Types.{Extent, xfs}
use xallib.Geometry.{fsbno_offset}
use xallib.Geometry.Tests.{small_sb}
use xallib.Convert.{
  extent_in_bytes, extent_in_lba, Converted, Scaled, InRange, bytes, lba, in_lba-in_bytes,
}

abbrev test_extent : Extent
test_extent = record { start_offset = 3; start_block = 17; nblocks = 2; flag = 0 }

abbrev test_in_bytes : Converted
test_in_bytes = record { start_offset = 12288; start_block = 53248; size = 8192; unit = bytes }

abbrev test_in_lba : Converted
test_in_lba = record { start_offset = 24; start_block = 104; size = 16; unit = lba }

test_extent-InRange : InRange xfs small_sb test_extent
unfolding fsbno_offset
test_extent-InRange = record { at = 13; block = refl; offset = omega arith; size = omega arith }

extent_in_bytes-test : extent_in_bytes xfs small_sb (some test_extent) ≡ ok test_in_bytes
unfolding extent_in_bytes fsbno_offset
extent_in_bytes-test = refl

extent_in_lba-test : extent_in_lba xfs small_sb (some test_extent) ≡ ok test_in_lba
unfolding extent_in_lba fsbno_offset
extent_in_lba-test = refl

in_lba-in_bytes_example : Scaled 512 test_in_bytes test_in_lba
in_lba-in_bytes_example =
    in_lba-in_bytes xfs small_sb test_extent 8 (omega arith) refl test_extent-InRange
      extent_in_bytes-test extent_in_lba-test
