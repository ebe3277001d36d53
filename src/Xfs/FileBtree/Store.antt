-- ===== src/Xfs/FileBtree/Store.antt =====
-- The stores of decoded extents into claimed elements.
use xallib.Prelude.{ℕ, zero, suc, ◌+◌, ◌≡◌, refl}
use xallib.Result.{ok}
use xallib.Bytes.{Buf}
use xallib.Extents.Fill.{filled}
use xallib.Xfs.State.{Xfs, with_extents}
use xallib.Xfs.ExtentRecord.{extent_of_pair}
use xallib.Xfs.FileBtree.{store_loop}

pub store_loop_lem :
    (buf : Buf) (ofz extent_start left rec : ℕ) (s : Xfs)
    → store_loop buf ofz extent_start left rec s ≡ (
      ok tt,
      with_extents s (record s.xal.extents {
        memory = filled (extent_of_pair buf ofz) extent_start left rec s.xal.extents.memory;
      }),
    )
unfolding store_loop filled
store_loop_lem buf ofz extent_start zero rec s = refl
store_loop_lem buf ofz extent_start (suc left) rec s =
    store_loop_lem buf ofz extent_start left (rec + 1) _
