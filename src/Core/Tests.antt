-- ===== src/Core/Tests.antt =====
-- A view of the file system of `Fiemap.Tests`.
use xallib.Prelude.{◌≡◌, refl, true, false, some, inr, [], ◌∷◌}
use xallib.Result.{ok}
use xallib.Fiemap.Tests.{test_env, small_fs, slash_m}
use xallib.Fiemap.Open.{fiemap_sb}
use xallib.Core.{Env, from_pools}
use xallib.Core.Views.{Serves, view_handle, from_pools-Serves}

abbrev pub core_env : Env
core_env = record {
  xfs_env = xallib.Xfs.Tests.test_env;
  fiemap_env = test_env;
  uri = some (b'd' ∷ []);
  mounts = inr ((b'd' ∷ [], slash_m) ∷ []);
  get_ns = inr (record { flbas_format = 0; flbas_format_msb = 0; nlbaf = 0; lbaf = λ i. 9 });
  calloc = true;
  strdup = true;
}

view_test :
    from_pools core_env
      (fiemap_sb 4096 7)
      (some slash_m)
      small_fs.xal.inodes.memory
      small_fs.xal.extents.memory
      (some false)
    ≡ ok (view_handle core_env small_fs (fiemap_sb 4096 7) false)
unfolding from_pools
view_test = refl

from_pools-Serves_example :
    Serves core_env small_fs
      (fiemap_sb 4096 7)
      false
      (view_handle core_env small_fs (fiemap_sb 4096 7) false)
from_pools-Serves_example =
    from_pools-Serves core_env small_fs (fiemap_sb 4096 7) false
      (view_handle core_env small_fs (fiemap_sb 4096 7) false) refl refl refl view_test
