-- ===== src/Xfs/Open/Tests.antt =====
-- A disk with one allocation group, that has 64 inodes.
use xallib.Prelude.{ℕ, ◌+◌, ◌≡◌, refl, none, some, ◌==◌, if◌then◌else◌}
use xallib.Result.{ok}
use xallib.Pool.{map_pool, map_private, grow}
use xallib.Pool.Tests.{test_kernel-ChecksMapping}
use xallib.Bytes.{Buf}
use xallib.Xfs.State.{Env, Xfs}
use xallib.Xfs.Device.{dev_read}
use xallib.Xfs.Open.{
  open_headers, map_pools, xfs_open, ag_loop, retrieve_and_decode_allocation_group, decode_ag,
  is_ag_header, superblock, candidate, blank_sb,
}
use xallib.Xfs.Open.Opened.{IsOpened, HasSuperblock, xfs_open-IsOpened}
use xallib.Xfs.Tests.{test_env}

abbrev magic_at : ℕ → ℕ → Buf → Buf
magic_at first last rest o =
    if o == first
    then 0x58
    else if o == first + 1
    then 0x41
    else if o == first + 2
    then 0x47
    else if o == first + 3
    then last
    else rest o

-- The superblock with blocks of 4096 bytes, sectors of 512 and one group, and the group's headers.
abbrev test_headers : Buf
test_headers = magic_at 512 0x46 (
    magic_at 1024 0x49 (λ o.
      if o == 6
      then 0x10
      else if o == 91
      then 1
      else if o == 102
      then 2
      else if o == 1043
      then 64
      else 0))

abbrev open_env : Env
open_env = record test_env {
  device = record {
    mdts_nbytes = 131072;
    lba_nbytes = 512;
    nvm_read = λ slba nlb. some test_headers;
  };
}

abbrev read_superblock : Buf
read_superblock = (dev_read open_env 4096 0 (candidate (λ o. 0) blank_sb)).1.buf

abbrev opened : Xfs
opened = (open_headers open_env none (candidate read_superblock (superblock read_superblock))).1

xfs_open-opened : xfs_open open_env none ≡ ok (some opened)
unfolding xfs_open superblock open_headers map_pools ag_loop retrieve_and_decode_allocation_group
    is_ag_header decode_ag dev_read map_pool map_private grow
xfs_open-opened = refl

xfs_open-IsOpened_example :
    IsOpened open_env test_kernel-ChecksMapping (HasSuperblock open_env) opened
xfs_open-IsOpened_example =
    xfs_open-IsOpened open_env test_kernel-ChecksMapping none xfs_open-opened
