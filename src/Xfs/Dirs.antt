-- ===== src/Xfs/Dirs.antt =====
-- Directories in the dinode itself, and directories with their extents there.
pub mod Encoding
pub mod ShortForm
pub mod Tests
use Prim.Native.Nat.{pred}
use xallib.Prelude.{ℕ, zero, suc, ◌+◌, ◌%◌, ◌^◌, Bool, true, false, ◌&&◌, ltb, ◌==◌, if◌then◌else◌}
use xallib.Word.{mul_size, add_size, sub_size}
use xallib.Result.{Exec, ok, err, stuck, pure, ◌>>=◌, ◌>>◌}
use xallib.Types.{Sb, Extent}
use xallib.Bytes.{Buf, be32, be64}
use xallib.Xfs.State.{Env, Xfs, self_at, put_inode, put_content, claim_inode_slots}
use xallib.Xfs.ExtentRecord.{extent_of_pair}
use xallib.Xfs.Btree.{dinode_nbytes}
use xallib.Xfs.Dentry.{name_bytes}
use xallib.Xfs.DirBlock.{process_dinode_dir_extents_dblock}
use xallib.Xfs.DirBtree.{fsblk_per_dblk, process_children}
use xallib.Xfs.FileBtree.{dinode_nextents}

-- `for (size_t fsblk = 0; fsblk < extent.nblocks; fsblk += fsblk_per_dblk)` with the body
-- `process` at a block number.
pub fsblk_loop :
    (fuel : ℕ) (process : ℕ → Exec Xfs (Unit {0})) (sb : Sb)
    → Extent
    → (fsblk : ℕ) → Exec Xfs (Unit {0})
fsblk_loop zero process sb extent fsblk s = (err stuck, s)
fsblk_loop (suc fuel) process sb extent fsblk s = elim (ltb fsblk extent.nblocks) [
  | false ↦ (ok tt, s)
  | true ↦
      (process (add_size extent.start_block fsblk) >>= λ _.
      fsblk_loop fuel process sb extent (fsblk + fsblk_per_dblk sb))
        s
]

-- The extent's blocks; more fuel than blocks is enough, where a directory block is no smaller
-- than a file-system block.
pub extent_blocks : (process : ℕ → Exec Xfs (Unit {0})) → Sb → Extent → Exec Xfs (Unit {0})
extent_blocks process sb extent = fsblk_loop (suc extent.nblocks) process sb extent 0

-- The two bytes of the counts, the parent's number, and then the entries.
pub local_loop : Buf → (idx left i cursor i8count : ℕ) → Exec Xfs (Unit {0})
local_loop dinode idx zero i cursor i8count = pure tt
local_loop dinode idx (suc left) i cursor i8count = do
  let namelen = dinode cursor
  let ofz_ftype = cursor + 3 + namelen
  (λ s.
      put_inode (idx + i)
        (record (self_at s (idx + i)) {
          namelen = namelen;
          name = name_bytes dinode (cursor + 3) namelen;
          ftype = dinode ofz_ftype;
          ino = if i8count == 0 then be32 dinode (ofz_ftype + 1) else be64 dinode (ofz_ftype + 1);
        })
        s)
  local_loop dinode idx left (i + 1) (ofz_ftype + 1 + (if i8count == 0 then 4 else 8))
      (pred i8count)

-- The second loop: a child gets its parent just before it is processed.
pub local_children_loop :
    (process : ℕ → ℕ → Exec Xfs (Unit {0})) (self idx left i : ℕ) → Exec Xfs (Unit {0})
local_children_loop process self idx zero i s = (ok tt, s)
local_children_loop process self idx (suc left) i s =
    (do
      put_inode (idx + i) (record (self_at s (idx + i)) { parent_idx = self })
      process (self_at s (idx + i)).ino (idx + i)
      local_children_loop process self idx left (i + 1))
      s

module _ (env : Env) where
  -- The last value of `err`: that of a call, which is 0 here, or none if no loop made a call.
  abbrev pub last_err : (calls : ℕ) → Exec Xfs (Unit {0})
  last_err calls s = if calls == 0 then (env.unset, s) else (ok tt, s)

  pub process_dinode_dir_local :
      (process : ℕ → ℕ → Exec Xfs (Unit {0})) → Buf → (self : ℕ) → Exec Xfs (Unit {0})
  process_dinode_dir_local process dinode self s0 =
      let count = dinode dinode_nbytes in
      let i8count = dinode (dinode_nbytes + 1) in
      let entries = dinode_nbytes + 2 + (if i8count == 0 then 4 else 8) in
      (do
        put_content self (self_at s0 self).content.idx count
        idx ← claim_inode_slots env count
        put_content self idx count
        local_loop dinode idx count 0 entries i8count
        local_children_loop process self idx count 0)
        s0

  -- An `int64_t` that is positive
  abbrev pub is_positive : ℕ → Bool
  is_positive n = ltb 0 n && ltb n (2 ^ 63)

  -- `for (uint64_t i = 0; (nbytes > 0) && (i < nextents); ++i)`, with the number of blocks that
  -- were processed as result.
  pub dir_extents_loop : Buf → (self left i nbytes : ℕ) → Exec Xfs ℕ
  dir_extents_loop dinode self zero i nbytes s = (ok 0, s)
  dir_extents_loop dinode self (suc left) i nbytes s =
      let extent = extent_of_pair dinode dinode_nbytes i in
      elim (is_positive nbytes) [
        | false ↦ (ok 0, s)
        | true ↦
            (do
              extent_blocks (λ fsbno. process_dinode_dir_extents_dblock env fsbno self) s.xal.sb
                  extent
              calls ←
                  dir_extents_loop dinode self left (i + 1)
                    (sub_size nbytes (mul_size extent.nblocks s.xal.sb.blocksize))
              pure (extent.nblocks + calls))
              s
      ]

  pub process_dinode_dir_extents :
      (process : ℕ → ℕ → Exec Xfs (Unit {0})) → Buf → (self : ℕ) → Exec Xfs (Unit {0})
  process_dinode_dir_extents process dinode self s0 =
      (do
        put_content self (s0.xal.inodes.free % 2 ^ 32) (self_at s0 self).content.count
        calls ← dir_extents_loop dinode self (dinode_nextents dinode) 0 (be64 dinode 56)
        process_children process self
        (λ s. last_err (calls + (self_at s self).content.count) s))
        s0
