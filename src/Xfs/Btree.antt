-- ===== src/Xfs/Btree.antt =====
-- `btree_dinode_meta`, `btree_lblock_meta` and `btree_sblock_meta`: where the keys and the pointers
-- of a B+tree node stand. The sizes are `size_t`s.
use xallib.Prelude.{ℕ, ◌+◌, ◌*◌, ◌/◌, ◌^◌, ◌≤◌, ◌<◌, arith}
use xallib.Word.{mul_size, add_size, sub_size}

-- What a call stores behind `maxrecs`, `keys` and `pointers`.
pub record Meta : Type 0 where
  pub maxrecs : ℕ
  pub keys : ℕ
  pub pointers : ℕ

-- `sizeof` the structures of include/xal_odf.h
abbrev pub dinode_nbytes : ℕ
dinode_nbytes = 176

abbrev pub lfmt_nbytes : ℕ
lfmt_nbytes = 72

abbrev pub sfmt_nbytes : ℕ
sfmt_nbytes = 56

unfoldable pub btree_dinode_meta : (inodesize di_forkoff : ℕ) → Meta
btree_dinode_meta inodesize di_forkoff =
    let attr_ofz = dinode_nbytes + di_forkoff * 8 in
    let attr_nbytes = sub_size inodesize attr_ofz in
    let data_nbytes = sub_size (sub_size inodesize dinode_nbytes) attr_nbytes in
    let mrecs = sub_size data_nbytes 4 / 16 in
    record {
      maxrecs = mrecs;
      keys = dinode_nbytes + 2 + 2;
      pointers = add_size (dinode_nbytes + 2 + 2) (mul_size mrecs 8);
    }

pub btree_lblock_meta : (blocksize : ℕ) → Meta
btree_lblock_meta blocksize =
    let mrecs = sub_size blocksize lfmt_nbytes / 16 in
    record {
      maxrecs = mrecs;
      keys = lfmt_nbytes;
      pointers = add_size lfmt_nbytes (mul_size mrecs 8);
    }

pub btree_sblock_meta : (blocksize : ℕ) → Meta
btree_sblock_meta blocksize =
    let mrecs = sub_size blocksize sfmt_nbytes / 8 in
    record {
      maxrecs = mrecs;
      keys = sfmt_nbytes;
      pointers = add_size sfmt_nbytes (mul_size mrecs 4);
    }

-- `maxrecs` keys of `key` bytes and as many pointers of `ptr` bytes fit before `limit`, and one
-- more of each would not.
abbrev pub Packs : ℕ → ℕ → ℕ → Meta → Type 0
Packs key ptr limit m =
    (m.keys + m.maxrecs * key ≤ m.pointers)
    × (m.pointers + m.maxrecs * ptr ≤ limit)
    × (limit < m.keys + (m.maxrecs + 1) * (key + ptr))

-- In a long-format block of at least 72 bytes, and less than 2^32, the keys and pointers fit
-- behind the header without overlap, and one more of each would not.
pub lblock-Packs :
    (blocksize : ℕ)
    → 72 ≤ blocksize
    → blocksize < 2 ^ 32
    → Packs 8 8 blocksize (btree_lblock_meta blocksize)
unfolding btree_lblock_meta
lblock-Packs b h k = omega arith

-- In a short-format block of at least 56 bytes, and less than 2^32, the keys and pointers fit
-- behind the header without overlap, and one more of each would not.
pub sblock-Packs :
    (blocksize : ℕ)
    → 56 ≤ blocksize
    → blocksize < 2 ^ 32
    → Packs 4 4 blocksize (btree_sblock_meta blocksize)
unfolding btree_sblock_meta
sblock-Packs b h k = omega arith

-- In a dinode of less than 2^16 bytes with an attribute fork that starts inside it the keys and
-- pointers of the B+tree root fit the data fork without overlap, and one more of each would not.
pub dinode-Packs :
    (inodesize di_forkoff : ℕ)
    → 0 < di_forkoff
    → dinode_nbytes + di_forkoff * 8 ≤ inodesize
    → inodesize < 2 ^ 16
    → Packs 8 8 (dinode_nbytes + di_forkoff * 8) (btree_dinode_meta inodesize di_forkoff)
unfolding btree_dinode_meta
dinode-Packs n f p h k = omega arith

-- In a dinode of 176 bytes at least, and less than 2^16, without an attribute fork the pointers
-- of the B+tree root are looked for more than 2^62 bytes behind its end.
pub dinode_without_fork :
    (inodesize : ℕ)
    → dinode_nbytes ≤ inodesize
    → inodesize < 2 ^ 16
    → inodesize + 2 ^ 62 < (btree_dinode_meta inodesize 0).pointers
unfolding btree_dinode_meta
dinode_without_fork n h k = omega arith
