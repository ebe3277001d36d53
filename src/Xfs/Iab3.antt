-- ===== src/Xfs/Iab3.antt =====
-- The inode-allocation B+tree: from `read_iab3_block` to `xal_dinodes_retrieve`. Fields that the
-- source converts in place are read as big-endian where they are used.
pub mod Chunk
pub mod Holes
pub mod Tests
use xallib.Prelude.{
  ℕ, zero, suc, ◌+◌, ◌*◌, ◌/◌, ◌%◌, ◌^◌, Bool, true, false, not, ◌&&◌, ◌||◌, Option, none, some,
  List, [], ◌∷◌, ltb, leb, ◌==◌, if◌then◌else◌,
}
use xallib.Word.{mul_size, add_size, sub_size}
use xallib.Result.{
  Exec, ok, err, einval, eio, os, assertion, overrun, stuck, pure, raise, ◌>>=◌, ◌>>◌,
}
use xallib.Types.{Sb, xfs, fiemap, unset}
use xallib.Bytes.{Buf, be16, be32, be64}
use xallib.Geometry.{agbno_absolute_offset, ino_decode_relative}
use xallib.Xfs.State.{Env, Xfs, Ag, Table}
use xallib.Xfs.Device.{dev_read, dev_read_into, overlay, zeros}
use xallib.Xfs.Btree.{btree_sblock_meta, sfmt_nbytes}

-- XAL_ODF_IBT_CRC_MAGIC, CHUNK_NINO, BUF_NBYTES and ODF_BLOCK_FS_BYTES_MAX
abbrev pub ibt_crc_magic : ℕ
ibt_crc_magic = 0x49414233

abbrev pub chunk_nino : ℕ
chunk_nino = 64

abbrev pub buf_nbytes : ℕ
buf_nbytes = 4096 * 32

-- `struct xal_odf_inobt_rec`, in host order
pub record InobtRec : Type 0 where
  pub startino : ℕ
  pub holemask : ℕ
  pub count : ℕ
  pub freecount : ℕ
  pub free : ℕ

pub inobt_rec : Buf → ℕ → InobtRec
inobt_rec buf reci =
    let o = sfmt_nbytes + reci * 16 in
    record {
      startino = be32 buf o;
      holemask = be16 buf (o + 4);
      count = buf (o + 6);
      freecount = buf (o + 7);
      free = be64 buf (o + 8);
    }

-- `(rec->holemask & (1ULL << chunk_index)) >> chunk_index`, and so for `free`. From 64 on the shift
-- is undefined in C, and on x86 its count is taken modulo 64.
pub bit_at : ℕ → ℕ → ℕ
bit_at mask chunk_index = mask / 2 ^ (chunk_index % 64) % 2

-- `if (is_unused || is_free) continue;`
pub is_skipped : InobtRec → ℕ → Bool
is_skipped rec chunk_index =
    not (bit_at rec.holemask chunk_index == 0) || not (bit_at rec.free chunk_index == 0)

-- The dinode of a slot of the chunk, as it is copied to `be->dinodes`.
pub slot_dinode : Sb → Buf → ℕ → Buf
slot_dinode sb chunk chunk_index o =
    if ltb o sb.inodesize then chunk (chunk_index * sb.inodesize + o) else 0

-- Whether `be->dinodes[*index * inodesize]` is a dinode within what calloc() was asked for.
pub has_dinode : Sb → ℕ → Bool
has_dinode sb index = leb ((index + 1) * sb.inodesize) (mul_size sb.nallocated sb.inodesize)

-- The key of a dinode: its inode number.
abbrev pub dinode_ino : Buf → ℕ
dinode_ino dinode = be64 dinode 152

-- What a table insertion leaves: -EIO, or the new table.
abbrev pub put_dinode : Option (Table Buf) → Exec Xfs (Unit {0})
put_dinode none s = (err eio, s)
put_dinode (some t) s = (ok tt, record s { dinodes_map = t })

-- The pointers of a node, copied to a zeroed array.
pub node_pointer : Sb → Buf → ℕ → ℕ
node_pointer sb block rec =
    let pointers_ofz = (btree_sblock_meta sb.blocksize).pointers in
    be32 (λ o. if ltb o (sub_size sb.blocksize pointers_ofz) then block (pointers_ofz + o) else 0)
      (rec * 4)

-- `decode_iab3_node_records`; `retrieve` is `retrieve_dinodes_via_iab3` at a block.
pub node_loop : (ℕ → ℕ → Exec Xfs ℕ) → Sb → Buf → (left rec index : ℕ) → Exec Xfs ℕ
node_loop retrieve sb block zero rec index = pure index
node_loop retrieve sb block (suc left) rec index =
    retrieve (node_pointer sb block rec) index >>= λ index'.
    node_loop retrieve sb block left (rec + 1) index'

module _ (env : Env) where
  pub read_iab3_block : Ag → (blkno : ℕ) → Exec Xfs Buf
  read_iab3_block ag blkno s0 =
      (do
        block ←
            dev_read_into env s0.xal.sb.blocksize (agbno_absolute_offset s0.xal.sb ag.seqno blkno)
        if be32 block 0 == ibt_crc_magic then pure block else raise einval)
        s0

  -- The inodes of a chunk, `left` of them from `chunk_index` on. The result is `*index`.
  pub chunk_loop : (left chunk_index : ℕ) → InobtRec → Buf → (index : ℕ) → Exec Xfs ℕ
  chunk_loop zero chunk_index rec chunk index s = (ok index, s)
  chunk_loop (suc left) chunk_index rec chunk index s = elim (is_skipped rec chunk_index) [
    | true ↦ chunk_loop left (chunk_index + 1) rec chunk index s
    | false ↦ elim (has_dinode s.xal.sb index) [
      | false ↦ (err overrun, s)
      | true ↦
          (put_dinode (
                env.kh_put s.dinodes_map (dinode_ino (slot_dinode s.xal.sb chunk chunk_index))
                  (slot_dinode s.xal.sb chunk chunk_index))
              >>= λ _. chunk_loop left (chunk_index + 1) rec chunk (index + 1))
            s
    ]
  ]

  -- One record of a leaf: read its chunk, and take its inodes. The product of the chunk's size is
  -- one of `uint32_t`s.
  pub leaf_record : Ag → Buf → (reci index : ℕ) → Exec Xfs ℕ
  leaf_record ag buf reci index s0 =
      let sb = s0.xal.sb in
      let rec = inobt_rec buf reci in
      let (agbno, agbino) = ino_decode_relative sb rec.startino in
      let chunk_nbytes = chunk_nino / sb.inopblock * sb.blocksize % 2 ^ 32 in
      let chunk_offset = add_size (mul_size agbno sb.blocksize) ag.offset in
      if agbino == 0 && ltb chunk_nbytes buf_nbytes
      then ((do
        (λ s. (ok tt, record s { buf = overlay chunk_nbytes zeros s.buf }))
        dev_read env chunk_nbytes chunk_offset
        (λ s. chunk_loop rec.count 0 rec (overlay chunk_nbytes s.buf zeros) index s))
          s0)
      else (err assertion, s0)

  -- `decode_iab3_leaf_records`: `left` records from `reci` on.
  pub leaf_loop : Ag → Buf → (left reci index : ℕ) → Exec Xfs ℕ
  leaf_loop ag buf zero reci index = pure index
  leaf_loop ag buf (suc left) reci index =
      leaf_record ag buf reci index >>= λ index'. leaf_loop ag buf left (reci + 1) index'

  pub decode_iab3_leaf_records : Ag → Buf → (index : ℕ) → Exec Xfs ℕ
  decode_iab3_leaf_records ag buf index = leaf_loop ag buf (be16 buf 6) 0 index

  -- A node's child may be a node again: the fuel is the depth of the tree on the disk.
  pub retrieve_dinodes_via_iab3 : (fuel : ℕ) → Ag → (blkno index : ℕ) → Exec Xfs ℕ
  retrieve_dinodes_via_iab3 zero ag blkno index s0 = (err stuck, s0)
  retrieve_dinodes_via_iab3 (suc fuel) ag blkno index s0 =
      (do
        block ← read_iab3_block ag blkno
        (if be16 block 4 == 1
            then node_loop (λ child i. retrieve_dinodes_via_iab3 fuel ag child i) s0.xal.sb block
                (be16 block 6) 0 index
            else if be16 block 4 == 0
            then decode_iab3_leaf_records ag block index
            else raise einval))
        s0

  -- The loop over the allocation groups. A failure frees the dinodes.
  pub ags_loop : (fuel : ℕ) → List Ag → (index : ℕ) → Exec Xfs (Unit {0})
  ags_loop fuel [] index s = (ok tt, s)
  ags_loop fuel (ag ∷ ags) index s =
      let (r, s') = retrieve_dinodes_via_iab3 fuel ag ag.agi_root index s in
      elim r [
        | ok index' ↦ ags_loop fuel ags index' s'
        | err e ↦ (err e, record s' { retrieved = false })
      ]

  pub dinodes_retrieve : (fuel : ℕ) → Exec Xfs (Unit {0})
  dinodes_retrieve fuel s = elim s.xal.backend [
    | xfs ↦
        if env.kh_init
        then (elim (env.calloc (mul_size s.xal.sb.nallocated s.xal.sb.inodesize)) [
          | some e ↦ (err (os e), record s { dinodes_map = λ k. none; retrieved = false })
          | none ↦ ags_loop fuel s.ags 0 (record s { dinodes_map = λ k. none; retrieved = true })
        ])
        else (err einval, record s { dinodes_map = λ k. none })
    | fiemap ↦ (ok tt, s)
    | unset ↦ (ok tt, s)
  ]
