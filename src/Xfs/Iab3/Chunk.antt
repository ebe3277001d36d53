-- ===== src/Xfs/Iab3/Chunk.antt =====
-- The dinodes of an inode chunk, as `decode_iab3_leaf_records` puts them in the table.
use xallib.Prelude.{
  ℕ, zero, suc, ◌+◌, ◌*◌, ◌/◌, ◌%◌, ◌^◌, ltb, ◌≡◌, some, List, [], ◌∷◌, length, ◌==◌, if◌then◌else◌,
}
use xallib.Bytes.{Buf, be64}
use xallib.Xfs.State.{Xfs, Table}

-- The bytes of a dinode.
abbrev pub bytes_from : (n : ℕ) → Buf → (at : ℕ) → Buf
bytes_from n chunk at o = if ltb o n then chunk (at + o) else 0

-- The dinodes of the slots of a chunk without holes that are in use, `left` slots from `k` on, each
-- under the inode number at its byte 152. A slot is free where its bit in `free` is 1.
pub in_use : (inodesize free : ℕ) → Buf → (left k : ℕ) → List (ℕ × Buf)
in_use inodesize free chunk zero k = []
in_use inodesize free chunk (suc left) k =
    let rest = in_use inodesize free chunk left (k + 1) in
    if free / 2 ^ k % 2 == 0
    then (be64 chunk (k * inodesize + 152), bytes_from inodesize chunk (k * inodesize)) ∷ rest
    else rest

-- A table with dinodes entered under their inode numbers, the later over the earlier.
pub entered : List (ℕ × Buf) → Table Buf → Table Buf
entered [] t = t
entered ((ino, dinode) ∷ dinodes) t = entered dinodes (λ j. if ino == j then some dinode else t j)

-- From `s` to `q` the dinodes are entered in the table, and counted; the index of the file system
-- is as it was.
pub record Enters (dinodes : List (ℕ × Buf)) (index index' : ℕ) (s q : Xfs) : Type 0 where
  pub counted : index' ≡ index + length dinodes
  pub table : (j : ℕ) → q.dinodes_map j ≡ entered dinodes s.dinodes_map j
  pub same_xal : q.xal ≡ s.xal
