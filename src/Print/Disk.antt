-- ===== src/Print/Disk.antt =====
-- src/pp.c: the structures on the disk. A field that is converted is read as big-endian; those of a
-- B+tree block and of an inode record are printed as they stand in the structure.
use Prim.Native.String.{String}
use xallib.Prelude.{ℕ, zero, suc, ◌+◌, ◌*◌, ◌/◌, Option, List, [], ◌∷◌, ◌==◌, if◌then◌else◌}
use xallib.Bytes.{Buf, be16, be32, be64}
use xallib.Types.{s_isdir, s_isreg}
use xallib.Print.{
  Piece, text, bytes, number, unsigned, hex, hex_8, Printed, print_lines, field, words, until_nul,
}
use xallib.Print.Records.{print_or}

-- The bytes from an offset on.
abbrev pub bytes_at : Buf → (o n : ℕ) → List ℕ
bytes_at b o zero = []
bytes_at b o (suc n) = b o ∷ bytes_at b (o + 1) n

-- A number in memory, on a little-endian machine.
abbrev pub le32 : Buf → ℕ → ℕ
le32 b o = b o + b (o + 1) * 0x100 + b (o + 2) * 0x1_0000 + b (o + 3) * 0x100_0000

-- `struct xal_odf_btree_sfmt` and `struct xal_odf_inobt_rec`, as far as they are printed.
pub record BtreeSfmt : Type 0 where
  pub magic_num : ℕ
  pub magic_text : List ℕ
  pub level : ℕ
  pub numrecs : ℕ
  pub left : ℕ
  pub right : ℕ
  pub blkno : ℕ

pub record InobtRec : Type 0 where
  pub startino : ℕ
  pub holemask : ℕ
  pub count : ℕ
  pub freecount : ℕ
  pub free : ℕ

-- `xal_odf_dinode_format_str`
abbrev pub dinode_format_str : ℕ → String
dinode_format_str val =
    if val == 3
    then "btree"
    else if val == 0
    then "dev"
    else if val == 2
    then "extents"
    else if val == 1
    then "local"
    else if val == 4
    then "uuid"
    else "INODE_FORMAT_UNKNOWN"

abbrev pub mode_to_type_str : ℕ → String
mode_to_type_str mode =
    if s_isdir mode then "directory" else if s_isreg mode then "file" else "UNEXPECTED"

module _ (width : Piece → ℕ) where
  -- `xal_odf_sb_pp`
  pub odf_sb_pp : Buf → Printed
  odf_sb_pp sb = print_lines width (
      words "xal_odf_sb:\n"
      ∷ (field "  magicnum: 0x" hex (be32 sb 0)
          ∷ ((text "  blocksize: 0x" ∷ (number hex (be32 sb 4) ∷ (text "x\n" ∷ [])))
              ∷ ((text "  rootino: " ∷ (number hex (be64 sb 56) ∷ (text "zu\n" ∷ [])))
                  ∷ ((text "  agblocks: " ∷ (number hex (be32 sb 84) ∷ (text "d\n" ∷ [])))
                      ∷ ((text "  agcount: " ∷ (number hex (be32 sb 88) ∷ (text "d\n" ∷ [])))
                          ∷ ((text "  sectsize: " ∷ (number hex (be16 sb 102) ∷ (text "u\n" ∷ [])))
                              ∷ ((text "  inodesize: "
                                    ∷ (number hex (be16 sb 104) ∷ (text "u\n" ∷ [])))
                                  ∷ ((text "  fname: '"
                                        ∷ (bytes (until_nul (bytes_at sb 108 12))
                                            ∷ (text "'\n" ∷ [])))
                                      ∷ ((text "  dirblklog: 0x"
                                            ∷ (number unsigned (sb 192) ∷ (text "x\n" ∷ [])))
                                          ∷ []))))))))))

  -- `xal_odf_agf_pp`, `xal_odf_agi_pp`
  pub odf_agf_pp : Buf → Printed
  odf_agf_pp agf = print_lines width (
      words "xal_odf_agf:\n"
      ∷ (field "  magicnum: 0x" hex (be32 agf 0)
          ∷ (field "  seqno: 0x" hex (be32 agf 8) ∷ (field "  length: 0x" hex (be32 agf 12) ∷ []))))

  pub odf_agi_pp : Buf → Printed
  odf_agi_pp agi = print_lines width (
      words "xal_agi:\n"
      ∷ (field "  magicnum: 0x" hex (be32 agi 0)
          ∷ (field "  seqno: 0x" hex (be32 agi 8) ∷ (field "  length: 0x" hex (be32 agi 12) ∷ []))))

  -- `xal_odf_agfl_pp`, whose fields are not converted
  pub odf_agfl_pp : Buf → Printed
  odf_agfl_pp agfl = print_lines width (
      words "xal_odf_agfl:\n"
      ∷ (field "  magicnum: 0x" hex (le32 agfl 0) ∷ (field "  seqno: 0x" hex (le32 agfl 4) ∷ [])))

  -- `xal_odf_dinode_pp`
  pub odf_dinode_pp : Buf → Printed
  odf_dinode_pp dinode = print_lines width (
      words "xal_dinode:\n"
      ∷ ((text "  magic: 0x"
            ∷ (number hex (be16 dinode 0)
                ∷ (text " | 0x" ∷ (number hex 0x494e ∷ (text "\n" ∷ [])))))
          ∷ ((text "  mode: 0x"
                ∷ (number hex (be16 dinode 2)
                    ∷ (text " | '"
                        ∷ (text (mode_to_type_str (be16 dinode 2)) ∷ (text "'\n" ∷ [])))))
              ∷ ((text "  format: 0x"
                    ∷ (number unsigned (dinode 5)
                        ∷ (text " | '"
                            ∷ (text (dinode_format_str (dinode 5)) ∷ (text "'\n" ∷ [])))))
                  ∷ (field "  ino: " unsigned (be64 dinode 152) ∷ [])))))

  -- `xal_odf_btree_iab3_sfmt_pp`
  pub btree_iab3_sfmt_pp : Option BtreeSfmt → Printed
  btree_iab3_sfmt_pp = print_or width "xal_ofd_btree_iab3: ~\n" (λ iab3.
      words "xal_ofd_btree_iab3:\n"
      ∷ ((text "  magic: 0x"
            ∷ (number hex_8 iab3.magic_num
                ∷ (text " / '" ∷ (bytes (until_nul iab3.magic_text) ∷ (text "'\n" ∷ [])))))
          ∷ (field "  level: " unsigned iab3.level
              ∷ (field "  numrecs: " unsigned iab3.numrecs
                  ∷ (field "  leftsib: 0x" hex_8 iab3.left
                      ∷ (field "  rightsib: 0x" hex_8 iab3.right
                          ∷ (field "  blkno: " unsigned (iab3.blkno / 8) ∷ [])))))))

  -- `xal_odf_inobt_rec_pp`
  pub odf_inobt_rec_pp : Option InobtRec → Printed
  odf_inobt_rec_pp = print_or width "xal_ofd_inobt_rec: ~\n" (λ rec.
      words "xal_ofd_inobt_rec:\n"
      ∷ (field "  startino: " unsigned rec.startino
          ∷ (field "  holemask: " unsigned rec.holemask
              ∷ (field "  count: " unsigned rec.count
                  ∷ (field "  freecount: " unsigned rec.freecount
                      ∷ (field "  free: " unsigned rec.free ∷ []))))))
