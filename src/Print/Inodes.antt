-- ===== src/Print/Inodes.antt =====
-- src/pp.c: `xal_inode_pp`, and `dump_bytes` of src/utils.c.
use xallib.Prelude.{
  ℕ, zero, suc, ◌+◌, ◌%◌, ◌^◌, ◌&&◌, List, [], ◌∷◌, ◌++◌, take, ltb, ◌==◌, if◌then◌else◌,
}
use xallib.Result.{Result, ok, err, stuck}
use xallib.Types.{Xal, Inode, inode_at, extent_at, ft_dir, ft_reg_file}
use xallib.Cli.Inspect.{extent_line}
use xallib.Bytes.{Buf}
use xallib.Print.{
  Piece, text, bytes, number, unsigned, hex_8, signed_3, Printed, print_lines, field, words,
}

module _ (xal : Xal) (width : Piece → ℕ) where
  -- The lines of an inode itself.
  abbrev pub inode_lines : Inode → List (List Piece)
  inode_lines inode =
      words "xal_inode:\n"
      ∷ (field "  ino: 0x" hex_8 inode.ino
          ∷ (field "  size: " unsigned inode.size
              ∷ (field "  namelen: " unsigned inode.namelen
                  ∷ ((text "  name: '" ∷ (bytes (take 256 inode.name) ∷ (text "'\n" ∷ [])))
                      ∷ (field "  ftype: " unsigned inode.ftype ∷ [])))))

  -- The loop over the extents of a file.
  abbrev pub extents_lines : (idx left : ℕ) → List (List Piece)
  extents_lines idx zero = []
  extents_lines idx (suc left) = extent_line xal (extent_at xal idx) ∷ extents_lines (idx + 1) left

  -- What has been printed is there also where the number of its bytes is not added.
  abbrev pub and_then : Printed → List Piece → Printed
  and_then p out = record { wrtn = p.wrtn; out = p.out ++ out }

  -- The loop over the children, whose counter is a `uint8_t`, for `rounds` rounds at most. What
  -- `xal_inode_pp` returns of a child is not used.
  unfoldable pub pp_children :
      (pp : ℕ → Result Printed) (idx count rounds i : ℕ) → Result (List Piece)
  pp_children pp idx count zero i = err stuck
  pp_children pp idx count (suc rounds) i =
      if ltb i count
      then (elim (pp (idx + i)) [
        | err e ↦ err e
        | ok child ↦ elim (pp_children pp idx count rounds ((i + 1) % 2 ^ 8)) [
          | err e ↦ err e
          | ok rest ↦ ok (child.out ++ rest)
        ]
      ])
      else ok []

  -- The `switch (inode->ftype)`
  unfoldable pub pp_content : (pp : ℕ → Result Printed) (rounds : ℕ) → Inode → Result Printed
  pp_content pp rounds inode =
      if inode.ftype == ft_dir
      then (elim (pp_children pp inode.content.idx inode.content.count rounds 0) [
        | err e ↦ err e
        | ok out ↦ ok (
            and_then
              (print_lines width (
                inode_lines inode
                ++ (field "  dentries.count: " unsigned inode.content.count ∷ [])))
              out)
      ])
      else if inode.ftype == ft_reg_file
      then ok (
          print_lines width (
            inode_lines inode
            ++ (field "  extents.count: " unsigned inode.content.count
                ∷ extents_lines inode.content.idx inode.content.count)))
      else ok (print_lines width (inode_lines inode))

  -- `xal_inode_pp` of an inode. The fuel is the depth of the tree; a loop that ends takes at most 256
  -- rounds.
  unfoldable pub inode_pp : (fuel rounds inode : ℕ) → Result Printed
  inode_pp zero rounds inode = err stuck
  inode_pp (suc fuel) rounds inode =
      pp_content (λ child. inode_pp fuel rounds child) rounds (inode_at xal inode)

-- `dump_bytes` of a buffer, from the byte `i` on.
unfoldable pub dump_bytes : Buf → (left i : ℕ) → List Piece
dump_bytes buf zero i = []
dump_bytes buf (suc left) i =
    let rest = dump_bytes buf left (i + 1) in
    (if ltb 31 (buf i) && ltb (buf i) 127
      then number signed_3 i ∷ (text ": '" ∷ (bytes (buf i ∷ []) ∷ (text "'\n" ∷ [])))
      else number signed_3 i ∷ (text ": " ∷ (number unsigned (buf i) ∷ (text "\n" ∷ []))))
    ++ rest
