-- ===== src/Cli/Inspect.antt =====
-- What src/cli.c prints of an inode, with `xal_inode_path_pp` of src/xal.c. The output is what printf()
-- was given, in order.
use xallib.Prelude.{
  ℕ, zero, suc, ◌+◌, ◌/◌, Bool, true, false, Option, none, some, List, [], ◌∷◌, ◌++◌, take, ◌==◌,
  if◌then◌else◌,
}
use xallib.Result.{Exec, Result, ok, err, overrun, stuck}
use xallib.Word.{mul_size, add_size, sub_size}
use xallib.Types.{Xal, Inode, Extent, idx_none, inode_at, extent_at}
use xallib.Geometry.{fsbno_offset}
use xallib.Walk.{Walk, inode_is_dir, inode_is_file, get_sb_blocksize}
use xallib.Print.{Piece, text, bytes, number, unsigned}

-- `struct xal_nodeinspector_args`, less the arguments, and what was printed.
pub record Inspector : Type 0 where
  pub ndirs : ℕ
  pub nfiles : ℕ
  pub out : List Piece

-- `%.*s` of a name
abbrev pub name_piece : Inode → Piece
name_piece inode = bytes (take inode.namelen inode.name)

-- `xal_inode_path_pp`. The fuel is the depth of the inode.
unfoldable pub inode_path_pp : Xal → (fuel inode : ℕ) → Result (List Piece)
inode_path_pp xal zero inode = err stuck
inode_path_pp xal (suc fuel) inode =
    let above = inode_path_pp xal fuel (inode_at xal inode).parent_idx in
    if (inode_at xal inode).parent_idx == idx_none then ok [] else elim above [
      | err e ↦ err e
      | ok path ↦ ok (path ++ (text "/" ∷ (name_piece (inode_at xal inode) ∷ [])))
    ]

-- `dev_uri[strlen(dev_uri) - 1] == '/'`; an empty text has no such byte.
unfoldable pub ends_with_slash : List ℕ → Option Bool
ends_with_slash [] = none
ends_with_slash (c ∷ []) = some (c == b'/')
ends_with_slash (c ∷ (d ∷ cs)) = ends_with_slash (d ∷ cs)

-- The device, and a slash between it and the path where there is none.
unfoldable pub device_pieces : (dev_uri : List ℕ) → Inode → Result (List Piece)
device_pieces dev_uri inode =
    if inode.parent_idx == idx_none
    then ok (bytes dev_uri ∷ [])
    else elim (ends_with_slash dev_uri) [
      | none ↦ err overrun
      | some true ↦ ok (bytes dev_uri ∷ (text "/" ∷ []))
      | some false ↦ ok (bytes dev_uri ∷ [])
    ]

-- The first and the last of the sectors of 512 bytes of a run of `nbytes` bytes at `offset`.
pub record Sectors : Type 0 where
  pub begin : ℕ
  pub last : ℕ

abbrev pub sectors_of : (offset nbytes : ℕ) → Sectors
sectors_of offset nbytes = record {
  begin = offset / 512;
  last = sub_size (add_size (offset / 512) (nbytes / 512)) 1;
}

module _ (xal : Xal) where
  -- In the file, and on the device.
  abbrev pub fofz : Extent → Sectors
  fofz extent =
      sectors_of (mul_size extent.start_offset (get_sb_blocksize xal))
        (mul_size extent.nblocks (get_sb_blocksize xal))

  abbrev pub bofz : Extent → Sectors
  bofz extent =
      sectors_of (fsbno_offset xal.backend xal.sb extent.start_block)
        (mul_size extent.nblocks (get_sb_blocksize xal))

  abbrev pub extent_line : Extent → List Piece
  extent_line extent =
      text "- ["
      ∷ (number unsigned (fofz extent).begin
          ∷ (text ", "
              ∷ (number unsigned (fofz extent).last
                  ∷ (text ", "
                      ∷ (number unsigned (bofz extent).begin
                          ∷ (text ", "
                              ∷ (number unsigned (bofz extent).last ∷ (text "]\n" ∷ []))))))))

  -- The loop of `pp_inode_extents` over `left` extents from `idx` on.
  unfoldable pub extent_lines : (idx left : ℕ) → List Piece
  extent_lines idx zero = []
  extent_lines idx (suc left) = extent_line (extent_at xal idx) ++ extent_lines (idx + 1) left

  pub pp_inode_extents : Inode → List Piece
  pp_inode_extents inode = extent_lines inode.content.idx inode.content.count

-- `args->ndirs += 1`, `args->nfiles += 1`, and a printf()
abbrev pub count_dir : Walk Inspector → Walk Inspector
count_dir s = record s { cb_data = record s.cb_data { ndirs = add_size s.cb_data.ndirs 1 } }

abbrev pub count_file : Walk Inspector → Walk Inspector
count_file s = record s { cb_data = record s.cb_data { nfiles = add_size s.cb_data.nfiles 1 } }

abbrev pub put_pieces : List Piece → Walk Inspector → Walk Inspector
put_pieces ps s = record s { cb_data = record s.cb_data { out = s.cb_data.out ++ ps } }

abbrev pub unknown_pieces : Inode → List Piece
unknown_pieces inode = text "# UNKNOWN(" ∷ (name_piece inode ∷ (text ")" ∷ []))

-- The line of an inode, if it can be printed.
abbrev pub print_line : Result (List Piece) → Exec (Walk Inspector) (Unit {0})
print_line (ok ps) s = (ok tt, put_pieces ps s)
print_line (err e) s = (err e, s)

module _ (xal : Xal) (dev_uri : List ℕ) (fuel : ℕ) where
  -- The device and the path, with what stands around them.
  unfoldable pub path_line : (before after : List Piece) (inode : ℕ) → Result (List Piece)
  path_line before after inode = elim (device_pieces dev_uri (inode_at xal inode)) [
    | err e ↦ err e
    | ok device ↦ elim (inode_path_pp xal fuel inode) [
      | err e ↦ err e
      | ok path ↦ ok (before ++ (device ++ (path ++ after)))
    ]
  ]

  unfoldable pub node_inspector_find : (inode level : ℕ) → Exec (Walk Inspector) (Unit {0})
  node_inspector_find inode level s =
      let line = path_line [] (text "\n" ∷ []) inode in
      if inode_is_dir (inode_at xal inode)
      then print_line line (count_dir s)
      else if inode_is_file (inode_at xal inode)
      then print_line line (count_file s)
      else (ok tt, put_pieces (unknown_pieces (inode_at xal inode)) s)

  -- What stands behind the path of a file: ` ~`, or its extents.
  unfoldable pub extents_part : Inode → List Piece
  extents_part inode =
      if inode.content.count == 0
      then text "':" ∷ (text " ~\n" ∷ [])
      else text "':" ∷ (text "\n" ∷ pp_inode_extents xal inode)

  unfoldable pub node_inspector_bmap : (inode level : ℕ) → Exec (Walk Inspector) (Unit {0})
  node_inspector_bmap inode level s =
      if inode_is_dir (inode_at xal inode)
      then (ok tt, count_dir s)
      else if inode_is_file (inode_at xal inode)
      then print_line (path_line (text "'" ∷ []) (extents_part (inode_at xal inode)) inode)
          (count_file s)
      else (ok tt, put_pieces (unknown_pieces (inode_at xal inode)) s)
