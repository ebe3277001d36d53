-- ===== src/Print/Records.antt =====
-- src/pp.c: the structures of a handle.
use Prim.Native.String.{String}
use xallib.Prelude.{ℕ, Option, none, some, List, [], ◌∷◌, ◌++◌}
use xallib.Types.{Sb, Extent}
use xallib.Convert.{Converted, ExtentUnit, bytes, lba}
use xallib.Xfs.State.{Ag}
use xallib.Fiemap.State.{Inotify, WatchMode, off, dirty_detection, extent_update}
use xallib.Core.{Handle, Backing, on_xfs, on_fiemap, on_pools, xal_of}
use xallib.Print.{
  Piece, text, number, unsigned, signed, pointer, Printed, print_lines, field, words,
}

module _ (width : Piece → ℕ) where
  -- What a function prints of a pointer that is NULL, and of another one.
  abbrev pub print_or : {A : Type 0} → String → (A → List (List Piece)) → Option A → Printed
  print_or null lines none = print_lines width (words null ∷ [])
  print_or null lines (some a) = print_lines width (lines a)

  abbrev pub ag_lines : Ag → List (List Piece)
  ag_lines ag =
      words "xal_ag:\n"
      ∷ (field "  seqno: " unsigned ag.seqno
          ∷ (field "  offset: " signed ag.offset
              ∷ (field "  agf_length: " unsigned ag.agf_length
                  ∷ (field "  agi_count: " unsigned ag.agi_count
                      ∷ (field "  agi_root: " unsigned ag.agi_root
                          ∷ (field "  agi_level: " unsigned ag.agi_level ∷ []))))))

  -- `xal_ag_pp`
  pub ag_pp : Option Ag → Printed
  ag_pp = print_or "xal_ag: ~\n" ag_lines

  -- `xal_extent_pp`
  pub extent_pp : Option Extent → Printed
  extent_pp = print_or "xal_extent: ~\n" (λ extent.
      words "xal_extent:\n"
      ∷ (field "  start_offset: " unsigned extent.start_offset
          ∷ (field "  start_block: " unsigned extent.start_block
              ∷ (field "  nblocks: " unsigned extent.nblocks
                  ∷ (field "  flag: " unsigned extent.flag ∷ [])))))

  abbrev pub size_lines : ExtentUnit → (size : ℕ) → List (List Piece)
  size_lines bytes size =
      field "  bytes: " unsigned size ∷ (words "  unit: XAL_EXTENT_UNIT_BYTES\n" ∷ [])
  size_lines lba size =
      field "  nblocks: " unsigned size ∷ (words "  unit: XAL_EXTENT_UNIT_LBA\n" ∷ [])

  -- `xal_extent_converted_pp`
  pub extent_converted_pp : Option Converted → Printed
  extent_converted_pp = print_or "xal_extent_converted: ~\n" (λ extent.
      words "xal_extent_converted:\n"
      ∷ (field "  start_offset: " unsigned extent.start_offset
          ∷ (field "  start_block: " unsigned extent.start_block
              ∷ size_lines extent.unit extent.size)))

  abbrev pub sb_lines : Sb → List (List Piece)
  sb_lines sb =
      words "xal:\n"
      ∷ (field "  sb.blocksize: " unsigned sb.blocksize
          ∷ (field "  sb.sectsize: " unsigned sb.sectsize
              ∷ (field "  sb.inodesize: " unsigned sb.inodesize
                  ∷ (field "  sb.inopblock: " unsigned sb.inopblock
                      ∷ (field "  sb.inopblog: " unsigned sb.inopblog
                          ∷ (field "  sb.icount: " unsigned sb.icount
                              ∷ (field "  sb.nallocated: " unsigned sb.nallocated
                                  ∷ (field "  sb.rootino: " unsigned sb.rootino
                                      ∷ (field "  sb.agblocks: " unsigned sb.agblocks
                                          ∷ (field "  sb.agblklog: " unsigned sb.agblklog
                                              ∷ (field "  sb.agcount: " unsigned sb.agcount
                                                  ∷ (field "  sb.dirblocksize: " unsigned
                                                        sb.dirblocksize
                                                      ∷ []))))))))))))

  -- `xal_be_xfs_pp` over the groups that there are, and `xal_be_fiemap_pp`.
  abbrev pub ags_lines : List Ag → List (List Piece)
  ags_lines [] = []
  ags_lines (ag ∷ ags) = ag_lines ag ++ ags_lines ags

  abbrev pub be_lines : Backing → List (List Piece)
  be_lines (on_xfs s) = ags_lines s.ags
  be_lines (on_fiemap s) =
      words "xal_be_fiemap:\n"
      ∷ ((text "  mountpoint: " ∷ (xallib.Print.bytes s.mountpoint ∷ (text "\n" ∷ []))) ∷ [])
  be_lines (on_pools x) = []

  -- `xal_pp`
  unfoldable pub xal_pp : Option Handle → Printed
  xal_pp = print_or "xal: ~\n" (λ h. sb_lines (xal_of h).sb ++ be_lines h.backing)

  abbrev pub watch_mode_line : WatchMode → List Piece
  watch_mode_line off = words "  watchmode: XAL_WATCHMODE_NONE\n"
  watch_mode_line dirty_detection = words "  watchmode: XAL_WATCHMODE_DIRTY_DETECTION\n"
  watch_mode_line extent_update = words "  watchmode: XAL_WATCHMODE_EXTENT_UPDATE\n"

  -- `xal_inotify_pp`; where the map stands in memory is an argument.
  pub inotify_pp : (inode_map : ℕ) → Option Inotify → Printed
  inotify_pp inode_map = print_or "xal_inotify: ~\n" (λ inotify.
      words "xal_inotify:\n"
      ∷ (field "  fd: " signed inotify.fd
          ∷ (field "  inode_map addr: " pointer inode_map
              ∷ (watch_mode_line inotify.watch_mode
                  ∷ (field "  watch_thread_id: " signed inotify.watch_thread_id ∷ [])))))
