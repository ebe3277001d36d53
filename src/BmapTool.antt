-- ===== src/BmapTool.antt =====
-- tools/xal_bmap_mp_yaml.c: the block map of all files below a mountpoint, read in pages from the FIEMAP
-- ioctl.
pub mod Pages
pub mod Tests
use xallib.Prelude.{
  ℕ, zero, suc, ◌+◌, ◌-◌, ◌*◌, ◌/◌, ◌%◌, Bool, true, false, Option, none, some, List, [], ◌∷◌, ◌++◌,
  ◌==◌, if◌then◌else◌,
}
use xallib.Result.{Result, ok, err, stuck}
use xallib.Word.{add_size, sub_size}
use xallib.Fiemap.State.{FiemapExtent}
use xallib.Print.{Piece, text, bytes, number, unsigned}

-- The extents that 128 MiB hold behind a `struct fiemap` of 32 bytes, of 56 bytes each.
abbrev pub extent_capacity : ℕ
extent_capacity = (128 * 1024 * 1024 - 32) / 56

-- `fe_flags & FIEMAP_EXTENT_LAST`
abbrev pub is_last : FiemapExtent → Bool
is_last e = e.fe_flags % 2 == 1

-- `last->fe_logical + last->fe_length`
abbrev pub end_of : FiemapExtent → ℕ
end_of e = add_size e.fe_logical e.fe_length

-- `first + nblocks - 1`
abbrev pub last_block : (first nblocks : ℕ) → ℕ
last_block first nblocks = sub_size (add_size first nblocks) 1

abbrev pub extent_line : FiemapExtent → List Piece
extent_line e =
    text "- ["
    ∷ (number unsigned (e.fe_logical / 512)
        ∷ (text ", "
            ∷ (number unsigned (last_block (e.fe_logical / 512) (e.fe_length / 512))
                ∷ (text ", "
                    ∷ (number unsigned (e.fe_physical / 512)
                        ∷ (text ", "
                            ∷ (number unsigned
                                  (last_block (e.fe_physical / 512) (e.fe_length / 512))
                                ∷ (text "]\n" ∷ []))))))))

-- The loop over a page.
unfoldable pub extent_lines : List FiemapExtent → List Piece
extent_lines [] = []
extent_lines (e ∷ es) = extent_line e ++ extent_lines es

-- `&fiemap->fm_extents[fiemap->fm_mapped_extents - 1]`
unfoldable pub last_of : FiemapExtent → List FiemapExtent → FiemapExtent
last_of e [] = e
last_of e (f ∷ fs) = last_of f fs

abbrev pub header : (fpath : List ℕ) → List Piece
header fpath = text "\"" ∷ (bytes fpath ∷ (text "\":\n" ∷ []))

-- What the tool takes from the operating system: whether a file opens, the ioctl from an offset on for
-- as many extents as fit, or none where it fails, and whether malloc() and nftw() succeed, with what
-- nftw() visits: paths, and whether they are files.
pub record Env : Type 0 where
  pub can_open : List ℕ → Bool
  pub ioctl : List ℕ → (start capacity : ℕ) → Option (List FiemapExtent)
  pub malloc : Bool
  pub nftw : List ℕ → Bool × List (List ℕ × Bool)

module _ (env : Env) where
  -- The `while (1)` of `process_file`. Each round takes at least one extent, so fuel above their
  -- number is enough. A failed ioctl ends it.
  unfoldable pub page_loop :
      (fuel : ℕ) (fpath : List ℕ) (start : ℕ) (printed_header : Bool) → Result (List Piece)
  page_loop zero fpath start printed_header = err stuck
  page_loop (suc fuel) fpath start printed_header = elim (env.ioctl fpath start extent_capacity) [
    | none ↦ ok []
    | some [] ↦ ok []
    | some (e ∷ es) ↦
        let page = (if printed_header then [] else header fpath) ++ extent_lines (e ∷ es) in
        if is_last (last_of e es)
        then ok page
        else elim (page_loop fuel fpath (end_of (last_of e es)) true) [
          | err c ↦ err c
          | ok rest ↦ ok (page ++ rest)
        ]
  ]

  -- `process_file`, for a file or something else.
  unfoldable pub process_file : (fuel : ℕ) (fpath : List ℕ) (is_ftw_f : Bool) → Result (List Piece)
  process_file fuel fpath is_ftw_f =
      if is_ftw_f then if env.can_open fpath then page_loop fuel fpath 0 false else ok [] else ok []

  -- The calls that nftw() makes.
  unfoldable pub process_files : (fuel : ℕ) → List (List ℕ × Bool) → Result (List Piece)
  process_files fuel [] = ok []
  process_files fuel ((fpath, is_ftw_f) ∷ rest) = elim (process_file fuel fpath is_ftw_f) [
    | err c ↦ err c
    | ok out ↦ elim (process_files fuel rest) [ err c ↦ err c | ok later ↦ ok (out ++ later) ]
  ]

  -- `main`: whether it is EXIT_SUCCESS, and the output.
  unfoldable pub run_tool : (fuel : ℕ) (argv : List (List ℕ)) → Result (Bool × List Piece)
  run_tool fuel (name ∷ (mountpoint ∷ [])) =
      if env.malloc
      then (elim (process_files fuel (env.nftw mountpoint).1) [
        | err c ↦ err c
        | ok out ↦ ok ((env.nftw mountpoint).0, out)
      ])
      else ok (false, [])
  run_tool fuel argv = ok (false, [])
