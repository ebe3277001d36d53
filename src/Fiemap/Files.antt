-- ===== src/Fiemap/Files.antt =====
-- The extents of a file: `read_fiemap` and `xal_be_fiemap_process_inode_file` of
-- src/xal_be_fiemap.c.
use xallib.Prelude.{
  ℕ, ◌+◌, ◌-◌, ◌*◌, ltb, ◌/◌, ◌%◌, ◌^◌, inl, inr, none, some, List, [], ◌∷◌, length, get_elem?,
  if◌then◌else◌,
}
use xallib.Result.{Exec, Result, ok, err, einval, os, overrun, ◌>>=◌, ◌>>◌}
use xallib.Word.{add_size}
use xallib.Pool.{claim_extents}
use xallib.Types.{Extent, blank_extent}
use xallib.Walk.{inode_is_file}
use xallib.Extents.Fill.{filled}
use xallib.Fiemap.State.{Env, Fiemap, FiemapExtent, self_at, with_xal, put_content, on_extents}
use xallib.Fiemap.Search.{put_path}

-- The stores into an extent, in units of a block size that is not 0; `flag` is a `uint8_t`.
abbrev pub extent_of : (blocksize : ℕ) → FiemapExtent → Extent
extent_of blocksize e = record {
  start_offset = e.fe_logical / blocksize;
  start_block = e.fe_physical / blocksize;
  nblocks = e.fe_length / blocksize;
  flag = e.fe_flags % 2 ^ 8;
}

-- `fiemap->fm_extents[i]`, as the extent that it becomes.
unfoldable pub nth_extent : (blocksize : ℕ) → List FiemapExtent → ℕ → Extent
nth_extent blocksize es i = elim (get_elem? es i) [
  | none ↦ blank_extent
  | some e ↦ extent_of blocksize e
]

-- `int extents_size`, as the `size_t` that it is added as; a `struct fiemap_extent` has 56 bytes.
abbrev pub extents_size : (count : ℕ) → ℕ
extents_size count =
    let size = 56 * count % 2 ^ 32 in if ltb size (2 ^ 31) then size else size + (2 ^ 64 - 2 ^ 32)

module _ (env : Env) where
  -- The second ioctl is for as many extents as the first one counted. A `struct fiemap` has 32
  -- bytes. Where an `int` does not hold the size of the extents, there is no room for them in what
  -- realloc() gives, or memset() is asked for more than there is.
  unfoldable pub read_fiemap : (path : List ℕ) → Result (List FiemapExtent)
  read_fiemap path = elim (env.mapped_extents path) [
    | inl e ↦ err (os e)
    | inr count ↦ elim (env.realloc (add_size 32 (extents_size count))) [
      | some e ↦ err (os e)
      | none ↦
          if ltb (56 * count) (2 ^ 31)
          then (elim (env.ioctl path count) [ inl e ↦ err (os e) | inr es ↦ ok es ])
          else err overrun
    ]
  ]

  -- The loop that stores the extents, from the index `extent_idx` on.
  unfoldable pub fill_extents : List FiemapExtent → (extent_idx : ℕ) → Exec Fiemap (Unit {0})
  fill_extents es extent_idx s = (
    ok tt,
    with_xal s (record s.xal {
      extents = record s.xal.extents {
        memory =
            filled (nth_extent s.xal.sb.blocksize es) extent_idx (length es) 0 s.xal.extents.memory;
      };
    }),
  )

  -- `if (fiemap->fm_mapped_extents > 0) { … }`
  unfoldable pub store_extents : (self : ℕ) → List FiemapExtent → Exec Fiemap (Unit {0})
  store_extents self [] s = (ok tt, s)
  store_extents self (e ∷ es) s =
      (do
        extent_idx ← on_extents (claim_extents blank_extent env.kernel (length (e ∷ es)))
        put_content self extent_idx (length (e ∷ es) % 2 ^ 32)
        fill_extents (e ∷ es) extent_idx)
        s

  -- Where `malloc` fails, what is returned is the 0 that `err` starts with.
  unfoldable pub process_inode_file : (path : List ℕ) (self : ℕ) → Exec Fiemap (Unit {0})
  process_inode_file path self s =
      if inode_is_file (self_at s self)
      then (elim (env.open_file path) [
        | some e ↦ (err (os e), s)
        | none ↦
            if env.malloc
            then (elim (read_fiemap path) [
              | err e ↦ (err e, s)
              | ok es ↦
                  (store_extents self es >>= λ _ t. put_path env (self_at t self).name self t) s
            ])
            else (ok tt, s)
      ])
      else (err einval, s)
