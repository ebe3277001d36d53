-- ===== src/Fiemap/Stored.antt =====
-- The extents that `xal_be_fiemap_process_inode_file` of src/xal_be_fiemap.c leaves in the pool.
use xallib.Prelude.{
  ℕ, suc, ◌+◌, ◌*◌, ◌/◌, ◌%◌, ◌≤◌, ◌<◌, ◌≡◌, ◌∙◌, refl, ap, sym, subst, [], arith, true, inl, inr,
  Option-cases, Bool-cases, List, ◌∷◌, length,
}
use native.Mathlib.Nat.{div-mul-le_self, div-lt_iff_lt-mul}
use xallib.Result.{ok, Result-cases}
use xallib.Pool.{claim_extents}
use xallib.Pool.Bounds.{ChecksMapping}
use xallib.Pool.Claims.{claim_extents-Granted}
use xallib.Types.{Xal, Extent, blank_extent}
use xallib.Extents.Fill.{free_small}
use xallib.Extents.Held.{IsReady, Holds, Lists, whole-Holds, whole-Lists}
use xallib.Walk.{inode_is_file}
use xallib.Fiemap.State.{Env, Fiemap, FiemapExtent, self_at}
use xallib.Fiemap.Search.{put_path}
use xallib.Fiemap.Files.{
  extent_of, nth_extent, read_fiemap, fill_extents, store_extents, process_inode_file,
}

-- The extent `x` of a file-system of blocks of `bs` bytes is what the ioctl gave as `e`: its first
-- block in the file and on the disk are those that the bytes stand in, its length is the number of
-- whole blocks, and its flag the lowest byte of the flags.
pub record InBlocks (bs : ℕ) (e : FiemapExtent) (x : Extent) : Type 0 where
  pub logical : (x.start_offset * bs ≤ e.fe_logical) × (e.fe_logical < (x.start_offset + 1) * bs)
  pub physical : (x.start_block * bs ≤ e.fe_physical) × (e.fe_physical < (x.start_block + 1) * bs)
  pub size : (x.nblocks * bs ≤ e.fe_length) × (e.fe_length < (x.nblocks + 1) * bs)
  pub flags : x.flag ≡ e.fe_flags % 256

-- The elements from `at` on are the extents, in their order.
abbrev pub AllInBlocks : (bs : ℕ) → List FiemapExtent → (memory : ℕ → Extent) → (at : ℕ) → Type 0
AllInBlocks bs [] memory at = Unit {0}
AllInBlocks bs (e ∷ es) memory at = InBlocks bs e (memory at) × AllInBlocks bs es memory (at + 1)

quotient : (bs n : ℕ) → 0 < bs → (n / bs * bs ≤ n) × (n < (n / bs + 1) * bs)
quotient bs n h =
    (div-mul-le_self n bs, (div-lt_iff_lt-mul {x = n} {y = n / bs + 1} h).0 (omega arith))

extent_of-InBlocks : (bs : ℕ) (e : FiemapExtent) → 0 < bs → InBlocks bs e (extent_of bs e)
extent_of-InBlocks bs e h = record {
  logical = quotient bs e.fe_logical h;
  physical = quotient bs e.fe_physical h;
  size = quotient bs e.fe_length h;
  flags = refl;
}

nth_extent-AllInBlocks :
    (bs : ℕ) (es : List FiemapExtent) (memory : ℕ → Extent) (at : ℕ)
    → 0 < bs
    → ((j : ℕ) → j < length es → memory (at + j) ≡ nth_extent bs es j)
    → AllInBlocks bs es memory at
unfolding nth_extent
nth_extent-AllInBlocks bs [] memory at h same = tt
nth_extent-AllInBlocks bs (e ∷ es) memory at h same =
    let first : memory at ≡ extent_of bs e = ap memory (omega arith) ∙ same 0 (omega arith) in
    (
      subst (InBlocks bs e) (sym first) (extent_of-InBlocks bs e h),
      nth_extent-AllInBlocks bs es memory (at + 1) h
          (λ j lt. ap memory (omega arith) ∙ same (suc j) (omega (arith, lt))),
    )

module _ (env : Env) where
  pub put_path-xal : (key : List ℕ) (i : ℕ) (s : Fiemap) → (put_path env key i s).1.xal ≡ s.xal
  unfolding put_path
  put_path-xal key i s = elim (Option-cases s.path_inode_map) [
    | inl e ↦ simp (put_path, e) refl
    | inr (m, e) ↦ elim (Option-cases (env.kh_put_path m key i)) [
      | inl f ↦ simp (put_path, e, f) refl
      | inr (m', f) ↦ simp (put_path, e, f) refl
    ]
  ]

module _ (env : Env) (checks : ChecksMapping env.kernel) where
  store_extents-Holds :
      (self : ℕ) (e : FiemapExtent) (es : List FiemapExtent) (s : Fiemap) {u : Unit {0}}
      → IsReady self s.xal
      → (store_extents env self (e ∷ es) s).0 ≡ ok u
      → Holds self s.xal (store_extents env self (e ∷ es) s).1.xal
        × Lists
            (length (e ∷ es))
            (nth_extent s.xal.sb.blocksize (e ∷ es))
            s.xal
            (store_extents env self (e ∷ es) s).1.xal
  unfolding store_extents fill_extents
  store_extents-Holds self e es s r h =
      let small = free_small s.xal.extents r.valid r.small in
      let n = length (e ∷ es) in
      elim (Result-cases (claim_extents blank_extent env.kernel n s.xal.extents).0) [
        | inr (c, k) ↦ cc (rw k at h)
        | inl (idx, k) ↦
            let g =
              claim_extents-Granted blank_extent env.kernel checks n s.xal.extents r.valid small
                k in
            rw k (
              whole-Holds self n idx (nth_extent s.xal.sb.blocksize (e ∷ es)) s.xal _ r g,
              whole-Lists self n idx (nth_extent s.xal.sb.blocksize (e ∷ es)) s.xal _ r g,
            )
      ]

  process_inode_file_stored :
      (path : List ℕ) (self : ℕ) (e : FiemapExtent) (es : List FiemapExtent) (s : Fiemap)
      → IsReady self s.xal
      → env.malloc ≡ true
      → read_fiemap env path ≡ ok (e ∷ es)
      → (process_inode_file env path self s).0 ≡ ok tt
      → Holds self s.xal (process_inode_file env path self s).1.xal
        × Lists
            (length (e ∷ es))
            (nth_extent s.xal.sb.blocksize (e ∷ es))
            s.xal
            (process_inode_file env path self s).1.xal
  unfolding process_inode_file
  process_inode_file_stored path self e es s r there f h =
      elim (Bool-cases (inode_is_file (self_at s self))) [
        | inr other ↦ cc (rw other at h)
        | inl file ↦ elim (Option-cases (env.open_file path)) [
          | inr (c, o) ↦ cc (simp (process_inode_file, file, o) at h)
          | inl o ↦
              let h' = simp (process_inode_file, file, o, there, f) at h in
              let t : Fiemap = (store_extents env self (e ∷ es) s).1 in
              elim (Result-cases (store_extents env self (e ∷ es) s).0) [
                | inr (c, k) ↦ cc (rw k at h')
                | inl (u, k) ↦
                    simp (process_inode_file, file, o, there, f)
                      (rw k (
                        subst (Written s) (sym (put_path-xal env (self_at t self).name self t))
                          (store_extents-Holds self e es s r k)))
              ]
        ]
      ]
    where
      Written : Fiemap → Xal → Type 0
      Written s y =
          Holds self s.xal y
          × Lists (length (e ∷ es)) (nth_extent s.xal.sb.blocksize (e ∷ es)) s.xal y

  -- A file that is processed with success, with memory for the ioctl and with at least one extent
  -- read, with blocks of at least one byte, on a valid pool of extents of at most 2^31 elements,
  -- has one extent for each that the ioctl gave, in their order and consecutive: its first block
  -- in the file and on the disk are those that the bytes stand in, its length is the number of
  -- whole blocks, and its flag the lowest byte of the flags. No other inode and no extent of
  -- another file changes. This supposes that mprotect() refuses what is not mapped.
  pub process_inode_file-Holds :
      (path : List ℕ) (self : ℕ) (e : FiemapExtent) (es : List FiemapExtent) (s : Fiemap)
      → IsReady self s.xal
      → 0 < s.xal.sb.blocksize
      → env.malloc ≡ true
      → read_fiemap env path ≡ ok (e ∷ es)
      → (process_inode_file env path self s).0 ≡ ok tt
      → Holds self s.xal (process_inode_file env path self s).1.xal
        × ((process_inode_file env path self s).1.xal.extents.free
            ≡ s.xal.extents.free + length (e ∷ es))
        × AllInBlocks s.xal.sb.blocksize
            (e ∷ es)
            (process_inode_file env path self s).1.xal.extents.memory
            s.xal.extents.free
  process_inode_file-Holds path self e es s r blocks there f h =
      let (holds, lists) = process_inode_file_stored path self e es s r there f h in
      (
        holds,
        lists.number,
        nth_extent-AllInBlocks s.xal.sb.blocksize (e ∷ es) _ s.xal.extents.free blocks
            lists.record_at,
      )
