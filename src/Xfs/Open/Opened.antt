-- ===== src/Xfs/Open/Opened.antt =====
-- What `xal_be_xfs_open` leaves: the allocation groups and the two pools.
use xallib.Prelude.{
  ℕ, ◌%◌, ◌^◌, ◌*◌, ◌≡◌, ◌≢◌, ◌∙◌, ◌++◌, [], ap, subst, refl, sym, inl, inr, Bool-cases, Option,
  Option-cases, none, some, List, length, ◌==◌, arith,
}
use xallib.Bytes.{Buf, be16, be32, be64}
use xallib.Result.{Result, ok, err, Result-cases}
use xallib.Pool.{map_pool}
use xallib.Pool.Bounds.{ChecksMapping}
use xallib.Pool.Lifecycle.{IsFresh, map_pool-IsFresh}
use xallib.Types.{Sb, blank_inode, blank_extent}
use xallib.Xfs.State.{Env, Xfs, with_inodes, with_extents}
use xallib.Xfs.Device.{dev_read}
use xallib.Xfs.Open.{
  ag_loop, map_pools, open_headers, xfs_open, superblock, candidate, blank_sb, return_errno,
}
use xallib.Handle.{
  is_too_long, inode_nbytes, extent_nbytes, pool_reserved, shm_with, suffix_inodes, suffix_extents,
}
use xallib.Xfs.Open.Groups.{AllGroups, with_nallocated, total, Reads, ag_loop-Reads}

-- The fields of a superblock, where the on-disk format has them in a buffer.
pub record IsSuperblock (buf : Buf) (sb : Sb) : Type 0 where
  pub blocksize : sb.blocksize ≡ be32 buf 4
  pub rootino : sb.rootino ≡ be64 buf 56
  pub agblocks : sb.agblocks ≡ be32 buf 84
  pub agcount : sb.agcount ≡ be32 buf 88
  pub sectsize : sb.sectsize ≡ be16 buf 102
  pub inodesize : sb.inodesize ≡ be16 buf 104
  pub inopblock : sb.inopblock ≡ be16 buf 106
  pub inopblog : sb.inopblog ≡ buf 123
  pub agblklog : sb.agblklog ≡ buf 124
  pub icount : sb.icount ≡ be64 buf 128
  pub dirblocksize : sb.dirblocksize ≡ be32 buf 4 * 2 ^ buf 192 % 2 ^ 32

pub record HasSuperblock (env : Env) (sb : Sb) : Type 0 where
  pub before : Xfs
  pub done : (dev_read env 4096 0 before).0 ≡ ok tt
  pub fields : IsSuperblock (dev_read env 4096 0 before).1.buf sb

-- The number of inodes is not a field of it.
HasSuperblock-counted :
    (env : Env) (sb : Sb) (n : ℕ) → HasSuperblock env sb → HasSuperblock env (with_nallocated sb n)
HasSuperblock-counted env sb n h = record {
  before = h.before;
  done = h.done;
  fields = record {
    blocksize = h.fields.blocksize;
    rootino = h.fields.rootino;
    agblocks = h.fields.agblocks;
    agcount = h.fields.agcount;
    sectsize = h.fields.sectsize;
    inodesize = h.fields.inodesize;
    inopblock = h.fields.inopblock;
    inopblog = h.fields.inopblog;
    agblklog = h.fields.agblklog;
    icount = h.fields.icount;
    dirblocksize = h.fields.dirblocksize;
  };
}

superblock-IsSuperblock : (buf : Buf) → IsSuperblock buf (superblock buf)
unfolding superblock
superblock-IsSuperblock buf = record {
  blocksize = refl;
  rootino = refl;
  agblocks = refl;
  agcount = refl;
  sectsize = refl;
  inodesize = refl;
  inopblock = refl;
  inopblog = refl;
  agblklog = refl;
  icount = refl;
  dirblocksize = refl;
}

module _ (env : Env) (checks : ChecksMapping env.kernel) where
  -- A superblock that is there, all its groups in their order as
  -- their headers give them, the number of inodes that they have together, and two pools that
  -- nothing was handed out of.
  pub record IsOpened (IsThere : Sb → Type 0) (s : Xfs) : Type 0 where
    pub superblock_there : IsThere s.xal.sb
    pub groups : length s.ags ≡ s.xal.sb.agcount
    pub read : AllGroups env s.xal.sb 0 s.ags
    pub counted : s.xal.sb.nallocated ≡ total 0 s.ags
    pub inodes : IsFresh blank_inode env.kernel checks pool_reserved inode_nbytes s.xal.inodes
    pub extents : IsFresh blank_extent env.kernel checks pool_reserved extent_nbytes s.xal.extents

  -- A candidate as `xal_be_xfs_open` makes it: no groups, and a superblock that counts no inodes.
  record IsNew (IsThere : Sb → Type 0) (s : Xfs) : Type 0 where
    no_groups : s.ags ≡ []
    no_inodes : s.xal.sb.nallocated ≡ 0
    superblock_read : IsThere s.xal.sb

  -- The end of the open, by what calloc() and the headers give.
  abbrev with_groups : Option ℕ → Result (Unit {0}) × Xfs → Result (Option Xfs)
  with_groups o r = elim o [
    | some e ↦ return_errno env
    | none ↦ elim r.0 [ err e ↦ err e | ok v ↦ ok (some r.1) ]
  ]

  errno_none : {t : Xfs} → return_errno env ≢ ok (some t)
  errno_none e = elim (Bool-cases (env.errno == 0)) [
    | inl z ↦ cc (rw z at e)
    | inr n ↦ cc (rw n at e)
  ]

  module _ (IsThere : Sb → Type 0)
      (counted : (sb : Sb) (n : ℕ) → IsThere sb → IsThere (with_nallocated sb n)) where
    all :
        (s s' : Xfs) (n : ℕ) (a b : Option (List ℕ))
        → IsNew IsThere s
        → Reads env s.xal.sb.agcount 0 s s'
        → (map_pool blank_inode env.kernel pool_reserved n inode_nbytes a s'.xal.inodes).0 ≡ ok tt
        → (map_pool blank_extent env.kernel pool_reserved n extent_nbytes b s'.xal.extents).0
          ≡ ok tt
        → IsOpened IsThere (
            with_extents
              (with_inodes s'
                (map_pool blank_inode env.kernel pool_reserved n inode_nbytes a s'.xal.inodes).1)
              (map_pool blank_extent env.kernel pool_reserved n extent_nbytes b s'.xal.extents).1)
    all s s' n a b new r k l =
        let g : s'.ags ≡ r.new = r.all ∙ ap (λ l. l ++ r.new) new.no_groups in
        record {
          superblock_there =
              subst IsThere (sym r.same_sb)
                (counted s.xal.sb s'.xal.sb.nallocated new.superblock_read);
          groups = ap length g ∙ r.number ∙ sym (ap (λ sb. sb.agcount) r.same_sb);
          read =
              subst (λ sb. AllGroups env sb 0 s'.ags) (sym r.same_sb)
                (subst (AllGroups env s.xal.sb 0) (sym g) r.read);
          counted = r.counted ∙ ap (λ n. total n r.new) new.no_inodes ∙ ap (total 0) (sym g);
          inodes =
              map_pool-IsFresh blank_inode env.kernel checks pool_reserved n inode_nbytes a
                s'.xal.inodes (omega arith) (omega arith) k;
          extents =
              map_pool-IsFresh blank_extent env.kernel checks pool_reserved n extent_nbytes b
                s'.xal.extents (omega arith) (omega arith) l;
        }

    map_pools-IsOpened :
        (shm_name : Option (List ℕ)) (s s' : Xfs)
        → IsNew IsThere s
        → Reads env s.xal.sb.agcount 0 s s'
        → (map_pools env shm_name s').0 ≡ ok tt
        → IsOpened IsThere (map_pools env shm_name s').1
    unfolding map_pools
    map_pools-IsOpened shm_name s s' new r e =
        let n = s'.xal.sb.nallocated in
        let a = shm_with suffix_inodes shm_name in
        let b = shm_with suffix_extents shm_name in
        let inodes_of =
          map_pool blank_inode env.kernel pool_reserved n inode_nbytes a s'.xal.inodes in
        let extents_of =
          map_pool blank_extent env.kernel pool_reserved n extent_nbytes b s'.xal.extents in
        elim (Bool-cases (is_too_long shm_name)) [
          | inl long ↦ cc (rw long at e)
          | inr short ↦ elim (Result-cases inodes_of.0) [
            | inr (c, k) ↦ cc (rw (short, k) at e)
            | inl (v, k) ↦ elim (Result-cases extents_of.0) [
              | inr (c, l) ↦ cc (rw (short, k, l) at e)
              | inl (w, l) ↦ rw (short, k) (all s s' n a b new r k l)
            ]
          ]
        ]

    open_headers-IsOpened :
        (shm_name : Option (List ℕ)) (s : Xfs)
        → IsNew IsThere s
        → (open_headers env shm_name s).0 ≡ ok tt
        → IsOpened IsThere (open_headers env shm_name s).1
    unfolding open_headers
    open_headers-IsOpened shm_name s new e =
        elim (Result-cases (ag_loop env s.xal.sb.agcount 0 s).0) [
          | inr (c, m) ↦ cc (rw m at e)
          | inl (u, m) ↦ rw m (
              map_pools-IsOpened shm_name s (ag_loop env s.xal.sb.agcount 0 s).1 new
                (ag_loop-Reads env s.xal.sb.agcount 0 s m) (rw m at e))
        ]

    candidate-IsNew :
        (buf : Buf) → IsThere (superblock buf) → IsNew IsThere (candidate buf (superblock buf))
    unfolding superblock
    candidate-IsNew buf there = record {
      no_groups = refl;
      no_inodes = refl;
      superblock_read = there;
    }

    -- The open behind the allocation of the handle.
    finish :
        (shm_name : Option (List ℕ)) (buf : Buf) {t : Xfs}
        → IsThere (superblock buf)
        → with_groups
            (env.calloc ((superblock buf).agcount * 32 % 2 ^ 64))
            (open_headers env shm_name (candidate buf (superblock buf)))
          ≡ ok (some t)
        → IsOpened IsThere t
    finish shm_name buf {t} first e =
        elim (Option-cases (env.calloc ((superblock buf).agcount * 32 % 2 ^ 64))) [
          | inr (c, m) ↦ absurd (errno_none (simp m at e))
          | inl m ↦
              let f = simp m at e in
              elim (Result-cases (open_headers env shm_name (candidate buf (superblock buf))).0) [
                | inr (c, k) ↦ cc (simp (k, with_groups) at f)
                | inl (v, k) ↦
                    let g = simp (k, with_groups) at f in
                    let h : (open_headers env shm_name (candidate buf (superblock buf))).1 ≡ t =
                      cc g in
                    subst (IsOpened IsThere) h (
                      open_headers-IsOpened shm_name (candidate buf (superblock buf))
                        (candidate-IsNew buf first) k)
              ]
        ]

  -- An open that gives a handle has the superblock that a read of the first 4096 bytes has given,
  -- and all its groups, in their order, each with its number, magic numbers and fields as a read
  -- of four sectors at its offset has given them; it has summed up their inodes, and has mapped
  -- two valid pools, of inodes and of extents, out of which nothing is handed out. This supposes
  -- that mprotect() refuses what is not mapped.
  pub xfs_open-IsOpened :
      (shm_name : Option (List ℕ)) {t : Xfs}
      → xfs_open env shm_name ≡ ok (some t)
      → IsOpened (HasSuperblock env) t
  unfolding xfs_open superblock
  xfs_open-IsOpened shm_name {t} e = elim (Option-cases env.buf_alloc) [
    | inl m ↦ absurd (errno_none (simp (m, xfs_open) at e))
    | inr (buf, m) ↦
        let f = simp (m, xfs_open) at e in
        let s = (dev_read env 4096 0 (candidate buf blank_sb)).1 in
        let sb = superblock s.buf in
        elim (Result-cases (dev_read env 4096 0 (candidate buf blank_sb)).0) [
          | inr (c, k) ↦ absurd (errno_none (simp k at f))
          | inl (u, k) ↦
              let g = simp k at f in
              elim (Option-cases (env.calloc 1)) [
                | inr (c, l) ↦ absurd (errno_none (simp l at g))
                | inl l ↦
                    finish (HasSuperblock env) (HasSuperblock-counted env) shm_name s.buf
                      (record {
                        before = candidate buf blank_sb;
                        done = k;
                        fields = superblock-IsSuperblock s.buf;
                      })
                      (simp l at g)
              ]
        ]
  ]
