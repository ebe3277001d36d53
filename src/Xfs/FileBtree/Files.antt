-- ===== src/Xfs/FileBtree/Files.antt =====
-- What `process_dinode_file_extents` and `process_dinode_file_btree_root` leave for a file.
use xallib.Prelude.{ℕ, ◌+◌, ◌%◌, ◌^◌, ◌≡◌, ◌∙◌, ap, sym, inl, inr, Bool-cases, ltb, ◌==◌, arith}
use xallib.Result.{ok, Result-cases}
use xallib.Pool.{Pool, claim_extents}
use xallib.Pool.Bounds.{ChecksMapping}
use xallib.Pool.Claims.{claim_extents-Granted}
use xallib.Types.{Xal, Extent, blank_extent}
use xallib.Bytes.{Buf, be16}
use xallib.Xfs.State.{Env, Xfs, self_at, put_content, update_self, update_ne}
use xallib.Xfs.Btree.{dinode_nbytes}
use xallib.Xfs.ExtentRecord.{extent_of_pair}
use xallib.Xfs.FileBtree.{
  dinode_nextents, root_pointer, process_dinode_file_btree_root, process_dinode_file_extents,
}
use xallib.Extents.Fill.{free_small}
use xallib.Extents.Held.{IsReady, Holds, Lists, with_content, whole-Holds, whole-Lists}
use xallib.Xfs.FileBtree.Store.{store_loop_lem}
use xallib.Xfs.FileBtree.Contiguous.{Appends}
use xallib.Xfs.FileBtree.Tree.{
  child_of, child_of-Appending, node-Appending, pointers_loop-Appending,
}

-- The inode before the first pointer of the root.
abbrev started : (self : ℕ) → Xfs → Xfs
started self s = (put_content self (s.xal.extents.free % 2 ^ 32) 0 s).1

started_self :
    (self : ℕ) (s : Xfs)
    → self_at (started self s) self ≡ with_content (self_at s self) (s.xal.extents.free % 2 ^ 32) 0
started_self self s = update_self s.xal.inodes.memory self _

started-IsReady : (self : ℕ) (s : Xfs) → IsReady self s.xal → IsReady self (started self s).xal
started-IsReady self s r = record {
  valid = r.valid;
  small = r.small;
  counts = rw (started_self self s) (omega arith);
}

started-Holds :
    (self : ℕ) (s : Xfs) (y : Xal)
    → IsReady self s.xal
    → Appends self (started self s).xal y
    → Holds self s.xal y
started-Holds self s y r a =
    let e = started_self self s in
    let c = a.counted in
    record {
      ready = a.ready;
      first =
          ap (λ v. v.content.idx) c
          ∙ ap (λ v. v.content.idx) e
          ∙ omega (arith, free_small s.xal.extents r.valid r.small);
      count = rw (c, e) (omega (arith, a.grows, free_small y.extents a.ready.valid a.ready.small));
      kept = a.kept;
      others = λ i ne. a.others i ne ∙ update_ne s.xal.inodes.memory self i _ (λ h. ne (sym h));
    }

module _ (env : Env) (checks : ChecksMapping env.kernel) where
  -- Where the B+tree of a file is read to its end, with a valid pool of extents of at most 2^31
  -- elements, the file has exactly the extents that were claimed meanwhile, and they are
  -- consecutive: its index is the old free index of the pool, and its count reaches to the new
  -- one. No other inode and no extent of another file changes. This supposes that mprotect()
  -- refuses what is not mapped.
  pub file_btree_root-Holds :
      (fuel : ℕ) (dinode : Buf) (self : ℕ) (s : Xfs)
      → IsReady self s.xal
      → (process_dinode_file_btree_root env fuel dinode self s).0 ≡ ok tt
      → Holds self s.xal (process_dinode_file_btree_root env fuel dinode self s).1.xal
  unfolding process_dinode_file_btree_root
  file_btree_root-Holds fuel dinode self s r e =
      let level = be16 dinode dinode_nbytes in
      elim (Bool-cases (ltb level 1)) [
        | inl low ↦ cc (rw low at e)
        | inr deep ↦ elim (Bool-cases ((self_at s self).content.count == 0)) [
          | inr full ↦ cc (rw (deep, full) at e)
          | inl new ↦
              rw (deep, new)
                (started-Holds self s _ r (
                  pointers_loop-Appending env checks (child_of env checks (level == 1) fuel self)
                    (root_pointer s.xal.sb dinode) (be16 dinode (dinode_nbytes + 2)) 0 self
                    (child_of-Appending env checks (level == 1) fuel self
                      (λ child. node-Appending env checks fuel child self))
                    (started self s) (started-IsReady self s r) (rw (deep, new) at e)))
        ]
      ]

  -- Where the extents stand in the dinode itself, with a valid pool of extents of at most 2^31
  -- elements, the file has the extents that `extent_of_pair` gives, `dinode_nextents` of them, in
  -- their order and consecutive. No other inode and no extent of another file changes. This supposes
  -- that mprotect() refuses what is not mapped.
  pub file_extents-Holds :
      (dinode : Buf) (self : ℕ) (s : Xfs)
      → IsReady self s.xal
      → (process_dinode_file_extents env dinode self s).0 ≡ ok tt
      → Holds self s.xal (process_dinode_file_extents env dinode self s).1.xal
        × Lists
            (dinode_nextents dinode)
            (extent_of_pair dinode dinode_nbytes)
            s.xal
            (process_dinode_file_extents env dinode self s).1.xal
  unfolding process_dinode_file_extents
  file_extents-Holds dinode self s r e =
      let n = dinode_nextents dinode in
      elim (Result-cases (claim_extents blank_extent env.kernel n s.xal.extents).0) [
        | inr (c, m) ↦ cc (rw m at e)
        | inl (idx, m) ↦
            let p : Pool Extent = (claim_extents blank_extent env.kernel n s.xal.extents).1 in
            let g =
              claim_extents-Granted blank_extent env.kernel checks n s.xal.extents r.valid
                (free_small s.xal.extents r.valid r.small) m in
            rw (m, store_loop_lem)
              (
                whole-Holds self n idx (extent_of_pair dinode dinode_nbytes) s.xal p r g,
                whole-Lists self n idx (extent_of_pair dinode dinode_nbytes) s.xal p r g,
              )
      ]
