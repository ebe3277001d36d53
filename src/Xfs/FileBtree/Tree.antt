-- ===== src/Xfs/FileBtree/Tree.antt =====
-- The B+tree extent list of src/xal_be_xfs.c, leaf by leaf and node by node.
use xallib.Prelude.{
  ℕ, zero, suc, ◌+◌, ◌≡◌, sym, subst, inl, inr, Bool, true, false, if◌then◌else◌, Bool-cases, ltb,
  ◌==◌, ◌&&◌,
}
use xallib.Result.{Exec, ok, Result-cases, ◌>>=◌, ◌>>◌}
use xallib.Pool.{claim_extents}
use xallib.Pool.Bounds.{ChecksMapping}
use xallib.Pool.Claims.{claim_extents-Granted}
use xallib.Types.{blank_extent}
use xallib.Bytes.{be16, be32}
use xallib.Geometry.{fsbno_offset}
use xallib.Xfs.State.{Env, Xfs, claim_extent_slots}
use xallib.Xfs.Device.{dev_read, dev_read_keeps}
use xallib.Xfs.Btree.{lfmt_nbytes}
use xallib.Xfs.FileBtree.{
  bmap_crc_magic, block_fs_bytes_max, node_pointer, store_loop, add_count, pointers_loop,
  process_file_btree_leaf, process_file_btree_node,
}
use xallib.Xfs.FileBtree.Store.{store_loop_lem}
use xallib.Extents.Fill.{free_small}
use xallib.Extents.Held.{IsReady}
use xallib.Xfs.ExtentRecord.{extent_of_pair}
use xallib.Xfs.FileBtree.Contiguous.{Appends, Appends-nil, Appends-join, leaf-Appends}

-- A function that appends extents to `self` where it succeeds.
abbrev pub Appending : (self : ℕ) → Exec Xfs (Unit {0}) → Type 0
Appending self m = (s : Xfs) → IsReady self s.xal → (m s).0 ≡ ok tt → Appends self s.xal (m s).1.xal

module _ (env : Env) (checks : ChecksMapping env.kernel) where
  -- The leaf behind its read and its checks.
  abbrev store_leaf : (self : ℕ) → Exec Xfs (Unit {0})
  store_leaf self s =
      (do
        extent_start ← claim_extent_slots env (be16 s.buf 6)
        add_count self (be16 s.buf 6)
        store_loop s.buf lfmt_nbytes extent_start (be16 s.buf 6) 0)
        s

  store_leaf-Appending : (self : ℕ) → Appending self (store_leaf self)
  store_leaf-Appending self s r e =
      elim (Result-cases (claim_extents blank_extent env.kernel (be16 s.buf 6) s.xal.extents).0) [
        | inr (c, m) ↦ cc (rw m at e)
        | inl (idx, m) ↦
            rw (m, store_loop_lem)
              (leaf-Appends self (be16 s.buf 6) idx (extent_of_pair s.buf lfmt_nbytes) s.xal _ r (
                claim_extents-Granted blank_extent env.kernel checks (be16 s.buf 6) s.xal.extents
                  r.valid (free_small s.xal.extents r.valid r.small) m))
      ]

  -- A function that follows a read.
  after_read :
      (m : Exec Xfs (Unit {0})) (count offset self : ℕ) (s : Xfs)
      → Appending self m
      → IsReady self s.xal
      → (m (dev_read env count offset s).1).0 ≡ ok tt
      → Appends self s.xal (m (dev_read env count offset s).1).1.xal
  after_read m count offset self s h r e =
      let k = (dev_read_keeps env count offset s).0 in
      subst (λ x. Appends self x (m (dev_read env count offset s).1).1.xal) k
        (h (dev_read env count offset s).1 (subst (IsReady self) (sym k) r) e)

  pub leaf-Appending : (fsbno self : ℕ) → Appending self (process_file_btree_leaf env fsbno self)
  unfolding process_file_btree_leaf
  leaf-Appending fsbno self s r e =
      let n = s.xal.sb.blocksize in
      let ofz = fsbno_offset s.xal.backend s.xal.sb fsbno in
      let s' = (dev_read env n ofz s).1 in
      elim (Result-cases (dev_read env n ofz s).0) [
        | inr (c, m) ↦ cc (rw m at e)
        | inl (u, m) ↦ elim (Bool-cases (be32 s'.buf 0 == bmap_crc_magic && be16 s'.buf 4 == 0)) [
          | inr bad ↦ cc (rw (m, bad) at e)
          | inl good ↦
              rw (m, good)
                (after_read (store_leaf self) n ofz self s (store_leaf-Appending self) r
                  (rw (m, good) at e))
        ]
      ]

  pub pointers_loop-Appending :
      (process : ℕ → Exec Xfs (Unit {0})) (pointer : ℕ → ℕ) (left rec self : ℕ)
      → ((fsbno : ℕ) → Appending self (process fsbno))
      → Appending self (pointers_loop process pointer left rec)
  unfolding pointers_loop
  pointers_loop-Appending process pointer zero rec self h s r e = Appends-nil self s.xal r
  pointers_loop-Appending process pointer (suc left) rec self h s r e =
      elim (Result-cases (process (pointer rec) s).0) [
        | inr (c, m) ↦ cc (rw m at e)
        | inl (u, m) ↦
            let a = h (pointer rec) s r m in
            rw (m, pointers_loop)
              (Appends-join self s.xal _ _ a (
                pointers_loop-Appending process pointer left (rec + 1) self h _ a.ready
                  (rw m at e)))
      ]

  abbrev pub child_of : (leaf : Bool) (fuel self : ℕ) → ℕ → Exec Xfs (Unit {0})
  child_of leaf fuel self =
      if leaf
      then (λ child. process_file_btree_leaf env child self)
      else (λ child. process_file_btree_node env fuel child self)

  -- The pointers of a node, at the state behind its read.
  abbrev visit_node : (fuel self : ℕ) → Exec Xfs (Unit {0})
  visit_node fuel self s =
      pointers_loop (child_of (be16 s.buf 4 == 1) fuel self) (node_pointer s.xal.sb s.buf)
        (be16 s.buf 6) 0 s

  pub child_of-Appending :
      (leaf : Bool) (fuel self : ℕ)
      → ((fsbno : ℕ) → Appending self (process_file_btree_node env fuel fsbno self))
      → (fsbno : ℕ) → Appending self (child_of leaf fuel self fsbno)
  child_of-Appending true fuel self h fsbno = leaf-Appending fsbno self
  child_of-Appending false fuel self h fsbno = h fsbno

  visit_node-Appending :
      (fuel self : ℕ)
      → ((fsbno : ℕ) → Appending self (process_file_btree_node env fuel fsbno self))
      → Appending self (visit_node fuel self)
  visit_node-Appending fuel self h s =
      pointers_loop-Appending _ (node_pointer s.xal.sb s.buf) (be16 s.buf 6) 0 self
        (child_of-Appending (be16 s.buf 4 == 1) fuel self h) s

  pub node-Appending :
      (fuel fsbno self : ℕ) → Appending self (process_file_btree_node env fuel fsbno self)
  unfolding process_file_btree_node
  node-Appending zero fsbno self s r e = cc
  node-Appending (suc fuel) fsbno self s r e =
      let n = s.xal.sb.blocksize in
      let ofz = fsbno_offset s.xal.backend s.xal.sb fsbno in
      let s' = (dev_read env n ofz s).1 in
      elim (Bool-cases (ltb block_fs_bytes_max n)) [
        | inl big ↦ cc (rw (big, process_file_btree_node) at e)
        | inr fits ↦ elim (Result-cases (dev_read env n ofz s).0) [
          | inr (c, m) ↦ cc (rw (fits, m, process_file_btree_node) at e)
          | inl (u, m) ↦
              elim (Bool-cases (be32 s'.buf 0 == bmap_crc_magic && ltb 0 (be16 s'.buf 4))) [
                | inr bad ↦ cc (rw (fits, m, bad, process_file_btree_node) at e)
                | inl good ↦
                    rw (fits, m, good, process_file_btree_node)
                      (after_read (visit_node fuel self) n ofz self s
                        (visit_node-Appending fuel self (λ child. node-Appending fuel child self)) r
                        (rw (fits, m, good, process_file_btree_node) at e))
              ]
        ]
      ]
