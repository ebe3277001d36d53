-- ===== src/Fiemap/Search.antt =====
-- Looking up an inode by its path: `search_by_traversal`, the path table, and `xal_get_inode` with
-- `xal_get_extents` and `xal_get_dentries`.
pub mod Named
pub mod Traversal
pub mod Table
pub mod Hashmap
pub mod Lookup
use Prim.Native.Nat.{Ordering}
use xallib.Prelude.{
  ℕ, zero, suc, ◌+◌, Bool, true, false, not, Option, none, some, List, length, leb, ltb, ◌==◌,
  if◌then◌else◌,
}
use xallib.Result.{
  Exec, Result, ok, err, einval, eio, enoent, enomem, enotdir, stuck, pure, ◌>>=◌, ◌>>◌,
}
use xallib.Types.{Xal, Backend, fiemap, Inode, Content, inode_at}
use xallib.Walk.{inode_is_dir, inode_is_file}
use xallib.Paths.{strcmp, starts_with, skip, split_slash, basename}
use xallib.Fiemap.State.{Env, Fiemap, PathTable, empty_table, self_at}

-- `compare_name_to_inode` of a component with the inode at an index
unfoldable pub compare_name_to_inode : Xal → List ℕ → ℕ → Ordering
compare_name_to_inode xal component i = strcmp component (basename (inode_at xal i).name)

module _ (env : Env) where
  -- The loop of `search_by_traversal`, at the inode `search` and the rest of the path. Each round
  -- takes a `/` off the path, so fuel above its length is enough.
  unfoldable pub search_loop : (fuel : ℕ) → Xal → (search : ℕ) → List ℕ → Result ℕ
  search_loop zero xal search path = err stuck
  search_loop (suc fuel) xal search path =
      let content = (inode_at xal search).content in
      elim (env.bsearch (compare_name_to_inode xal (split_slash path).0) content.idx
        content.count) [
          | none ↦ err enoent
          | some child ↦ elim (split_slash path).1 [
            | none ↦ ok child
            | some rest ↦ search_loop fuel xal child rest
          ]
        ]

  -- The byte of the path behind the mountpoint is not looked at.
  unfoldable pub search_by_traversal : Xal → (mountpoint : List ℕ) → (root : ℕ) → List ℕ → Result ℕ
  search_by_traversal xal mountpoint root path =
      if leb (length path) (length mountpoint + 1)
      then err einval
      else if starts_with mountpoint path
      then search_loop (suc (length path)) xal root (skip (length mountpoint + 1) path)
      else err einval

  -- `kh_put` with the store of its value, in the table that there is.
  unfoldable pub put_path : (key : List ℕ) (inode : ℕ) → Exec Fiemap (Unit {0})
  put_path key inode s = elim s.path_inode_map [
    | none ↦ (ok tt, s)
    | some map ↦ elim (env.kh_put_path map key inode) [
      | none ↦ (err eio, s)
      | some map' ↦ (ok tt, record s { path_inode_map = some map' })
    ]
  ]

  -- The loop of `build_hashmap_walk` over `left` children from `idx` on.
  unfoldable pub build_children :
      (visit : ℕ → Exec Fiemap (Unit {0})) (idx left : ℕ) → Exec Fiemap (Unit {0})
  build_children visit idx zero s = (ok tt, s)
  build_children visit idx (suc left) s = (visit idx >>= λ _. build_children visit (idx + 1) left) s

  -- The fuel is the depth of the tree.
  unfoldable pub build_hashmap_walk : (fuel inode : ℕ) → Exec Fiemap (Unit {0})
  build_hashmap_walk zero inode s = (err stuck, s)
  build_hashmap_walk (suc fuel) inode s =
      let deeper = λ (child : ℕ). build_hashmap_walk fuel child in
      let self = self_at s inode in
      ((if ltb 0 self.namelen then put_path self.name inode else pure tt) >>= λ _.
      if inode_is_dir self
      then build_children deeper self.content.idx self.content.count
      else pure tt)
        s

  -- A walk that fails destroys the table.
  unfoldable pub build_lookup_hashmap : (fuel : ℕ) → Exec Fiemap (Unit {0})
  build_lookup_hashmap fuel s = elim s.xal.backend [
    | fiemap ↦
        if env.kh_init
        then (let (r, s') =
              build_hashmap_walk fuel s.xal.root_idx
                (record s { path_inode_map = some empty_table }) in
            elim r [ ok u ↦ (ok tt, s') | err e ↦ (err e, record s' { path_inode_map = none }) ])
        else (err enomem, record s { path_inode_map = none })
    | _ ↦ (err einval, s)
  ]

  -- A path that the table has not gives -EINVAL, one that the traversal does not find -ENOENT.
  unfoldable pub get_inode : Fiemap → (path : List ℕ) → Result ℕ
  get_inode s path = elim s.xal.backend [
    | fiemap ↦ elim s.path_inode_map [
      | some map ↦ elim (map path) [ none ↦ err einval | some i ↦ ok i ]
      | none ↦ search_by_traversal s.xal s.mountpoint s.xal.root_idx path
    ]
    | _ ↦ err einval
  ]

  pub get_extents : Fiemap → (path : List ℕ) → Result Content
  get_extents s path = elim (get_inode s path) [
    | err e ↦ err e
    | ok i ↦ if inode_is_file (self_at s i) then ok (self_at s i).content else err einval
  ]

  pub get_dentries : Fiemap → (path : List ℕ) → Result Content
  get_dentries s path = elim (get_inode s path) [
    | err e ↦ err e
    | ok i ↦ if inode_is_dir (self_at s i) then ok (self_at s i).content else err enotdir
  ]
