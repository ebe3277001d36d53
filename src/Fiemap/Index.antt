-- ===== src/Fiemap/Index.antt =====
-- The index of a mounted file system: `xal_be_fiemap_index` of src/xal_be_fiemap.c and what it
-- calls for directories.
use Prim.Native.Nat.{Ordering}
use xallib.Prelude.{
  ℕ, zero, suc, ◌+◌, ◌*◌, ◌%◌, ◌^◌, Bool, true, false, not, ◌&&◌, inl, inr, Option, none, some,
  List, [], ◌∷◌, ◌++◌, length, ltb, ◌==◌, update, if◌then◌else◌,
}
use xallib.Result.{
  Error, Exec, Result, ok, err, einval, enomem, enosys, eagain, overrun, stuck, os, ◌>>=◌, ◌>>◌,
}
use xallib.Pool.{claim_inodes, clear}
use xallib.Types.{idx_none, ft_dir, ft_reg_file, ftype_of_mode, blank_inode, blank_extent}
use xallib.Walk.{inode_is_dir}
use xallib.Paths.{strcmp, str_eq, path_of}
use xallib.Fiemap.State.{
  Env, Fiemap, Dirent, self_at, with_xal, put_inode, put_content, on_inodes, on_extents, lock_step,
}
use xallib.Fiemap.Watch.{clear_inode_map, add_watcher}
use xallib.Fiemap.Search.{put_path}
use xallib.Fiemap.Files.{process_inode_file}

-- `_is_directory_member`
abbrev pub is_directory_member : List ℕ → Bool
is_directory_member name = not (str_eq name (b'.' ∷ [])) && not (str_eq name (b'.' ∷ b'.' ∷ []))

-- `compare_dirent`
abbrev pub compare_dirent : List ℕ → List ℕ → Ordering
compare_dirent a b = strcmp a b

-- What a failed `stat` makes of `errno`; ENOENT is 2.
abbrev pub stat_error : ℕ → Error
stat_error e = if e == 2 then eagain else os e

-- The bytes of an inode's name.
abbrev pub name_maxlen : ℕ
name_maxlen = 255

-- `root_idx`, and the stores into the root.
abbrev pub with_root : (root : ℕ) → Fiemap → Fiemap
with_root root s = with_xal s (record s.xal {
  root_idx = root;
  inodes = record s.xal.inodes {
    memory = update s.xal.inodes.memory root (record (self_at s root) {
      ino = s.xal.sb.rootino;
      ftype = ft_dir;
      namelen = 0;
      parent_idx = idx_none;
      content = record { idx = (self_at s root).content.idx; count = 0 };
    });
  };
})

-- `atomic_store(xal->dirty, false)`
abbrev pub mark_clean : Exec Fiemap (Unit {0})
mark_clean s = (ok tt, with_xal s (record s.xal { dirty = false }))

module _ (env : Env) where
  -- `if (n_entries == capacity) { … }`: the capacity that there is then, of pointers of 8 bytes, or
  -- none if `realloc` fails.
  unfoldable pub entry_room : (n_entries capacity : ℕ) → Option ℕ
  entry_room n_entries capacity =
      if n_entries == capacity
      then (let doubled = if capacity == 0 then 64 else capacity * 2 in
          elim (env.realloc (doubled * 8)) [ none ↦ some doubled | some e ↦ none ])
      else some capacity

  -- The loop that takes the names out of a directory, behind the `n_entries` there are.
  unfoldable pub read_entries :
      List Dirent → (n_entries capacity : ℕ) → (entries : List (List ℕ)) → Result (List (List ℕ))
  read_entries [] n_entries capacity entries = ok entries
  read_entries (entry ∷ rest) n_entries capacity entries = elim (is_directory_member entry.d_name) [
    | false ↦ read_entries rest n_entries capacity entries
    | true ↦ elim (entry_room n_entries capacity) [
      | none ↦ err enomem
      | some capacity' ↦ elim (env.strdup entry.d_name) [
        | false ↦ err enomem
        | true ↦ read_entries rest (n_entries + 1) capacity' (entries ++ (entry.d_name ∷ []))
      ]
    ]
  ]

  -- `opendir` and the loop.
  unfoldable pub read_dir : (path : List ℕ) → Exec Fiemap (List (List ℕ))
  read_dir path s = elim (env.opendir path) [
    | inl e ↦ (err (os e), s)
    | inr dirents ↦ (read_entries dirents 0 0 [], s)
  ]

  -- The name and the parent of an entry; a path of more than 255 bytes does not fit the name.
  unfoldable pub name_dentry : (dentry : ℕ) (path : List ℕ) (parent : ℕ) → Exec Fiemap (Unit {0})
  name_dentry dentry path parent s =
      if ltb name_maxlen (length path)
      then (err overrun, s)
      else put_inode dentry
          (record (self_at s dentry) {
            name = path;
            namelen = length path % 2 ^ 8;
            parent_idx = parent;
          })
          s

  -- `inode->content.dentries.count += 1`
  unfoldable pub count_dentry : (inode : ℕ) → Exec Fiemap (Unit {0})
  count_dentry inode s =
      put_content inode (self_at s inode).content.idx
        (((self_at s inode).content.count + 1) % 2 ^ 32) s

  -- A round of the loop over the sorted entries; `process` is `process_ino_fiemap`.
  unfoldable pub process_entry :
      (process : List ℕ → ℕ → Exec Fiemap (Unit {0})) (path : List ℕ) (inode : ℕ) (name : List ℕ)
      → Exec Fiemap (Unit {0})
  process_entry process path inode name s =
      let dentry = (self_at s inode).content.idx + (self_at s inode).content.count in
      (do
        name_dentry dentry (path_of path name) inode
        count_dentry inode
        process (path_of path name) dentry)
        s

  unfoldable pub process_entries :
      (process : List ℕ → ℕ → Exec Fiemap (Unit {0})) (path : List ℕ) (inode : ℕ)
      → List (List ℕ)
      → Exec Fiemap (Unit {0})
  process_entries process path inode [] s = (ok tt, s)
  process_entries process path inode (name ∷ names) s =
      (process_entry process path inode name >>= λ _. process_entries process path inode names) s

  -- The inodes of a directory, from `inodes_idx` on, and its entry in the path table.
  unfoldable pub fill_dir :
      (process : List ℕ → ℕ → Exec Fiemap (Unit {0})) (path : List ℕ) (inode : ℕ)
      → List (List ℕ)
      → (inodes_idx : ℕ) → Exec Fiemap (Unit {0})
  fill_dir process path inode names inodes_idx s0 =
      (do
        put_content inode inodes_idx 0
        process_entries process path inode names
        (λ s. put_path env (self_at s inode).name inode s))
        s0

  unfoldable pub process_inode_dir :
      (process : List ℕ → ℕ → Exec Fiemap (Unit {0})) (path : List ℕ) (inode : ℕ)
      → Exec Fiemap (Unit {0})
  process_inode_dir process path inode s0 =
      if inode_is_dir (self_at s0 inode)
      then ((do
        add_watcher env path inode
        entries ← read_dir path
        inodes_idx ← on_inodes (claim_inodes blank_inode env.kernel (length entries))
        fill_dir process path inode (env.qsort compare_dirent entries) inodes_idx)
          s0)
      else (err einval, s0)

  -- The `switch (self->ftype)`
  unfoldable pub process_content :
      (process : List ℕ → ℕ → Exec Fiemap (Unit {0})) (ftype : ℕ) (path : List ℕ) (self : ℕ)
      → Exec Fiemap (Unit {0})
  process_content process ftype path self s =
      if ftype == ft_dir
      then process_inode_dir process path self s
      else if ftype == ft_reg_file
      then process_inode_file env path self s
      else (err enosys, s)

  -- `process_ino_fiemap`. The fuel is the depth of the directory tree.
  unfoldable pub process_ino : (fuel : ℕ) (path : List ℕ) (self : ℕ) → Exec Fiemap (Unit {0})
  process_ino zero path self s = (err stuck, s)
  process_ino (suc fuel) path self s =
      let deeper = λ (p : List ℕ) (i : ℕ). process_ino fuel p i in
      elim (env.stat path) [
        | inl e ↦ (err (stat_error e), s)
        | inr sb ↦ elim (ftype_of_mode (self_at s self).ftype sb.st_mode) [
          | none ↦ (err einval, s)
          | some ftype ↦
              (do
                put_inode self
                    (record (self_at s self) { ftype = ftype; ino = sb.st_ino; size = sb.st_size })
                process_content deeper ftype path self)
                s
        ]
      ]

  -- The two `xal_pool_clear`s, whose results are ignored.
  unfoldable pub clear_pools : Fiemap → Fiemap
  clear_pools s0 =
      let s1 = (on_inodes (clear blank_inode env.kernel) s0).1 in
      (on_extents (clear blank_extent env.kernel) s1).1

  -- What is done between the two steps of `seq_lock`, with the root that was claimed.
  unfoldable pub index_root : (fuel : ℕ) (root : ℕ) → Exec Fiemap (Unit {0})
  index_root fuel root s =
      let t = with_root root s in (process_ino fuel t.mountpoint root >>= λ _. mark_clean) t

  unfoldable pub index_locked : (fuel : ℕ) → Exec Fiemap (Unit {0})
  index_locked fuel s0 =
      (clear_inode_map env >>= λ _.
      on_inodes (claim_inodes blank_inode env.kernel 1) >>= index_root fuel)
        (clear_pools s0)

  -- `xal_be_fiemap_index`
  unfoldable pub index : (fuel : ℕ) → Exec Fiemap (Unit {0})
  index fuel s = elim s.mountpoint [
    | [] ↦ (err einval, s)
    | _ ∷ _ ↦ let (r, s') = index_locked fuel (lock_step s) in (r, lock_step s')
  ]
