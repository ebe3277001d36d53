-- ===== src/Fiemap/Frames.antt =====
-- What the functions of src/xal_be_fiemap.c that recur over directories leave alone.
use xallib.Prelude.{
  ℕ, zero, suc, ◌+◌, Bool-cases, inl, inr, Option-cases, List, [], ◌∷◌, length, ◌==◌,
}
use xallib.Result.{Exec, ◌>>=◌}
use xallib.Types.{blank_inode, ftype_of_mode, ft_dir, ft_reg_file}
use xallib.Walk.{inode_is_dir}
use xallib.Paths.{path_of}
use xallib.Pool.{claim_inodes}
use xallib.Fiemap.State.{Env, Fiemap, self_at, put_inode, put_content, on_inodes}
use xallib.Fiemap.Watch.{add_watcher}
use xallib.Fiemap.Search.{put_path}
use xallib.Fiemap.Index.{
  read_dir, name_dentry, count_dentry, process_entry, process_entries, fill_dir, process_inode_dir,
  compare_dirent, process_content, process_ino,
}
use xallib.Fiemap.Keeps.{
  Keeps-nil, Frames, bind-Frames, touched, call_cases, put_path-Frames, process_inode_file-Frames,
  add_watcher-Frames, read_dir-Frames, name_dentry-Frames,
}

module _ (env : Env) where
  process_entry-Frames :
      (process : List ℕ → ℕ → Exec Fiemap (Unit {0})) (path : List ℕ) (inode : ℕ) (name : List ℕ)
      → ((p : List ℕ) (i : ℕ) → Frames (process p i))
      → Frames (process_entry env process path inode name)
  unfolding process_entry count_dentry
  process_entry-Frames process path inode name h s =
      let dentry = (self_at s inode).content.idx + (self_at s inode).content.count in
      let p = path_of path name in
      bind-Frames (name_dentry env dentry p inode)
        (λ _. count_dentry env inode >>= λ _. process p dentry)
        (name_dentry-Frames env dentry p inode)
        (λ _.
          bind-Frames (count_dentry env inode) (λ _. process p dentry)
            (λ t. touched t _ t.xal.extents t.inotify t.path_inode_map) (λ _. h p dentry))
        s

  process_entries-Frames :
      (process : List ℕ → ℕ → Exec Fiemap (Unit {0})) (path : List ℕ) (inode : ℕ)
      (names : List (List ℕ))
      → ((p : List ℕ) (i : ℕ) → Frames (process p i))
      → Frames (process_entries env process path inode names)
  unfolding process_entries
  process_entries-Frames process path inode [] h s = Keeps-nil s
  process_entries-Frames process path inode (name ∷ names) h s =
      bind-Frames (process_entry env process path inode name) _
        (process_entry-Frames process path inode name h)
        (λ a. process_entries-Frames process path inode names h) s

  fill_dir-Frames :
      (process : List ℕ → ℕ → Exec Fiemap (Unit {0})) (path : List ℕ) (inode : ℕ)
      (names : List (List ℕ)) (inodes_idx : ℕ)
      → ((p : List ℕ) (i : ℕ) → Frames (process p i))
      → Frames (fill_dir env process path inode names inodes_idx)
  unfolding fill_dir
  fill_dir-Frames process path inode names inodes_idx h s =
      let named = λ (t : Fiemap). put_path env (self_at t inode).name inode t in
      bind-Frames (put_content inode inodes_idx 0)
        (λ _. process_entries env process path inode names >>= λ _. named)
        (λ t. touched t _ t.xal.extents t.inotify t.path_inode_map)
        (λ _.
          bind-Frames (process_entries env process path inode names) (λ _. named)
            (process_entries-Frames process path inode names h)
            (λ _ t. put_path-Frames env (self_at t inode).name inode t))
        s

  process_inode_dir-Frames :
      (process : List ℕ → ℕ → Exec Fiemap (Unit {0})) (path : List ℕ) (inode : ℕ)
      → ((p : List ℕ) (i : ℕ) → Frames (process p i))
      → Frames (process_inode_dir env process path inode)
  unfolding process_inode_dir
  process_inode_dir-Frames process path inode h s =
      let fill = λ (es : List (List ℕ)) (i : ℕ).
        fill_dir env process path inode (env.qsort compare_dirent es) i in
      let claim =
        λ (es : List (List ℕ)). on_inodes (claim_inodes blank_inode env.kernel (length es)) in
      elim (Bool-cases (inode_is_dir (self_at s inode))) [
        | inr other ↦ rw other (Keeps-nil s)
        | inl dir ↦ rw dir (
            bind-Frames (add_watcher env path inode)
              (λ _. read_dir env path >>= λ es. claim es >>= fill es)
              (add_watcher-Frames env path inode)
              (λ _.
                bind-Frames (read_dir env path) (λ es. claim es >>= fill es)
                  (read_dir-Frames env path)
                  (λ es.
                    bind-Frames (claim es) (fill es)
                      (λ t. touched t _ t.xal.extents t.inotify t.path_inode_map)
                      (λ i. fill_dir-Frames process path inode _ i h)))
              s)
      ]

  process_content-Frames :
      (process : List ℕ → ℕ → Exec Fiemap (Unit {0})) (ftype : ℕ) (path : List ℕ) (self : ℕ)
      → ((p : List ℕ) (i : ℕ) → Frames (process p i))
      → Frames (process_content env process ftype path self)
  unfolding process_content
  process_content-Frames process ftype path self h s = elim (Bool-cases (ftype == ft_dir)) [
    | inl dir ↦ rw dir (process_inode_dir-Frames process path self h s)
    | inr other ↦ elim (Bool-cases (ftype == ft_reg_file)) [
      | inl file ↦ rw (other, file) (process_inode_file-Frames env path self s)
      | inr none_of ↦ rw (other, none_of) (Keeps-nil s)
    ]
  ]

  pub process_ino-Frames :
      (fuel : ℕ) (path : List ℕ) (self : ℕ) → Frames (process_ino env fuel path self)
  unfolding process_ino
  process_ino-Frames zero path self s = Keeps-nil s
  process_ino-Frames (suc fuel) path self s = elim (call_cases (env.stat path)) [
    | inl (c, e) ↦ simp (process_ino, e) (Keeps-nil s)
    | inr (sb, e) ↦ elim (Option-cases (ftype_of_mode (self_at s self).ftype sb.st_mode)) [
      | inl f ↦ simp (process_ino, e, f) (Keeps-nil s)
      | inr (ftype, f) ↦
          simp (process_ino, e, f)
            (bind-Frames
              (put_inode self
                (record (self_at s self) { ftype = ftype; ino = sb.st_ino; size = sb.st_size }))
              (λ _. process_content env (λ p i. process_ino env fuel p i) ftype path self)
              (λ t. touched t _ t.xal.extents t.inotify t.path_inode_map)
              (λ _.
                process_content-Frames (λ p i. process_ino env fuel p i) ftype path self
                  (λ p i. process_ino-Frames fuel p i))
              s)
    ]
  ]
