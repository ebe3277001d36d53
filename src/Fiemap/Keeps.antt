-- ===== src/Fiemap/Keeps.antt =====
-- What the functions of src/xal_be_fiemap.c that process an inode leave alone.
use xallib.Prelude.{
  ℕ, ◌≡◌, refl, ◌∙◌, Bool-cases, ◌⊎◌, inl, inr, Option, some, Option-cases, List, [], ◌∷◌, length,
  ltb,
}
use xallib.Result.{Exec, Result-cases, ◌>>=◌}
use xallib.Types.{blank_extent, Inode, Extent}
use xallib.Walk.{inode_is_dir, inode_is_file}
use xallib.Pool.{Pool, claim_extents}
use xallib.Fiemap.State.{
  Env, Fiemap, Inotify, PathTable, FiemapExtent, self_at, on_extents, is_watching,
}
use xallib.Fiemap.Watch.{put_wd, add_watcher}
use xallib.Fiemap.Search.{put_path}
use xallib.Fiemap.Files.{read_fiemap, fill_extents, store_extents, process_inode_file}
use xallib.Fiemap.Index.{name_maxlen, read_dir, name_dentry}

-- Between two states only the pools, the inotify object and the path table differ.
pub record Keeps (s t : Fiemap) : Type 0 where
  pub same_lock : t.xal.seq_lock ≡ s.xal.seq_lock
  pub same_dirty : t.xal.dirty ≡ s.xal.dirty
  pub same_root : t.xal.root_idx ≡ s.xal.root_idx
  pub same_sb : t.xal.sb ≡ s.xal.sb
  pub same_backend : t.xal.backend ≡ s.xal.backend
  pub same_mountpoint : t.mountpoint ≡ s.mountpoint

pub Keeps-nil : (s : Fiemap) → Keeps s s
Keeps-nil s = record {
  same_lock = refl;
  same_dirty = refl;
  same_root = refl;
  same_sb = refl;
  same_backend = refl;
  same_mountpoint = refl;
}

pub Keeps-join : (s t u : Fiemap) → Keeps s t → Keeps t u → Keeps s u
Keeps-join s t u a b = record {
  same_lock = b.same_lock ∙ a.same_lock;
  same_dirty = b.same_dirty ∙ a.same_dirty;
  same_root = b.same_root ∙ a.same_root;
  same_sb = b.same_sb ∙ a.same_sb;
  same_backend = b.same_backend ∙ a.same_backend;
  same_mountpoint = b.same_mountpoint ∙ a.same_mountpoint;
}

-- What holds of the states before and after.
abbrev pub Frames : {A : Type 0} → Exec Fiemap A → Type 0
Frames m = (s : Fiemap) → Keeps s (m s).1

pub bind-Frames :
    {A B : Type 0} (m : Exec Fiemap A) (k : A → Exec Fiemap B)
    → Frames m
    → ((a : A) → Frames (k a))
    → Frames (m >>= k)
bind-Frames m k f g s = elim (Result-cases (m s).0) [
  | inl (a, e) ↦ rw e (Keeps-join s (m s).1 _ (f s) (g a (m s).1))
  | inr (c, e) ↦ rw e (f s)
]

-- The pools, the inotify object and the path table are others.
pub touched :
    (s : Fiemap) (inodes : Pool Inode) (extents : Pool Extent) (inotify : Option Inotify)
    (map : Option PathTable)
    → Keeps s (record s {
      xal = record s.xal { inodes = inodes; extents = extents };
      inotify = inotify;
      path_inode_map = map;
    })
touched s inodes extents inotify map = record {
  same_lock = refl;
  same_dirty = refl;
  same_root = refl;
  same_sb = refl;
  same_backend = refl;
  same_mountpoint = refl;
}

pub call_cases : {A : Type 0} (r : ℕ ⊎ A) → ((e : ℕ) × (r ≡ inl e)) ⊎ ((a : A) × (r ≡ inr a))
call_cases (inl e) = inl (e, refl)
call_cases (inr a) = inr (a, refl)

module _ (env : Env) where
  pub put_path-Frames : (key : List ℕ) (inode : ℕ) → Frames (put_path env key inode)
  unfolding put_path
  put_path-Frames key inode s = elim (Option-cases s.path_inode_map) [
    | inl e ↦ simp (put_path, e) (Keeps-nil s)
    | inr (m, e) ↦ elim (Option-cases (env.kh_put_path m key inode)) [
      | inl f ↦ simp (put_path, e, f) (Keeps-nil s)
      | inr (m', f) ↦
          simp (put_path, e, f) (touched s s.xal.inodes s.xal.extents s.inotify (some m'))
    ]
  ]

  store_extents-Frames : (self : ℕ) (es : List FiemapExtent) → Frames (store_extents env self es)
  unfolding store_extents fill_extents
  store_extents-Frames self [] s = Keeps-nil s
  store_extents-Frames self (e ∷ es) s =
      bind-Frames (on_extents (claim_extents blank_extent env.kernel (length (e ∷ es)))) _
        (λ t. touched t t.xal.inodes _ t.inotify t.path_inode_map)
        (λ a t. touched t _ _ t.inotify t.path_inode_map) s

  pub process_inode_file-Frames :
      (path : List ℕ) (self : ℕ) → Frames (process_inode_file env path self)
  unfolding process_inode_file
  process_inode_file-Frames path self s = elim (Bool-cases (inode_is_file (self_at s self))) [
    | inr other ↦ rw other (Keeps-nil s)
    | inl file ↦ elim (Option-cases (env.open_file path)) [
      | inr (c, e) ↦ simp (process_inode_file, file, e) (Keeps-nil s)
      | inl e ↦ elim (Bool-cases env.malloc) [
        | inr missed ↦ simp (process_inode_file, file, e, missed) (Keeps-nil s)
        | inl there ↦ elim (Result-cases (read_fiemap env path)) [
          | inr (c, r) ↦ simp (process_inode_file, file, e, there, r) (Keeps-nil s)
          | inl (es, r) ↦
              simp (process_inode_file, file, e, there, r)
                (bind-Frames (store_extents env self es)
                  (λ _ t. put_path env (self_at t self).name self t) (store_extents-Frames self es)
                  (λ a t. put_path-Frames (self_at t self).name self t) s)
        ]
      ]
    ]
  ]

  put_wd-Frames : (inotify : Inotify) (wd inode : ℕ) → Frames (put_wd env inotify wd inode)
  unfolding put_wd
  put_wd-Frames inotify wd inode s =
      elim (Option-cases (env.kh_put_wd inotify.inode_map wd inode)) [
        | inl e ↦ simp (put_wd, e) (Keeps-nil s)
        | inr (m, e) ↦ simp (put_wd, e) (touched s s.xal.inodes s.xal.extents _ s.path_inode_map)
      ]

  pub add_watcher-Frames : (path : List ℕ) (inode : ℕ) → Frames (add_watcher env path inode)
  unfolding add_watcher
  add_watcher-Frames path inode s = elim (Option-cases s.inotify) [
    | inl e ↦ simp (add_watcher, e) (Keeps-nil s)
    | inr (inotify, e) ↦ elim (Bool-cases (inode_is_dir (self_at s inode))) [
      | inr other ↦ simp (add_watcher, e, other) (Keeps-nil s)
      | inl dir ↦ elim (Bool-cases (is_watching inotify.watch_mode)) [
        | inr still ↦ simp (add_watcher, e, dir, still) (Keeps-nil s)
        | inl w ↦ elim (call_cases (env.inotify_add_watch path)) [
          | inl (c, f) ↦ simp (add_watcher, e, dir, w, f) (Keeps-nil s)
          | inr (wd, f) ↦ simp (add_watcher, e, dir, w, f) (put_wd-Frames inotify wd inode s)
        ]
      ]
    ]
  ]

  pub read_dir-Frames : (path : List ℕ) → Frames (read_dir env path)
  unfolding read_dir
  read_dir-Frames path s = elim (call_cases (env.opendir path)) [
    | inl (c, f) ↦ simp (read_dir, f) (Keeps-nil s)
    | inr (ds, f) ↦ simp (read_dir, f) (Keeps-nil s)
  ]

  pub name_dentry-Frames :
      (dentry : ℕ) (path : List ℕ) (parent : ℕ) → Frames (name_dentry env dentry path parent)
  unfolding name_dentry
  name_dentry-Frames dentry path parent s = elim (Bool-cases (ltb name_maxlen (length path))) [
    | inl long ↦ rw long (Keeps-nil s)
    | inr fits ↦ rw fits (touched s _ s.xal.extents s.inotify s.path_inode_map)
  ]
