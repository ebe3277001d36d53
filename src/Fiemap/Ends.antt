-- ===== src/Fiemap/Ends.antt =====
-- The functions of src/xal_be_fiemap.c that do not recur over directories do not run out of fuel.
use xallib.Prelude.{
  ℕ, ◌+◌, ◌*◌, ◌^◌, ◌≡◌, ◌≢◌, ◌∙◌, ap, Bool-cases, inl, inr, Option-cases, List, [], ◌∷◌, ◌++◌,
  length, ltb, arith,
}
use xallib.Word.{add_size}
use xallib.Result.{Exec, ok, err, stuck, Result-cases, ◌>>=◌}
use xallib.Pool.{claim_extents, take_free}
use xallib.Pool.Bounds.{ChecksMapping, make_room-ne-stuck}
use xallib.Types.{blank_extent}
use xallib.Walk.{inode_is_dir, inode_is_file}
use xallib.Fiemap.State.{Env, Fiemap, FiemapExtent, Dirent, is_watching, self_at, on_extents}
use xallib.Fiemap.Watch.{put_wd, add_watcher}
use xallib.Fiemap.Search.{put_path}
use xallib.Fiemap.Files.{extents_size, read_fiemap, fill_extents, store_extents, process_inode_file}
use xallib.Fiemap.Index.{
  is_directory_member, name_maxlen, entry_room, read_entries, read_dir, name_dentry,
}
use xallib.Fiemap.Keeps.{call_cases}

-- Running out of fuel is none of the ends.
abbrev pub Ends : {A : Type 0} → Exec Fiemap A → Type 0
Ends m = (s : Fiemap) → (m s).0 ≢ err stuck

pub bind-Ends :
    {A B : Type 0} (m : Exec Fiemap A) (k : A → Exec Fiemap B) (s : Fiemap)
    → (m s).0 ≢ err stuck
    → ((a : A) (t : Fiemap) → (m s).0 ≡ ok a → (k a t).0 ≢ err stuck)
    → ((m >>= k) s).0 ≢ err stuck
bind-Ends m k s f g h = elim (Result-cases (m s).0) [
  | inl (a, e) ↦ g a (m s).1 e (rw e at h)
  | inr (c, e) ↦
      let same : err c ≡ err stuck = rw e at h in let k : c ≡ stuck = cc same in f (e ∙ ap err k)
]

module _ (env : Env) (checks : ChecksMapping env.kernel) where
  pub put_path-Ends : (key : List ℕ) (inode : ℕ) → Ends (put_path env key inode)
  unfolding put_path
  put_path-Ends key inode s h = elim (Option-cases s.path_inode_map) [
    | inl e ↦ cc (simp (put_path, e) at h)
    | inr (m, e) ↦ elim (Option-cases (env.kh_put_path m key inode)) [
      | inl f ↦ cc (simp (put_path, e, f) at h)
      | inr (m', f) ↦ cc (simp (put_path, e, f) at h)
    ]
  ]

  claim_extents-Ends : (n : ℕ) → Ends (on_extents (claim_extents blank_extent env.kernel n))
  unfolding claim_extents take_free
  claim_extents-Ends n s h =
      ground (arith, make_room-ne-stuck blank_extent env.kernel checks n s.xal.extents)

  store_extents-Ends : (self : ℕ) (es : List FiemapExtent) → Ends (store_extents env self es)
  unfolding store_extents fill_extents
  store_extents-Ends self [] s h = cc h
  store_extents-Ends self (e ∷ es) s h =
      bind-Ends (on_extents (claim_extents blank_extent env.kernel (length (e ∷ es)))) _ s
        (claim_extents-Ends (length (e ∷ es)) s) (λ a t same k. cc k) h

  read_fiemap-ne-stuck : (path : List ℕ) → read_fiemap env path ≢ err stuck
  unfolding read_fiemap
  read_fiemap-ne-stuck path h = elim (call_cases (env.mapped_extents path)) [
    | inl (c, e) ↦ cc (simp (read_fiemap, e) at h)
    | inr (n, e) ↦ elim (Option-cases (env.realloc (add_size 32 (extents_size n)))) [
      | inr (c, f) ↦ cc (simp (read_fiemap, e, f) at h)
      | inl f ↦ elim (Bool-cases (ltb (56 * n) (2 ^ 31))) [
        | inr large ↦ cc (simp (read_fiemap, e, f, large) at h)
        | inl fits ↦ elim (call_cases (env.ioctl path n)) [
          | inl (c, g) ↦ cc (simp (read_fiemap, e, f, fits, g) at h)
          | inr (es, g) ↦ cc (simp (read_fiemap, e, f, fits, g) at h)
        ]
      ]
    ]
  ]

  pub process_inode_file-Ends : (path : List ℕ) (self : ℕ) → Ends (process_inode_file env path self)
  unfolding process_inode_file
  process_inode_file-Ends path self s h = elim (Bool-cases (inode_is_file (self_at s self))) [
    | inr other ↦ cc (rw other at h)
    | inl file ↦ elim (Option-cases (env.open_file path)) [
      | inr (c, e) ↦ cc (simp (process_inode_file, file, e) at h)
      | inl e ↦ elim (Bool-cases env.malloc) [
        | inr missed ↦ cc (simp (process_inode_file, file, e, missed) at h)
        | inl there ↦ elim (Result-cases (read_fiemap env path)) [
          | inr (c, r) ↦
              let same : err c ≡ err stuck = simp (process_inode_file, file, e, there, r) at h in
              let k : c ≡ stuck = cc same in read_fiemap-ne-stuck path (r ∙ ap err k)
          | inl (es, r) ↦
              bind-Ends (store_extents env self es)
                (λ _ t. put_path env (self_at t self).name self t) s (store_extents-Ends self es s)
                (λ a t same. put_path-Ends (self_at t self).name self t)
                (simp (process_inode_file, file, e, there, r) at h)
        ]
      ]
    ]
  ]

  pub add_watcher-Ends : (path : List ℕ) (inode : ℕ) → Ends (add_watcher env path inode)
  unfolding add_watcher put_wd
  add_watcher-Ends path inode s h = elim (Option-cases s.inotify) [
    | inl e ↦ cc (simp (add_watcher, e) at h)
    | inr (inotify, e) ↦ elim (Bool-cases (inode_is_dir (self_at s inode))) [
      | inr other ↦ cc (simp (add_watcher, e, other) at h)
      | inl dir ↦ elim (Bool-cases (is_watching inotify.watch_mode)) [
        | inr still ↦ cc (simp (add_watcher, e, dir, still) at h)
        | inl w ↦ elim (call_cases (env.inotify_add_watch path)) [
          | inl (c, f) ↦ cc (simp (add_watcher, e, dir, w, f) at h)
          | inr (wd, f) ↦ elim (Option-cases (env.kh_put_wd inotify.inode_map wd inode)) [
            | inl g ↦ cc (simp (add_watcher, put_wd, e, dir, w, f, g) at h)
            | inr (m, g) ↦ cc (simp (add_watcher, put_wd, e, dir, w, f, g) at h)
          ]
        ]
      ]
    ]
  ]

  read_entries-ne-stuck :
      (ds : List Dirent) (n capacity : ℕ) (es : List (List ℕ))
      → read_entries env ds n capacity es ≢ err stuck
  unfolding read_entries
  read_entries-ne-stuck [] n capacity es h = cc h
  read_entries-ne-stuck (d ∷ ds) n capacity es h =
      elim (Bool-cases (is_directory_member d.d_name)) [
        | inr dot ↦ read_entries-ne-stuck ds n capacity es (simp (read_entries, dot) at h)
        | inl member ↦ elim (Option-cases (entry_room env n capacity)) [
          | inl full ↦ cc (simp (read_entries, member, full) at h)
          | inr (c, room) ↦ elim (Bool-cases (env.strdup d.d_name)) [
            | inr missed ↦ cc (simp (read_entries, member, room, missed) at h)
            | inl copied ↦
                read_entries-ne-stuck ds (n + 1) c (es ++ (d.d_name ∷ []))
                  (simp (read_entries, member, room, copied) at h)
          ]
        ]
      ]

  pub read_dir-Ends : (path : List ℕ) → Ends (read_dir env path)
  unfolding read_dir
  read_dir-Ends path s h = elim (call_cases (env.opendir path)) [
    | inl (c, e) ↦ cc (simp (read_dir, e) at h)
    | inr (ds, e) ↦ read_entries-ne-stuck ds 0 0 [] (simp (read_dir, e) at h)
  ]

  pub name_dentry-Ends :
      (dentry : ℕ) (path : List ℕ) (parent : ℕ) → Ends (name_dentry env dentry path parent)
  unfolding name_dentry
  name_dentry-Ends dentry path parent s h = elim (Bool-cases (ltb name_maxlen (length path))) [
    | inl long ↦ cc (rw long at h)
    | inr fits ↦ cc (rw fits at h)
  ]
