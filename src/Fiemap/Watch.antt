-- ===== src/Fiemap/Watch.antt =====
-- The watch descriptors: src/xal_be_fiemap_inotify.c from `xal_be_fiemap_inotify_init` to
-- `xal_be_fiemap_inotify_add_watcher`.
use xallib.Prelude.{ℕ, false, inl, inr, none, some, List, if◌then◌else◌}
use xallib.Result.{Exec, Result, ok, err, einval, eio, os}
use xallib.Walk.{inode_is_dir}
use xallib.Fiemap.State.{Env, Fiemap, Inotify, WatchMode, off, empty_table, is_watching, self_at}

-- A `struct xal_inotify` that was zeroed.
abbrev pub blank_inotify : Inotify
blank_inotify = record {
  watch_mode = off;
  fd = 0;
  inode_map = empty_table;
  watch_thread_id = 0;
  flag = 0;
  has_cb = false;
}

abbrev pub with_inotify : Fiemap → Inotify → Fiemap
with_inotify s inotify = record s { inotify = some inotify }

module _ (env : Env) where
  pub inotify_init : Inotify → WatchMode → Result Inotify
  inotify_init inotify watch_mode =
      if is_watching watch_mode
      then (elim env.inotify_init1 [
        | inl e ↦ err (os e)
        | inr fd ↦
            if env.kh_init
            then ok (record inotify { watch_mode = watch_mode; fd = fd; inode_map = empty_table })
            else err einval
      ])
      else ok (record inotify { watch_mode = watch_mode })

  -- `xal_be_fiemap_inotify_clear_inode_map`, where there is an inotify object.
  unfoldable pub clear_inode_map : Exec Fiemap (Unit {0})
  clear_inode_map s = elim s.inotify [
    | none ↦ (ok tt, s)
    | some inotify ↦ (ok tt, with_inotify s (record inotify { inode_map = empty_table }))
  ]

  -- `kh_put` with the store of its value.
  unfoldable pub put_wd : Inotify → (wd inode : ℕ) → Exec Fiemap (Unit {0})
  put_wd inotify wd inode s = elim (env.kh_put_wd inotify.inode_map wd inode) [
    | none ↦ (err eio, s)
    | some map ↦ (ok tt, with_inotify s (record inotify { inode_map = map }))
  ]

  -- `xal_be_fiemap_inotify_add_watcher`, where there is an inotify object.
  unfoldable pub add_watcher : (path : List ℕ) (inode : ℕ) → Exec Fiemap (Unit {0})
  add_watcher path inode s = elim s.inotify [
    | none ↦ (ok tt, s)
    | some inotify ↦
        if inode_is_dir (self_at s inode)
        then (if is_watching inotify.watch_mode
            then (elim (env.inotify_add_watch path) [
              | inl e ↦ (err (os e), s)
              | inr wd ↦ put_wd inotify wd inode s
            ])
            else (ok tt, s))
        else (err einval, s)
  ]
