-- ===== src/Fiemap/Events.antt =====
-- The watching of a mounted file system: src/xal_be_fiemap_inotify.c from `check_events` on.
use xallib.Prelude.{
  ℕ, zero, suc, ◌+◌, ◌-◌, ◌/◌, ◌%◌, Bool, true, false, not, ◌||◌, inl, inr, Option, none, some,
  List, [], ◌∷◌, length, take, ltb, ◌==◌, if◌then◌else◌,
}
use xallib.Result.{Exec, Result, ok, err, einval, os, ◌>>=◌}
use xallib.Types.{Xal, fiemap, idx_none, inode_at}
use xallib.Walk.{inode_is_dir}
use xallib.Paths.{str_eq, path_of}
use xallib.Fiemap.State.{
  Env, Fiemap, Inotify, WatchMode, dirty_detection, is_watching, self_at, with_xal, put_inode,
  lock_step,
}
use xallib.Fiemap.Watch.{with_inotify}
use xallib.Fiemap.Files.{process_inode_file}

-- `struct inotify_event`
pub record InotifyEvent : Type 0 where
  pub wd : ℕ
  pub mask : ℕ
  pub event_name : List ℕ

-- Bits of `mask`
abbrev pub in_modify : ℕ
in_modify = 0x2

abbrev pub in_close_write : ℕ
in_close_write = 0x8

abbrev pub in_moved_from : ℕ
in_moved_from = 0x40

abbrev pub in_moved_to : ℕ
in_moved_to = 0x80

abbrev pub in_create : ℕ
in_create = 0x100

abbrev pub in_delete : ℕ
in_delete = 0x200

abbrev pub in_unmount : ℕ
in_unmount = 0x2000

-- `mask & bit`, for a single bit
abbrev pub has_bit : (mask bit : ℕ) → Bool
has_bit mask bit = mask / bit % 2 == 1

-- A file was written.
abbrev pub is_write : (mask : ℕ) → Bool
is_write mask = has_bit mask in_modify || has_bit mask in_close_write

-- A name came or went: `mask & (IN_CREATE | IN_DELETE | IN_MOVE)`.
abbrev pub is_breaking : (mask : ℕ) → Bool
is_breaking mask =
    has_bit mask in_create
    || has_bit mask in_delete
    || has_bit mask in_moved_from
    || has_bit mask in_moved_to

-- `sizeof(path)`
abbrev pub path_nbytes : ℕ
path_nbytes = 255

abbrev pub is_dirty_detection : WatchMode → Bool
is_dirty_detection dirty_detection = true
is_dirty_detection _ = false

-- The loop for the child with a path, over `left` children from `idx` on.
unfoldable pub find_child : Xal → (path : List ℕ) → (idx left : ℕ) → Option ℕ
find_child xal path idx zero = none
find_child xal path idx (suc left) =
    let later = find_child xal path (idx + 1) left in
    if str_eq (inode_at xal idx).name path then some idx else later

module _ (env : Env) where
  -- The new size of a file.
  unfoldable pub update_size : (path : List ℕ) (inode : ℕ) → Exec Fiemap (Unit {0})
  update_size path inode s = elim (env.stat path) [
    | inl e ↦ (err (os e), s)
    | inr st ↦ put_inode inode (record (self_at s inode) { size = st.st_size }) s
  ]

  -- What is done between the two steps of `seq_lock` for a file that was written.
  unfoldable pub update_locked : (dir_inode : ℕ) (path : List ℕ) → Exec Fiemap (Unit {0})
  update_locked dir_inode path s =
      elim (find_child s.xal path (self_at s dir_inode).content.idx
        (self_at s dir_inode).content.count) [
          | none ↦ (err einval, s)
          | some inode ↦ (process_inode_file env path inode >>= λ _. update_size path inode) s
        ]

  -- The branch for IN_MODIFY and IN_CLOSE_WRITE. The path starts with `namelen` bytes of the name.
  unfoldable pub update_event : Inotify → InotifyEvent → Exec Fiemap (Unit {0})
  update_event inotify event s = elim (inotify.inode_map event.wd) [
    | none ↦ (err einval, s)
    | some dir_inode ↦
        let dir = self_at s dir_inode in
        let path = path_of (take dir.namelen dir.name) event.event_name in
        if not (inode_is_dir dir)
        then (err einval, s)
        else if ltb path_nbytes (dir.namelen + 1 + length event.event_name + 1)
        then (err einval, s)
        else let (r, s') = update_locked dir_inode path (lock_step s) in (r, lock_step s')
  ]

  -- `check_events`, on the events that the reads give up to the first that gives none; whether the
  -- index is to be marked dirty.
  unfoldable pub check_events : Inotify → List InotifyEvent → Exec Fiemap Bool
  check_events inotify [] s = (ok false, s)
  check_events inotify (event ∷ events) s =
      let rest = check_events inotify events in
      if is_dirty_detection inotify.watch_mode
      then (ok true, s)
      else if has_bit event.mask in_unmount
      then (err einval, s)
      else if is_write event.mask
      then (update_event inotify event >>= λ _. rest) s
      else if is_breaking event.mask
      then (ok true, s)
      else rest s

  -- `flag |= RUNNING` and `flag &= ~RUNNING`, with RUNNING the lowest bit.
  abbrev pub set_running : Inotify → Inotify
  set_running inotify = record inotify { flag = inotify.flag - inotify.flag % 2 + 1 }

  abbrev pub clear_running : Inotify → Inotify
  clear_running inotify = record inotify { flag = inotify.flag - inotify.flag % 2 }

  -- The label `exit_thread`.
  abbrev pub exit_thread : Fiemap → Fiemap
  exit_thread s = elim s.inotify [
    | none ↦ s
    | some inotify ↦ with_inotify s (clear_running inotify)
  ]

  -- A round of the loop in `background_thread_start` with the events that it reads, and whether
  -- there is a next round; `cb` is what the callback does.
  unfoldable pub thread_round :
      (cb : Fiemap → Fiemap) → Inotify → List InotifyEvent → Fiemap → Bool × Fiemap
  thread_round cb inotify events s =
      if s.xal.dirty
      then (true, s)
      else (let (r, s') = check_events inotify events s in
          elim r [
            | err e ↦ (false, exit_thread s')
            | ok false ↦ (true, s')
            | ok true ↦
                let marked = with_xal s' (record s'.xal { dirty = true }) in
                (true, if inotify.has_cb then cb marked else marked)
          ])

  -- The start and the end of the thread.
  pub thread_start : Inotify → Exec Fiemap (Unit {0})
  thread_start inotify s = elim env.pthread_setcancelstate [
    | none ↦ (ok tt, with_inotify s (set_running inotify))
    | some e ↦ (err (os e), with_inotify s (clear_running (set_running inotify)))
  ]

  -- What the two functions check first: the backend, and an inotify object that watches.
  abbrev pub watching : Fiemap → Result Inotify
  watching s = elim s.xal.backend [
    | fiemap ↦ elim s.inotify [
      | none ↦ err einval
      | some inotify ↦ if is_watching inotify.watch_mode then ok inotify else err einval
    ]
    | _ ↦ err einval
  ]

  -- `xal_watch_filesystem`, with whether a callback is given.
  unfoldable pub watch_filesystem : (cb : Bool) → Exec Fiemap (Unit {0})
  watch_filesystem cb s = elim (watching s) [
    | err e ↦ (err e, s)
    | ok inotify ↦
        if inotify.flag % 2 == 1
        then (ok tt, s)
        else if s.xal.root_idx == idx_none
        then (err einval, s)
        else (let inotify' : Inotify = record inotify { has_cb = cb } in
            elim env.pthread_create [
              | inl e ↦ (err (os e), with_inotify s inotify')
              | inr id ↦ (ok tt, with_inotify s (record inotify' { watch_thread_id = id }))
            ])
  ]

  -- `xal_stop_watching_filesystem`. The test is of the bits of `flag` but the lowest; the first of
  -- the two `pthread_cancel`s is not looked at.
  unfoldable pub stop_watching_filesystem : Exec Fiemap (Unit {0})
  stop_watching_filesystem s = elim (watching s) [
    | err e ↦ (err e, s)
    | ok inotify ↦
        if inotify.flag / 2 == 0
        then (elim (env.pthread_cancel inotify.watch_thread_id) [
          | some e ↦ (err (os e), s)
          | none ↦ (ok tt, with_inotify s (clear_running inotify))
        ])
        else (err einval, s)
  ]
