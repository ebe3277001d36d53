-- ===== src/Fiemap/Locks.antt =====
-- `seq_lock` and the dirty flag under the functions of src/xal_be_fiemap.c and
-- src/xal_be_fiemap_inotify.c that step it.
use xallib.Prelude.{
  ℕ, ◌+◌, ◌%◌, ◌≡◌, refl, ◌∙◌, false, not, Bool-cases, ◌⊎◌, inl, inr, Option-cases, List-cases,
  List, [], ◌∷◌, length, take, ltb, arith,
}
use xallib.Result.{Error, Exec, Result, ok, err, einval, Result-cases, bind_result, ◌>>=◌}
use xallib.Walk.{inode_is_dir}
use xallib.Paths.{path_of}
use xallib.Pool.{claim_inodes}
use xallib.Types.{blank_inode}
use xallib.Fiemap.State.{Env, Fiemap, Inotify, self_at, on_inodes, lock_step}
use xallib.Fiemap.Watch.{clear_inode_map}
use xallib.Fiemap.Files.{process_inode_file}
use xallib.Fiemap.Index.{
  index, index_locked, index_root, with_root, mark_clean, clear_pools, process_ino,
}
use xallib.Fiemap.Events.{
  InotifyEvent, find_child, path_nbytes, is_dirty_detection, update_size, update_locked,
  update_event, check_events, has_bit, in_unmount, is_write, is_breaking,
}
use xallib.Fiemap.Frames.{process_ino-Frames}
use xallib.Fiemap.Keeps.{
  Keeps, Keeps-join, Keeps-nil, Frames, bind-Frames, touched, call_cases, process_inode_file-Frames,
}

-- How an indexing between the steps of `seq_lock` ends: the flag is cleared only by a success.
abbrev Ends : Fiemap → Result (Unit {0}) × Fiemap → Type 0
Ends s r =
    (r.1.xal.seq_lock ≡ s.xal.seq_lock)
    × (((r.0 ≡ ok tt) × (r.1.xal.dirty ≡ false))
        ⊎ (e : Error) × (r.0 ≡ err e) × (r.1.xal.dirty ≡ s.xal.dirty))

Ends-clean :
    (s : Fiemap) (r : Result (Unit {0}) × Fiemap)
    → r.1.xal.seq_lock ≡ s.xal.seq_lock
    → r.1.xal.dirty ≡ s.xal.dirty
    → Ends s (bind_result r (λ _. mark_clean))
Ends-clean s (ok tt, t) lock dirty = (lock, inl (refl, refl))
Ends-clean s (err e, t) lock dirty = (lock, inr (e, refl, dirty))

Ends-bind :
    {A : Type 0} (s : Fiemap) (r : Result A × Fiemap) (k : A → Exec Fiemap (Unit {0}))
    → Keeps s r.1
    → ((a : A) (t : Fiemap) → Ends t (k a t))
    → Ends s (bind_result r k)
Ends-bind s (err e, t) k keeps h = (keeps.same_lock, inr (e, refl, keeps.same_dirty))
Ends-bind s (ok a, t) k keeps h =
    let (lock, d) = h a t in
    (
      lock ∙ keeps.same_lock,
      elim d [ inl clean ↦ inl clean | inr (e, f, same) ↦ inr (e, f, same ∙ keeps.same_dirty) ],
    )

module _ (env : Env) where
  index_root-Ends : (fuel root : ℕ) (s : Fiemap) → Ends s (index_root env fuel root s)
  unfolding index_root
  index_root-Ends fuel root s =
      let k = process_ino-Frames env fuel s.mountpoint root (with_root root s) in
      Ends-clean s (process_ino env fuel s.mountpoint root (with_root root s)) k.same_lock
        k.same_dirty

  clear_inode_map-Frames : Frames (clear_inode_map env)
  unfolding clear_inode_map
  clear_inode_map-Frames s = elim (Option-cases s.inotify) [
    | inl e ↦ simp (clear_inode_map, e) (Keeps-nil s)
    | inr (i, e) ↦
        simp (clear_inode_map, e) (touched s s.xal.inodes s.xal.extents _ s.path_inode_map)
  ]

  clear_pools-Keeps : (s : Fiemap) → Keeps s (clear_pools env s)
  unfolding clear_pools
  clear_pools-Keeps s = touched s _ _ s.inotify s.path_inode_map

  index_locked-Ends : (fuel : ℕ) (s : Fiemap) → Ends s (index_locked env fuel s)
  unfolding index_locked
  index_locked-Ends fuel s =
      let cleared = clear_pools env s in
      let claim = on_inodes (claim_inodes blank_inode env.kernel 1) in
      Ends-bind s (clear_inode_map env cleared) (λ _. claim >>= index_root env fuel)
        (Keeps-join s cleared _ (clear_pools-Keeps s) (clear_inode_map-Frames cleared))
        (λ _ t.
          Ends-bind t (claim t) (index_root env fuel)
            (touched t _ t.xal.extents t.inotify t.path_inode_map) (index_root-Ends fuel))

  -- An index of a mounted file system leaves the parity of seq_lock as it was, however it ends; a
  -- success clears the dirty flag, and a failure leaves it.
  pub index-seq_lock :
      (fuel : ℕ) (s : Fiemap)
      → ((index env fuel s).1.xal.seq_lock % 2 ≡ s.xal.seq_lock % 2)
        × ((((index env fuel s).0 ≡ ok tt) × ((index env fuel s).1.xal.dirty ≡ false))
            ⊎ (e : Error) × ((index env fuel s).0 ≡ err e)
              × ((index env fuel s).1.xal.dirty ≡ s.xal.dirty))
  unfolding index
  index-seq_lock fuel s = elim (List-cases s.mountpoint) [
    | inl e ↦ simp (index, e) (refl, inr (einval, refl, refl))
    | inr (c, m, e) ↦
        let (lock, ends) = index_locked-Ends fuel (lock_step s) in
        simp (index, e) (omega (arith, lock), ends)
  ]

  update_size-Frames : (path : List ℕ) (inode : ℕ) → Frames (update_size env path inode)
  unfolding update_size
  update_size-Frames path inode s = elim (call_cases (env.stat path)) [
    | inl (c, e) ↦ simp (update_size, e) (Keeps-nil s)
    | inr (st, e) ↦ simp (update_size, e) (touched s _ s.xal.extents s.inotify s.path_inode_map)
  ]

  update_locked-Frames : (dir_inode : ℕ) (path : List ℕ) → Frames (update_locked env dir_inode path)
  unfolding update_locked
  update_locked-Frames dir_inode path s =
      elim (Option-cases (
        find_child s.xal path (self_at s dir_inode).content.idx
          (self_at s dir_inode).content.count)) [
            | inl missed ↦ simp (update_locked, missed) (Keeps-nil s)
            | inr (inode, e) ↦
                simp (update_locked, e)
                  (bind-Frames (process_inode_file env path inode) (λ _. update_size env path inode)
                    (process_inode_file-Frames env path inode) (λ _. update_size-Frames path inode)
                    s)
          ]

  update_event-seq_lock :
      (inotify : Inotify) (event : InotifyEvent) (s : Fiemap)
      → (update_event env inotify event s).1.xal.seq_lock % 2 ≡ s.xal.seq_lock % 2
  unfolding update_event
  update_event-seq_lock inotify event s = elim (Option-cases (inotify.inode_map event.wd)) [
    | inl missed ↦ simp (update_event, missed) refl
    | inr (dir, e) ↦ elim (Bool-cases (not (inode_is_dir (self_at s dir)))) [
      | inl other ↦ simp (update_event, e, other) refl
      | inr is_dir ↦
          elim (Bool-cases
            (ltb path_nbytes ((self_at s dir).namelen + 1 + length event.event_name + 1))) [
              | inl long ↦ simp (update_event, e, is_dir, long) refl
              | inr fits ↦
                  let path =
                    path_of (take (self_at s dir).namelen (self_at s dir).name) event.event_name in
                  let k = update_locked-Frames dir path (lock_step s) in
                  simp (update_event, e, is_dir, fits) (omega (arith, k.same_lock))
            ]
    ]
  ]

  -- Whatever the events are and however it ends, check_events leaves the parity of seq_lock as it
  -- was.
  pub check_events-seq_lock :
      (inotify : Inotify) (events : List InotifyEvent) (s : Fiemap)
      → (check_events env inotify events s).1.xal.seq_lock % 2 ≡ s.xal.seq_lock % 2
  unfolding check_events
  check_events-seq_lock inotify [] s = refl
  check_events-seq_lock inotify (event ∷ events) s =
      elim (Bool-cases (is_dirty_detection inotify.watch_mode)) [
        | inl dirty ↦ rw dirty refl
        | inr precise ↦ elim (Bool-cases (has_bit event.mask in_unmount)) [
          | inl gone ↦ rw (precise, gone) refl
          | inr there ↦ elim (Bool-cases (is_write event.mask)) [
            | inr reads ↦ elim (Bool-cases (is_breaking event.mask)) [
              | inl breaks ↦ rw (precise, there, reads, breaks) refl
              | inr harmless ↦
                  rw (precise, there, reads, harmless) (check_events-seq_lock inotify events s)
            ]
            | inl writes ↦ elim (Result-cases (update_event env inotify event s).0) [
              | inr (c, e) ↦
                  rw (precise, there, writes) (rw e (update_event-seq_lock inotify event s))
              | inl (a, e) ↦
                  rw (precise, there, writes)
                    (rw e (
                      check_events-seq_lock inotify events (update_event env inotify event s).1
                      ∙ update_event-seq_lock inotify event s))
            ]
          ]
        ]
      ]
