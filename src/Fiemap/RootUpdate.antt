-- ===== src/Fiemap/RootUpdate.antt =====
-- `check_events` of src/xal_be_fiemap_inotify.c at a file that stands in the mountpoint itself.
use Prim.Native.Nat.{Ordering}
use Prim.Native.Nat.Ordering.{lt, eq, gt}
use xallib.Prelude.{
  ℕ, zero, suc, ◌+◌, ◌≤◌, ◌<◌, ◌≡◌, refl, ap, true, false, none, some, List, [], ◌∷◌, length, ltb,
  arith,
}
use xallib.Result.{err, einval, bind_result}
use xallib.Types.{Xal, inode_at, ft_dir}
use xallib.Paths.{str_eq, strcmp, has_slash, path_of}
use xallib.Paths.Order.{eq_of_strcmp}
use xallib.Paths.Parts.{has_slash-path_of}
use xallib.Fiemap.State.{Env, Fiemap, Inotify, self_at, lock_step}
use xallib.Fiemap.Search.Named.{IsNamed}
use xallib.Fiemap.Events.{
  InotifyEvent, path_nbytes, find_child, update_locked, update_event, check_events,
  is_dirty_detection, has_bit, in_unmount, is_write,
}

abbrev tail_of : List ℕ → List ℕ
tail_of [] = []
tail_of (c ∷ cs) = cs

-- A path below a mountpoint is none of a name alone.
not_alone :
    (c : ℕ) (mountpoint component name : List ℕ)
    → has_slash name ≡ false
    → str_eq (path_of (c ∷ mountpoint) component) (path_of [] name) ≡ false
not_alone c mountpoint component name h =
    by_order (strcmp (path_of (c ∷ mountpoint) component) (path_of [] name)) refl
  where
    by_order :
        (o : Ordering)
        → strcmp (path_of (c ∷ mountpoint) component) (path_of [] name) ≡ o
        → str_eq (path_of (c ∷ mountpoint) component) (path_of [] name) ≡ false
    by_order lt e = simp (str_eq, e) refl
    by_order gt e = simp (str_eq, e) refl
    by_order eq e =
        let same : path_of mountpoint component ≡ name = ap tail_of (eq_of_strcmp _ _ e) in
        cc (has_slash-path_of mountpoint component, ap has_slash same, h)

none_alone :
    (xal : Xal) (c : ℕ) (mountpoint name : List ℕ) (idx left : ℕ)
    → has_slash name ≡ false
    → ((k : ℕ) → idx ≤ k → k < idx + left → IsNamed (c ∷ mountpoint) (inode_at xal k))
    → find_child xal (path_of [] name) idx left ≡ none
unfolding find_child
none_alone xal c mountpoint name idx zero h named = refl
none_alone xal c mountpoint name idx (suc left) h named =
    let n = named idx (omega arith) (omega arith) in
    rw n.named (
      rw (not_alone c mountpoint n.component name h) (
        none_alone xal c mountpoint name (idx + 1) left h
          (λ k lo hi. named k (omega arith) (omega arith))))

module _ (env : Env) where
  -- Where a watch that updates extents sees a write to a file that stands in the mountpoint
  -- itself, with a name that fits, the event is refused with -EINVAL and no inode is updated: the
  -- path is put together with the empty name of the root, and no child has it.
  pub check_events-root :
      (inotify : Inotify) (event : InotifyEvent) (events : List InotifyEvent) (s : Fiemap)
      (root c : ℕ) (mountpoint : List ℕ)
      → is_dirty_detection inotify.watch_mode ≡ false
      → has_bit event.mask in_unmount ≡ false
      → is_write event.mask ≡ true
      → inotify.inode_map event.wd ≡ some root
      → (self_at s root).ftype ≡ ft_dir
      → (self_at s root).namelen ≡ 0
      → has_slash event.event_name ≡ false
      → length event.event_name < 254
      → ((k : ℕ)
          → (self_at s root).content.idx ≤ k
          → k < (self_at s root).content.idx + (self_at s root).content.count
          → IsNamed (c ∷ mountpoint) (self_at s k))
      → check_events env inotify (event ∷ events) s ≡ (err einval, lock_step (lock_step s))
  unfolding check_events update_event update_locked
  check_events-root inotify event events s root c mountpoint mode there writes wd dir n name fits
        named =
      let missed = none_alone (lock_step s).xal c mountpoint event.event_name _ _ name named in
      let short : ltb path_nbytes (0 + 1 + length event.event_name + 1) ≡ false = ground arith in
      let locked : update_locked env root (path_of [] event.event_name) (lock_step s)
          ≡ (err einval, lock_step s) =
        simp (update_locked, missed) refl in
      let update : update_event env inotify event s ≡ (err einval, lock_step (lock_step s)) =
        simp (update_event, wd, dir, n, short, locked) refl in
      rw (mode, there, writes)
        (ap (λ r. bind_result r (λ _. check_events env inotify events)) update)
