-- ===== src/Fiemap/Tree/Files.antt =====
-- What `xal_be_fiemap_process_inode_file` of src/xal_be_fiemap.c, and the calls that only put an
-- entry into a table, leave of the inodes.
use xallib.Prelude.{
  ℕ, ◌<◌, ◌≡◌, ◌≢◌, refl, sym, subst, ◌∙◌, Bool-cases, inl, inr, Option-cases, List, [], ◌∷◌,
  length, update, update_self, update_ne, ap, arith,
}
use xallib.Result.{Result-cases, ◌>>=◌}
use xallib.Types.{Inode, blank_inode, blank_extent}
use xallib.Walk.{inode_is_dir, inode_is_file}
use xallib.Pool.{Pool, claim_extents}
use xallib.Pool.Bounds.{IsValid}
use xallib.Fiemap.State.{Env, Fiemap, FiemapExtent, self_at, is_watching}
use xallib.Fiemap.Watch.{put_wd, add_watcher}
use xallib.Fiemap.Search.{put_path}
use xallib.Fiemap.Files.{read_fiemap, fill_extents, store_extents, process_inode_file}
use xallib.Fiemap.Keeps.{call_cases}
use xallib.Fiemap.Stored.{put_path-xal}

-- Between two valid pools only one inode differs, and it keeps its type and its name.
pub record Edits (self : ℕ) (p q : Pool Inode) : Type 0 where
  pub valid : IsValid blank_inode q
  pub same_free : q.free ≡ p.free
  pub others : (j : ℕ) → j ≢ self → q.memory j ≡ p.memory j
  pub same_ftype : (q.memory self).ftype ≡ (p.memory self).ftype
  pub same_name : (q.memory self).name ≡ (p.memory self).name
  pub same_namelen : (q.memory self).namelen ≡ (p.memory self).namelen

pub Edits-nil : (self : ℕ) (p : Pool Inode) → IsValid blank_inode p → Edits self p p
Edits-nil self p v = record {
  valid = v;
  same_free = refl;
  others = λ j ne. refl;
  same_ftype = refl;
  same_name = refl;
  same_namelen = refl;
}

pub put-IsValid :
    (p : Pool Inode) (self : ℕ) (inode : Inode)
    → IsValid blank_inode p
    → self < p.free
    → IsValid blank_inode (record p { memory = update p.memory self inode })
put-IsValid p self inode v h = record {
  sized = v.sized;
  small = v.small;
  step = v.step;
  used = v.used;
  mapped = v.mapped;
  zeroed =
      λ i lo hi. update_ne p.memory self i inode (λ e. omega (arith, h, lo, e)) ∙ v.zeroed i lo hi;
}

-- Only the content of an inode is stored.
put-Edits :
    (p : Pool Inode) (self : ℕ) (inode : Inode)
    → IsValid blank_inode p
    → self < p.free
    → inode.ftype ≡ (p.memory self).ftype
    → inode.name ≡ (p.memory self).name
    → inode.namelen ≡ (p.memory self).namelen
    → Edits self p (record p { memory = update p.memory self inode })
put-Edits p self inode v h ftype name namelen =
    let e = update_self p.memory self inode in
    record {
      valid = put-IsValid p self inode v h;
      same_free = refl;
      others = λ j ne. update_ne p.memory self j inode (λ e. ne (sym e));
      same_ftype = ap (λ n. n.ftype) e ∙ ftype;
      same_name = ap (λ n. n.name) e ∙ name;
      same_namelen = ap (λ n. n.namelen) e ∙ namelen;
    }

module _ (env : Env) where
  store_extents-Edits :
      (self : ℕ) (es : List FiemapExtent) (s : Fiemap)
      → IsValid blank_inode s.xal.inodes
      → self < s.xal.inodes.free
      → Edits self s.xal.inodes (store_extents env self es s).1.xal.inodes
  unfolding store_extents fill_extents
  store_extents-Edits self [] s v h = Edits-nil self s.xal.inodes v
  store_extents-Edits self (e ∷ es) s v h =
      elim (Result-cases
        (claim_extents blank_extent env.kernel (length (e ∷ es)) s.xal.extents).0) [
          | inl (idx, k) ↦ rw k (put-Edits s.xal.inodes self _ v h refl refl refl)
          | inr (c, k) ↦ rw k (Edits-nil self s.xal.inodes v)
        ]

  stored-Edits :
      (self : ℕ) (es : List FiemapExtent) (s : Fiemap)
      → IsValid blank_inode s.xal.inodes
      → self < s.xal.inodes.free
      → Edits self s.xal.inodes
          ((store_extents env self es >>= λ _ t. put_path env (self_at t self).name self t)
            s).1.xal.inodes
  stored-Edits self es s v h =
      let t : Fiemap = (store_extents env self es s).1 in
      let stored = store_extents-Edits self es s v h in
      elim (Result-cases (store_extents env self es s).0) [
        | inl (u, k) ↦ rw k (
            subst (λ x. Edits self s.xal.inodes x.inodes)
              (sym (put_path-xal env (self_at t self).name self t)) stored)
        | inr (c, k) ↦ rw k stored
      ]

  -- However it ends.
  pub process_inode_file-Edits :
      (path : List ℕ) (self : ℕ) (s : Fiemap)
      → IsValid blank_inode s.xal.inodes
      → self < s.xal.inodes.free
      → Edits self s.xal.inodes (process_inode_file env path self s).1.xal.inodes
  unfolding process_inode_file
  process_inode_file-Edits path self s v h =
      let same = Edits-nil self s.xal.inodes v in
      elim (Bool-cases (inode_is_file (self_at s self))) [
        | inr other ↦ rw other same
        | inl file ↦ elim (Option-cases (env.open_file path)) [
          | inr (c, e) ↦ simp (process_inode_file, file, e) same
          | inl e ↦ elim (Bool-cases env.malloc) [
            | inr missed ↦ simp (process_inode_file, file, e, missed) same
            | inl there ↦ elim (Result-cases (read_fiemap env path)) [
              | inr (c, r) ↦ simp (process_inode_file, file, e, there, r) same
              | inl (es, r) ↦
                  simp (process_inode_file, file, e, there, r) (stored-Edits self es s v h)
            ]
          ]
        ]
      ]

  -- A watch is not put into the handle's pools.
  pub add_watcher-xal :
      (path : List ℕ) (self : ℕ) (s : Fiemap) → (add_watcher env path self s).1.xal ≡ s.xal
  unfolding add_watcher put_wd
  add_watcher-xal path self s = elim (Option-cases s.inotify) [
    | inl e ↦ simp (add_watcher, e) refl
    | inr (inotify, e) ↦ elim (Bool-cases (inode_is_dir (self_at s self))) [
      | inr other ↦ simp (add_watcher, e, other) refl
      | inl dir ↦ elim (Bool-cases (is_watching inotify.watch_mode)) [
        | inr still ↦ simp (add_watcher, e, dir, still) refl
        | inl w ↦ elim (call_cases (env.inotify_add_watch path)) [
          | inl (c, f) ↦ simp (add_watcher, e, dir, w, f) refl
          | inr (wd, f) ↦ elim (Option-cases (env.kh_put_wd inotify.inode_map wd self)) [
            | inl g ↦ simp (add_watcher, put_wd, e, dir, w, f, g) refl
            | inr (m, g) ↦ simp (add_watcher, put_wd, e, dir, w, f, g) refl
          ]
        ]
      ]
    ]
  ]
