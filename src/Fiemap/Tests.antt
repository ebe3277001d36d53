-- ===== src/Fiemap/Tests.antt =====
-- A small mounted file system, and runs of src/xal_be_fiemap.c and src/xal_be_fiemap_inotify.c on it:
-- the directory /m with a file `a` and a directory `b`, which has a file `c`.
pub mod Lookups
pub mod Watching
pub mod Depths
pub mod Trees
use Prim.Native.Nat.{Ordering}
use Prim.Native.Nat.Ordering.{lt, eq, gt}
use xallib.Prelude.{
  ℕ, zero, suc, ◌+◌, ◌*◌, ◌^◌, ◌⊎◌, ◌<◌, ◌≡◌, ◌≢◌, refl, ◌∙◌, ap, sym, subst, inl, inr, Bool, true,
  false, Option, none, some, List, [], ◌∷◌, length, ltb, ◌==◌, if◌then◌else◌, arith,
}
use xallib.Pool.{Pool}
use xallib.Pool.Tests.{test_kernel}
use xallib.Pool.Bounds.{IsValid}
use xallib.Types.{Inode, Xal, fiemap, blank_inode, blank_extent, ft_dir, ft_reg_file, idx_none}
use xallib.Paths.{strcmp, str_eq}
use xallib.Paths.Order.{strcmp_refl, eq_of_strcmp, order_cases}
use xallib.Fiemap.State.{
  Env, Fiemap, Stat, Dirent, FiemapExtent, PathTable, WdTable, Inotify, extent_update, empty_table,
}
use xallib.Fiemap.Open.{fiemap_sb}
use xallib.Fiemap.Search.Named.{IsBsearch}
use xallib.Fiemap.Search.Table.{IsTable}

abbrev pub slash_m : List ℕ
slash_m = b'/' ∷ b'm' ∷ []

abbrev pub name_a : List ℕ
name_a = b'/' ∷ b'm' ∷ b'/' ∷ b'a' ∷ []

abbrev pub name_b : List ℕ
name_b = b'/' ∷ b'm' ∷ b'/' ∷ b'b' ∷ []

abbrev pub name_c : List ℕ
name_c = b'/' ∷ b'm' ∷ b'/' ∷ b'b' ∷ b'/' ∷ b'c' ∷ []

-- A linear search.
unfoldable pub first_match : (ℕ → Ordering) → (base count : ℕ) → Option ℕ
first_match f base zero = none
first_match f base (suc count) = elim (f base) [
  | eq ↦ some base
  | _ ↦ first_match f (base + 1) count
]

first_match-member :
    (f : ℕ → Ordering) (base count i : ℕ)
    → first_match f base count ≡ some i
    → (k : ℕ) × (k < count) × (i ≡ base + k) × (f (base + k) ≡ eq)
unfolding first_match
first_match-member f base zero i e = cc e
first_match-member f base (suc count) i e = elim (order_cases (f base)) [
  | inl h ↦
      let same : some base ≡ some i = simp (first_match, h) at e in
      let at : base ≡ i = cc same in
      (0, omega arith, omega (arith, at), subst (λ x. f x ≡ eq) (omega arith) h)
  | inr other ↦
      let e' : first_match f (base + 1) count ≡ some i = elim other [
        | inl h ↦ simp (first_match, h) at e
        | inr h ↦ simp (first_match, h) at e
      ] in
      let (k, lim, at, found) = first_match-member f (base + 1) count i e' in
      (suc k, omega arith, omega (arith, at), subst (λ x. f x ≡ eq) (omega arith) found)
]

first_match-finds :
    (f : ℕ → Ordering) (base count k : ℕ)
    → k < count
    → f (base + k) ≡ eq
    → first_match f base count ≢ none
unfolding first_match
first_match-finds f base zero k h e n = omega arith
first_match-finds f base (suc count) zero h e n =
    let found : f base ≡ eq = subst (λ x. f x ≡ eq) (omega arith) e in
    cc (simp (first_match, found) at n)
first_match-finds f base (suc count) (suc k) h e n = elim (order_cases (f base)) [
  | inl found ↦ cc (simp (first_match, found) at n)
  | inr (inl less) ↦
      first_match-finds f (base + 1) count k (omega arith) (subst (λ x. f x ≡ eq) (omega arith) e)
        (simp (first_match, less) at n)
  | inr (inr more) ↦
      first_match-finds f (base + 1) count k (omega arith) (subst (λ x. f x ≡ eq) (omega arith) e)
        (simp (first_match, more) at n)
]

pub first_match-IsBsearch : IsBsearch first_match
first_match-IsBsearch = record {
  member = first_match-member;
  finds = λ f base count k h e before after. first_match-finds f base count k h e;
}

-- A table that never fails.
abbrev pub put_key : PathTable → List ℕ → ℕ → Option PathTable
put_key m key v = some (λ p. elim (strcmp key p) [ eq ↦ some v | _ ↦ m p ])

pub put_key-IsTable : IsTable put_key
put_key-IsTable = record { puts = λ m key v. inr (_, refl, bound m key v, others m key v) }
  where
    bound :
        (m : PathTable) (key : List ℕ) (v : ℕ)
        → (elim (strcmp key key) as (λ o. Option ℕ) [ eq ↦ some v | _ ↦ m key ]) ≡ some v
    bound m key v = simp (strcmp_refl key) refl

    others :
        (m : PathTable) (key : List ℕ) (v : ℕ) (p : List ℕ)
        → p ≢ key
        → (elim (strcmp key p) as (λ o. Option ℕ) [ eq ↦ some v | _ ↦ m p ]) ≡ m p
    others m key v p ne = by_order (strcmp key p) refl
      where
        by_order :
            (o : Ordering)
            → strcmp key p ≡ o
            → (elim (strcmp key p) as (λ o. Option ℕ) [ eq ↦ some v | _ ↦ m p ]) ≡ m p
        by_order lt e = simp e refl
        by_order gt e = simp e refl
        by_order eq e = absurd (ne (sym (eq_of_strcmp key p e)))

-- Insertion of a name into a sorted list.
unfoldable pub insert : (List ℕ → List ℕ → Ordering) → List ℕ → List (List ℕ) → List (List ℕ)
insert compare x [] = x ∷ []
insert compare x (y ∷ ys) =
    let later = insert compare x ys in elim (compare x y) [ gt ↦ y ∷ later | _ ↦ x ∷ (y ∷ ys) ]

unfoldable pub sort : (List ℕ → List ℕ → Ordering) → List (List ℕ) → List (List ℕ)
sort compare [] = []
sort compare (x ∷ xs) = insert compare x (sort compare xs)

abbrev pub entry : (is_dir : Bool) → List ℕ → Dirent
entry is_dir name = record { d_name = name; is_dt_dir = is_dir }

abbrev pub entries_m : List Dirent
entries_m =
    entry true (b'.' ∷ [])
    ∷ (entry true (b'.' ∷ b'.' ∷ []) ∷ (entry true (b'b' ∷ []) ∷ (entry false (b'a' ∷ []) ∷ [])))

abbrev pub is_directory : List ℕ → Bool
is_directory p = if str_eq p slash_m then true else str_eq p name_b

abbrev pub stat_of : Bool → Stat
stat_of is_dir = record {
  st_mode = if is_dir then 4 * 2 ^ 12 else 8 * 2 ^ 12;
  st_ino = 7;
  st_size = 4096;
  st_blksize = 4096;
}

-- Two extents of a file, the second one unwritten.
abbrev pub extents_of_file : List FiemapExtent
extents_of_file =
    record { fe_logical = 0; fe_physical = 8192; fe_length = 4096; fe_flags = 0 }
    ∷ (record { fe_logical = 4096; fe_physical = 40960; fe_length = 8192; fe_flags = 0x801 } ∷ [])

abbrev pub test_env : Env
test_env = record {
  kernel = test_kernel;
  stat = λ p. inr (stat_of (is_directory p));
  opendir = λ p.
      if str_eq p slash_m
      then inr entries_m
      else if str_eq p name_b
      then inr (entry false (b'c' ∷ []) ∷ [])
      else inl 20;
  open_file = λ p. none;
  mapped_extents = λ p. inr 2;
  ioctl = λ p n. inr extents_of_file;
  malloc = true;
  strdup = λ p. true;
  realloc = λ n. none;
  calloc_xal = none;
  calloc_mountpoint = λ n. none;
  calloc_inotify = none;
  kh_init = true;
  kh_put_path = put_key;
  kh_put_wd = λ m k v. some (λ i. if i == k then some v else m i);
  inotify_init1 = inr 3;
  inotify_add_watch = λ p. inr (length p);
  qsort = sort;
  bsearch = first_match;
  pthread_create = inr 1;
  pthread_cancel = λ id. none;
  pthread_setcancelstate = none;
}

abbrev pub pool_of : {E : Type 0} → (free : ℕ) (memory : ℕ → E) → Pool E
pool_of free memory = record {
  reserved = 8;
  allocated = 8;
  growby = 8;
  free = free;
  element_size = 1;
  memory = memory;
}

abbrev pub inode_of : (ftype : ℕ) (name : List ℕ) (idx count parent : ℕ) → Inode
inode_of ftype name idx count parent = record {
  ino = 7;
  size = 4096;
  content = record { idx = idx; count = count };
  ftype = ftype;
  namelen = length name;
  name = name;
  parent_idx = parent;
}

abbrev pub test_memory : ℕ → Inode
test_memory i =
    if i == 0
    then inode_of ft_dir [] 1 2 idx_none
    else if i == 1
    then inode_of ft_reg_file name_a 0 0 0
    else if i == 2
    then inode_of ft_dir name_b 3 1 0
    else if i == 3
    then inode_of ft_reg_file name_c 0 0 2
    else blank_inode

-- The handle after an index.
abbrev pub small_fs : Fiemap
small_fs = record {
  xal = record {
    inodes = pool_of 4 test_memory;
    extents = pool_of 0 (λ i. blank_extent);
    root_idx = 0;
    sb = fiemap_sb 4096 7;
    backend = fiemap;
    dirty = false;
    seq_lock = 2;
    shared_view = false;
  };
  mountpoint = slash_m;
  inotify = none;
  path_inode_map = none;
}

-- An inotify object that watches the extents, with the root under the descriptor 2.
abbrev pub watching_root : Inotify
watching_root = record {
  watch_mode = extent_update;
  fd = 3;
  inode_map = λ wd. if wd == 2 then some 0 else none;
  watch_thread_id = 1;
  flag = 1;
  has_cb = false;
}
