-- ===== src/Fiemap/Tests/Trees.antt =====
-- The index that src/xal_be_fiemap.c makes of the file system of `Fiemap.Tests`.
use Prim.Native.Nat.{Ordering}
use Prim.Native.Nat.Ordering.{eq, gt}
use mathlib.Core.List.{Mem, Memᴰ, Pairwise, Nodup, Perm}
use mathlib.Core.List.Perm
use mathlib.Core.Logic.{∥∥₁_elim}
use mathlib.Core.HLevel.{¬_prop, ⊥_prop}
use xallib.Prelude.{
  ℕ, ◌≡◌, ◌≢◌, refl, sym, ap, subst, ◌⊎◌, Bool-cases, ltb→lt, lt→ltb, ◌∙◌, inl, inr, Bool, true,
  false, not, ◌&&◌, if◌then◌else◌, ltb, length, List, [], ◌∷◌, arith,
}
use xallib.Result.{ok}
use xallib.Types.{inode_at, blank_inode, ftype_of_mode}
use xallib.Paths.{strcmp, str_eq, has_slash}
use xallib.Paths.Order.{order_cases, strcmp_refl, more_flips, upto_trans}
use xallib.Fiemap.State.{Dirent}
use xallib.Pool.{claim_inodes, claim_extents, make_room, grow, take_free, clear}
use xallib.Fiemap.Watch.{clear_inode_map, add_watcher}
use xallib.Fiemap.Files.{process_inode_file, read_fiemap, store_extents, fill_extents}
use xallib.Fiemap.Index.{
  compare_dirent, index, index_locked, index_root, clear_pools, process_ino, process_content,
  process_inode_dir, fill_dir, process_entries, process_entry, name_dentry, count_dentry, read_dir,
  read_entries, entry_room,
}
use xallib.Fiemap.Search.{search_by_traversal, put_path}
use xallib.Fiemap.Search.Named.{Below, child, deeper}
use xallib.Fiemap.Tree.Listing.{IsQsort, IsReaddir, IsComponent, names_of}
use xallib.Pool.Bounds.{IsValid}
use xallib.Pool.Tests.{test_kernel-ChecksMapping}
use xallib.Fiemap.Tests.Lookups.{index_test}
use xallib.Fiemap.Tree.Built.{HasIndex, index-HasIndex, index_finds}
use xallib.Fiemap.Tests.{
  first_match-IsBsearch, test_env, small_fs, sort, insert, entry, entries_m, slash_m, name_b,
}

insert-Perm : (x : List ℕ) (ys : List (List ℕ)) → Perm (x ∷ ys) (insert compare_dirent x ys)
unfolding insert
insert-Perm x [] = Perm.refl (x ∷ [])
insert-Perm x (y ∷ ys) = elim (order_cases (strcmp x y)) [
  | inl same ↦ simp (insert, same) (Perm.refl (x ∷ y ∷ ys))
  | inr (inl less) ↦ simp (insert, less) (Perm.refl (x ∷ y ∷ ys))
  | inr (inr more) ↦
      simp (insert, more) (Perm.trans (Perm.swap y x ys) (Perm.cons y (insert-Perm x ys)))
]

sort-Perm : (names : List (List ℕ)) → Perm names (sort compare_dirent names)
unfolding sort
sort-Perm [] = Perm.refl []
sort-Perm (x ∷ xs) =
    Perm.trans (Perm.cons x (sort-Perm xs)) (insert-Perm x (sort compare_dirent xs))

abbrev Upto : List ℕ → List ℕ → Type 0
Upto a b = strcmp a b ≢ gt

from_cons :
    (z x a : List ℕ) (ys : List (List ℕ))
    → Upto z x
    → ((b : List ℕ) → Mem b ys → Upto z b)
    → Mem a (x ∷ ys)
    → Upto z a
from_cons z x a ys first later m =
    ∥∥₁_elim m ¬_prop
      (λ d. elim d [ Memᴰ.head e ↦ rw e first | Memᴰ.tail there ↦ later a ∣ there ∣₁ ])

insert-Pairwise :
    (x : List ℕ) (ys : List (List ℕ))
    → Pairwise Upto ys
    → Pairwise Upto (insert compare_dirent x ys)
unfolding insert
insert-Pairwise x [] p = Pairwise.cons (λ a m. ∥∥₁_elim m ¬_prop (λ d. elim d [ ])) Pairwise.nil
insert-Pairwise x (y ∷ ys) (Pairwise.cons h rest) = elim (order_cases (strcmp x y)) [
  | inl same ↦ simp (insert, same) (first (λ more. cc (same, more)))
  | inr (inl less) ↦ simp (insert, less) (first (λ more. cc (less, more)))
  | inr (inr more) ↦
      simp (insert, more)
        (Pairwise.cons
          (λ a m.
            from_cons y x a ys (λ more'. cc (more', more_flips x y more)) h
              (Perm.subset (Perm.symm (insert-Perm x ys)) a m))
          (insert-Pairwise x ys rest))
]
  where
    first : Upto x y → Pairwise Upto (x ∷ y ∷ ys)
    first up =
        Pairwise.cons (λ a m. from_cons x y a ys up (λ b k. upto_trans x y b up (h b k)) m)
          (Pairwise.cons h rest)

sort-Pairwise : (names : List (List ℕ)) → Pairwise Upto (sort compare_dirent names)
unfolding sort
sort-Pairwise [] = Pairwise.nil
sort-Pairwise (x ∷ xs) = insert-Pairwise x (sort compare_dirent xs) (sort-Pairwise xs)

pub sort-IsQsort : IsQsort sort
sort-IsQsort = record { permutes = sort-Perm; sorts = sort-Pairwise }

-- Whether a name is a component and none of the others.
unfoldable is_new : List ℕ → List (List ℕ) → Bool
is_new x [] = ltb 0 (length x) && not (has_slash x)
is_new x (y ∷ ys) = let rest = is_new x ys in if str_eq x y then false else rest

unfoldable all_new : List (List ℕ) → Bool
all_new [] = true
all_new (x ∷ xs) = is_new x xs && all_new xs

self_eq : (y : List ℕ) → str_eq y y ≡ true
self_eq y = ap (λ (o : Ordering). elim o as (λ _. Bool) [ eq ↦ true | _ ↦ false ]) (strcmp_refl y)

is_new-ne : (x a : List ℕ) (ys : List (List ℕ)) → is_new x ys ≡ true → Memᴰ a ys → x ≢ a
unfolding is_new
is_new-ne x a [] h m same = elim m [ ]
is_new-ne x a (y ∷ ys) h m same = elim (Bool-cases (str_eq x y)) [
  | inl k ↦ cc (rw k at h)
  | inr k ↦ elim m [
    | Memᴰ.head e ↦ cc (k, ap (λ z. str_eq z y) (same ∙ e), self_eq y)
    | Memᴰ.tail there ↦ is_new-ne x a ys (rw k at h) there same
  ]
]

is_new-IsComponent : (x : List ℕ) (ys : List (List ℕ)) → is_new x ys ≡ true → IsComponent x
unfolding is_new
is_new-IsComponent x [] h = elim (Bool-cases (ltb 0 (length x))) [
  | inr empty ↦ cc (rw empty at h)
  | inl some_byte ↦ elim (Bool-cases (has_slash x)) [
    | inl slash ↦ cc (rw (some_byte, slash) at h)
    | inr none_of ↦ record { not_empty = ltb→lt 0 (length x) some_byte; no_slash = none_of }
  ]
]
is_new-IsComponent x (y ∷ ys) h = elim (Bool-cases (str_eq x y)) [
  | inl k ↦ cc (rw k at h)
  | inr k ↦ is_new-IsComponent x ys (rw k at h)
]

both : (a b : Bool) → a && b ≡ true → (a ≡ true) × (b ≡ true)
both true b h = (refl, h)
both false b h = cc h

all_new-Nodup : (xs : List (List ℕ)) → all_new xs ≡ true → Nodup xs
unfolding all_new
all_new-Nodup [] h = Pairwise.nil
all_new-Nodup (x ∷ xs) h =
    Pairwise.cons
      (λ a m. ∥∥₁_elim m ¬_prop (λ d. is_new-ne x a xs (both (is_new x xs) (all_new xs) h).0 d))
      (all_new-Nodup xs (both (is_new x xs) (all_new xs) h).1)

all_new_at :
    (xs : List (List ℕ)) (name : List ℕ) → all_new xs ≡ true → Memᴰ name xs → IsComponent name
unfolding all_new
all_new_at [] name h m = elim m [ ]
all_new_at (x ∷ xs) name h m = elim m [
  | Memᴰ.head e ↦
      subst IsComponent (sym e) (is_new-IsComponent x xs (both (is_new x xs) (all_new xs) h).0)
  | Memᴰ.tail there ↦ all_new_at xs name (both (is_new x xs) (all_new xs) h).1 there
]

single : (x : List ℕ) → IsComponent x → is_new x [] ≡ true
unfolding is_new
single x c = rw (lt→ltb 0 (length x) c.not_empty, c.no_slash) refl

all_new-IsComponent :
    (xs : List (List ℕ)) (name : List ℕ) → all_new xs ≡ true → Mem name xs → IsComponent name
all_new-IsComponent xs name h m = elim (Bool-cases (is_new name [])) [
  | inl k ↦ is_new-IsComponent name [] k
  | inr k ↦ absurd (∥∥₁_elim m ⊥_prop (λ d. cc (k, single name (all_new_at xs name h d))))
]

inr_same : {xs ys : List Dirent} → ◌≡◌ {A = ℕ ⊎ List Dirent} (inr xs) (inr ys) → xs ≡ ys
inr_same h = cc h

listing :
    (p : List ℕ) (ds : List Dirent) → test_env.opendir p ≡ inr ds → all_new (names_of ds) ≡ true
unfolding all_new is_new strcmp has_slash
listing p ds h = elim (Bool-cases (str_eq p slash_m)) [
  | inl m ↦
      let same : entries_m ≡ ds = inr_same (rw m at h) in
      subst (λ d. all_new (names_of d) ≡ true) same refl
  | inr other ↦ elim (Bool-cases (str_eq p name_b)) [
    | inl b ↦
        let same : entry false (b'c' ∷ []) ∷ [] ≡ ds = inr_same (rw (other, b) at h) in
        subst (λ d. all_new (names_of d) ≡ true) same refl
    | inr none_of ↦ cc (rw (other, none_of) at h)
  ]
]

pub test_env-IsReaddir : IsReaddir test_env.opendir
test_env-IsReaddir = record {
  distinct = λ p ds e. all_new-Nodup (names_of ds) (listing p ds e);
  components = λ p ds e name. all_new-IsComponent (names_of ds) name (listing p ds e);
}

pub small_fs-IsValid : IsValid blank_inode small_fs.xal.inodes
small_fs-IsValid = record {
  sized = omega arith;
  small = omega arith;
  step = omega arith;
  used = omega arith;
  mapped = omega arith;
  zeroed = λ i lo hi. ground arith;
}

index-HasIndex_example : HasIndex 3 (index test_env 3 small_fs).1
index-HasIndex_example =
    index-HasIndex test_env test_kernel-ChecksMapping test_env-IsReaddir sort-IsQsort 3 small_fs
      small_fs-IsValid index_test

c-Below : Below (index test_env 3 small_fs).1.xal (index test_env 3 small_fs).1.xal.root_idx 3
unfolding index index_locked index_root clear_pools process_ino process_content process_inode_dir
    fill_dir process_entries process_entry name_dentry count_dentry read_dir read_entries entry_room
    claim_inodes claim_extents make_room grow take_free clear clear_inode_map add_watcher
    process_inode_file read_fiemap store_extents fill_extents put_path insert sort strcmp
    ftype_of_mode
c-Below =
    deeper (index test_env 3 small_fs).1.xal.root_idx 1 3 refl (omega arith)
      (child 2 0 refl (omega arith))

index_finds_example :
    search_by_traversal test_env
      (index test_env 3 small_fs).1.xal
      (index test_env 3 small_fs).1.mountpoint
      (index test_env 3 small_fs).1.xal.root_idx
      (inode_at (index test_env 3 small_fs).1.xal 3).name
    ≡ ok 3
index_finds_example =
    index_finds test_env test_kernel-ChecksMapping test_env-IsReaddir sort-IsQsort 3 small_fs 3
      first_match-IsBsearch small_fs-IsValid index_test c-Below
