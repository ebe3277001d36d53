-- ===== src/Fiemap/Tests/Lookups.antt =====
-- Look-ups by path in the file system of `Fiemap.Tests`, and an index of it.
use xallib.Prelude.{ℕ, zero, suc, ◌+◌, ◌<◌, ◌≡◌, refl, ◌⊎◌, inl, inr, none, [], ◌∷◌, ◌++◌, arith}
use xallib.Result.{ok, err, enoent, eio}
use xallib.Types.{inode_at, ftype_of_mode}
use xallib.Paths.{strcmp, has_slash, basename, split_slash, starts_with, skip}
use xallib.Pool.{claim_inodes, claim_extents, make_room, grow, take_free, clear}
use xallib.Fiemap.Watch.{clear_inode_map, add_watcher}
use xallib.Fiemap.Files.{process_inode_file, read_fiemap, store_extents, fill_extents}
use xallib.Fiemap.Search.Table.{Refuses}
use xallib.Fiemap.Search.{
  search_loop, search_by_traversal, compare_name_to_inode, put_path, build_children,
  build_hashmap_walk, build_lookup_hashmap, get_inode,
}
use xallib.Fiemap.Search.Named.{IsSorted, IsNamed, IsIndexed, Below, child, deeper}
use xallib.Fiemap.Search.Traversal.{search_by_traversal-name}
use xallib.Fiemap.Search.Lookup.{Built, build_lookup_hashmap-Built}
use xallib.Fiemap.Index.{
  index, index_locked, index_root, clear_pools, process_ino, process_content, process_inode_dir,
  fill_dir, process_entries, process_entry, name_dentry, count_dentry, read_dir, read_entries,
  entry_room,
}
use xallib.Fiemap.Tests.{
  slash_m, name_b, name_c, test_env, small_fs, first_match, first_match-IsBsearch, put_key-IsTable,
  insert, sort,
}

root-IsSorted : IsSorted small_fs.xal 0
unfolding IsSorted strcmp basename has_slash
root-IsSorted zero zero less bound = absurd (omega arith)
root-IsSorted zero (suc zero) less bound = refl
root-IsSorted k (suc (suc l)) less bound = absurd (omega arith)
root-IsSorted (suc k) l less bound = absurd (omega arith)

b-IsSorted : IsSorted small_fs.xal 2
unfolding IsSorted
b-IsSorted k l less bound = absurd (omega arith)

c-IsNamed : IsNamed name_b (inode_at small_fs.xal 3)
unfolding has_slash
c-IsNamed = record {
  component = b'c' ∷ [];
  not_empty = omega arith;
  no_slash = refl;
  named = refl;
  has_name = omega arith;
}

below_b :
    (k : ℕ)
    → k < 1
    → IsNamed name_b (inode_at small_fs.xal (3 + k))
      × IsIndexed small_fs.xal 1 (inode_at small_fs.xal (3 + k)).name (3 + k)
unfolding IsIndexed
below_b zero h = (c-IsNamed, inl refl)
below_b (suc k) h = absurd (omega arith)

below_root :
    (k : ℕ)
    → k < 2
    → IsNamed slash_m (inode_at small_fs.xal (1 + k))
      × IsIndexed small_fs.xal 2 (inode_at small_fs.xal (1 + k)).name (1 + k)
unfolding IsIndexed has_slash
below_root zero h = (
  record {
    component = b'a' ∷ [];
    not_empty = omega arith;
    no_slash = refl;
    named = refl;
    has_name = omega arith;
  },
  inl refl,
)
below_root (suc zero) h = (
  record {
    component = b'b' ∷ [];
    not_empty = omega arith;
    no_slash = refl;
    named = refl;
    has_name = omega arith;
  },
  inr (refl, b-IsSorted, below_b),
)
below_root (suc (suc k)) h = absurd (omega arith)

small_fs-IsIndexed : IsIndexed small_fs.xal 3 slash_m 0
unfolding IsIndexed
small_fs-IsIndexed = inr (refl, root-IsSorted, below_root)

c-Below : Below small_fs.xal 0 3
c-Below = deeper 0 1 3 refl (omega arith) (child 2 0 refl (omega arith))

search_by_traversal-name_example : search_by_traversal test_env small_fs.xal slash_m 0 name_c ≡ ok 3
search_by_traversal-name_example =
    search_by_traversal-name test_env first_match-IsBsearch small_fs.xal 3 slash_m 0 3
      small_fs-IsIndexed c-Below

build_test : (build_lookup_hashmap test_env 3 small_fs).0 ≡ ok tt
unfolding build_lookup_hashmap build_hashmap_walk build_children put_path
build_test = refl

-- A directory that is not there, and a file that is taken for one.
missing_test :
    search_by_traversal test_env small_fs.xal slash_m 0 (slash_m ++ (b'/' ∷ b'z' ∷ [])) ≡ err enoent
unfolding search_by_traversal search_loop compare_name_to_inode strcmp basename has_slash
    split_slash starts_with skip first_match
missing_test = refl

pub index_test : (index test_env 3 small_fs).0 ≡ ok tt
unfolding index index_locked index_root clear_pools process_ino process_content process_inode_dir
    fill_dir process_entries process_entry name_dentry count_dentry read_dir read_entries entry_room
    claim_inodes claim_extents make_room grow take_free clear clear_inode_map add_watcher
    process_inode_file read_fiemap store_extents fill_extents put_path insert sort strcmp
    ftype_of_mode
index_test = refl

build_lookup_hashmap-Built_example :
    (Refuses test_env
      × ((build_lookup_hashmap test_env 3 small_fs).0 ≡ err eio)
      × ((build_lookup_hashmap test_env 3 small_fs).1.path_inode_map ≡ none))
    ⊎ (((build_lookup_hashmap test_env 3 small_fs).0 ≡ ok tt)
        × Built test_env put_key-IsTable small_fs (build_lookup_hashmap test_env 3 small_fs).1)
build_lookup_hashmap-Built_example =
    build_lookup_hashmap-Built test_env put_key-IsTable small_fs 3 first_match-IsBsearch refl refl
      small_fs-IsIndexed refl

build-Built : Built test_env put_key-IsTable small_fs (build_lookup_hashmap test_env 3 small_fs).1
build-Built = elim build_lookup_hashmap-Built_example [
  | inl (missed, failed, gone) ↦ cc (failed, build_test)
  | inr (done, built) ↦ built
]

built_test : get_inode test_env (build_lookup_hashmap test_env 3 small_fs).1 name_c ≡ ok 3
unfolding get_inode build_lookup_hashmap build_hashmap_walk build_children put_path strcmp
built_test = refl
