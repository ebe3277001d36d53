-- ===== src/Fiemap/Tests/Depths.antt =====
-- The depth of the file system of `Fiemap.Tests`.
use xallib.Prelude.{◌≡◌, ◌≢◌, subst, [], ◌∷◌, All}
use xallib.Result.{ok, err, stuck}
use xallib.Paths.{strcmp, path_of}
use xallib.Pool.Tests.{test_kernel-ChecksMapping}
use xallib.Fiemap.Index.{read_dir, read_entries, entry_room, compare_dirent, index}
use xallib.Fiemap.Depth.{IsShallow, index-ne-stuck}
use xallib.Fiemap.Tests.{slash_m, name_a, name_b, name_c, test_env, small_fs, sort, insert}

a-IsShallow : IsShallow test_env 2 name_a
unfolding IsShallow read_dir strcmp
a-IsShallow s names e = cc e

c-IsShallow : IsShallow test_env 1 name_c
unfolding IsShallow read_dir strcmp
c-IsShallow s names e = cc e

b-IsShallow : IsShallow test_env 2 name_b
unfolding IsShallow read_dir read_entries entry_room strcmp sort insert
b-IsShallow s names e =
    let same : ok ((b'c' ∷ []) ∷ []) ≡ ok names = e in
    let f : (b'c' ∷ []) ∷ [] ≡ names = cc same in
    subst (λ n. All (λ name. IsShallow test_env 1 (path_of name_b name)) (sort compare_dirent n)) f
      (c-IsShallow, tt)

m-IsShallow : IsShallow test_env 3 slash_m
unfolding IsShallow read_dir read_entries entry_room strcmp sort insert
m-IsShallow s names e =
    let same : ok ((b'b' ∷ []) ∷ ((b'a' ∷ []) ∷ [])) ≡ ok names = e in
    let f : (b'b' ∷ []) ∷ ((b'a' ∷ []) ∷ []) ≡ names = cc same in
    subst (λ n. All (λ name. IsShallow test_env 2 (path_of slash_m name)) (sort compare_dirent n)) f
      (a-IsShallow, (b-IsShallow, tt))

index-ne-stuck_example : (index test_env 3 small_fs).0 ≢ err stuck
index-ne-stuck_example = index-ne-stuck test_env test_kernel-ChecksMapping 3 small_fs m-IsShallow
