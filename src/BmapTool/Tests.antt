-- ===== src/BmapTool/Tests.antt =====
-- A file of two extents, mapped by tools/xal_bmap_mp_yaml.c.
use xallib.Prelude.{
  ℕ, ◌+◌, ◌%◌, ◌^◌, ◌<◌, ◌≡◌, refl, subst, sym, ap, true, some, List, [], ◌∷◌, ◌++◌, take, ◌==◌,
  if◌then◌else◌, arith,
}
use xallib.Result.{ok}
use xallib.Fiemap.State.{FiemapExtent}
use xallib.Fiemap.Tests.{name_a}
use xallib.BmapTool.{Env, process_file}
use xallib.BmapTool.Pages.{Run, IsMapped, AllRuns, report_of, process_file-report_of}

abbrev first_extent : FiemapExtent
first_extent = record { fe_logical = 0; fe_physical = 8192; fe_length = 4096; fe_flags = 0 }

abbrev second_extent : FiemapExtent
second_extent = record { fe_logical = 4096; fe_physical = 40960; fe_length = 8192; fe_flags = 1 }

abbrev both_extents : List FiemapExtent
both_extents = first_extent ∷ (second_extent ∷ [])

abbrev both_runs : List Run
both_runs =
    record { logical = 0; physical = 16; nsectors = 8 }
    ∷ (record { logical = 8; physical = 80; nsectors = 16 } ∷ [])

abbrev extents_from : ℕ → List FiemapExtent
extents_from start =
    if start == 0 then both_extents else if start == 4096 then second_extent ∷ [] else []

-- The ioctl gives one extent at a time.
abbrev test_tool : Env
test_tool = record {
  can_open = λ p. true;
  ioctl = λ p start capacity. some (take 1 (extents_from start));
  malloc = true;
  nftw = λ p. (true, (name_a, true) ∷ []);
}

both_extents-IsMapped : IsMapped (test_tool.ioctl name_a) both_extents
both_extents-IsMapped = record {
  more = λ start n. 0;
  from_start = λ n h. refl;
  from_end = from_end;
  last = last;
  small = small;
}
  where
    from_end :
        (before rest : List FiemapExtent) (e : FiemapExtent) (n : ℕ)
        → 0 < n
        → both_extents ≡ before ++ (e ∷ rest)
        → test_tool.ioctl name_a (e.fe_logical + e.fe_length) n ≡ some (take 1 rest)
    from_end [] rest e n room h =
        let f : first_extent ≡ e = cc h in
        let r : second_extent ∷ [] ≡ rest = cc h in
        subst (λ e. test_tool.ioctl name_a (e.fe_logical + e.fe_length) n ≡ some (take 1 rest)) f
          (ap (λ l. some (take 1 l)) r)
    from_end (x ∷ []) rest e n room h =
        let f : second_extent ≡ e = cc h in
        let r : [] ≡ rest = cc h in
        subst (λ e. test_tool.ioctl name_a (e.fe_logical + e.fe_length) n ≡ some (take 1 rest)) f
          (ap (λ l. some (take 1 l)) r)
    from_end (x ∷ (y ∷ [])) rest e n room h = cc h
    from_end (x ∷ (y ∷ (z ∷ zs))) rest e n room h = cc h

    last :
        (before rest : List FiemapExtent) (e : FiemapExtent)
        → both_extents ≡ before ++ (e ∷ rest)
        → e.fe_flags % 2 ≡ 1
        → rest ≡ []
    last [] rest e h k =
        let f : first_extent ≡ e = cc h in
        let no_flag : 0 ≡ 1 = subst (λ e. e.fe_flags % 2 ≡ 1) (sym f) k in
        absurd (omega (arith, no_flag))
    last (x ∷ []) rest e h k = let r : [] ≡ rest = cc h in sym r
    last (x ∷ (y ∷ [])) rest e h k = cc h
    last (x ∷ (y ∷ (z ∷ zs))) rest e h k = cc h

    small :
        (before rest : List FiemapExtent) (e : FiemapExtent)
        → both_extents ≡ before ++ (e ∷ rest)
        → e.fe_logical + e.fe_length < 2 ^ 64
    small [] rest e h =
        let f : first_extent ≡ e = cc h in
        subst (λ e. e.fe_logical + e.fe_length < 2 ^ 64) f (omega arith)
    small (x ∷ []) rest e h =
        let f : second_extent ≡ e = cc h in
        subst (λ e. e.fe_logical + e.fe_length < 2 ^ 64) f (omega arith)
    small (x ∷ (y ∷ [])) rest e h = cc h
    small (x ∷ (y ∷ (z ∷ zs))) rest e h = cc h

both_runs-AllRuns : AllRuns both_runs both_extents
both_runs-AllRuns = (
  record {
    logical = refl;
    physical = refl;
    size = refl;
    some_there = omega arith;
    file_bound = omega arith;
    disk_bound = omega arith;
  },
  (
    record {
      logical = refl;
      physical = refl;
      size = refl;
      some_there = omega arith;
      file_bound = omega arith;
      disk_bound = omega arith;
    },
    tt,
  ),
)

process_file-report_of_example :
    process_file test_tool 3 name_a true ≡ ok (report_of name_a both_runs)
process_file-report_of_example =
    process_file-report_of test_tool 3 name_a both_runs both_extents both_extents-IsMapped
      both_runs-AllRuns refl (omega arith)
