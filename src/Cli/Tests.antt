-- ===== src/Cli/Tests.antt =====
-- Command lines of src/cli.c, and a run on the file system of `Fiemap.Tests`.
use xallib.Prelude.{◌≡◌, refl, true, false, some, List, [], ◌∷◌, All}
use xallib.Result.{ok}
use xallib.Paths.{strcmp}
use xallib.Types.{ftype_of_mode}
use xallib.Pool.{claim_inodes, claim_extents, make_room, grow, take_free, clear}
use xallib.Fiemap.Watch.{clear_inode_map, add_watcher}
use xallib.Fiemap.Files.{process_inode_file, read_fiemap, store_extents, fill_extents}
use xallib.Fiemap.Index.{
  index, index_locked, index_root, clear_pools, process_ino, process_content, process_inode_dir,
  fill_dir, process_entries, process_entry, name_dentry, count_dentry, read_dir, read_entries,
  entry_room,
}
use xallib.Fiemap.Search.{put_path}
use xallib.Fiemap.Tests.{small_fs, test_env, sort, insert}
use xallib.Fiemap.Tests.Trees.{test_env-IsReaddir, small_fs-IsValid, sort-IsQsort}
use xallib.Pool.Tests.{test_kernel-ChecksMapping}
use xallib.Walk.{walk, walk_from, call_back, children_loop}
use xallib.Core.{index_xal, index_backing}
use xallib.Core.Tests.{core_env}
use xallib.Cli.Args.{
  CliArgs, blank_args, codes, word_of, parse_args, parse_words, take_word, require_dev_uri,
}
use xallib.Cli.Items.{
  Item, switch, setting, device, find, stats, backend, IsItem, all_words, apply_all,
  parse_args-items,
}
use xallib.Cli.Inspect.{
  node_inspector_find, path_line, device_pieces, inode_path_pp, ends_with_slash,
}
use xallib.Cli.Main.{
  success, report, report_bmap, report_find, report_file, report_stats, walk_root, after_index,
  index_and_report,
}
use xallib.Cli.Run.{handle, Reported, index_and_report-Reported}

abbrev test_words : List Item
test_words =
    switch find ∷ (device (codes "/m") ∷ (setting backend (codes "fiemap") ∷ (switch stats ∷ [])))

test_words-IsItem : All IsItem test_words
unfolding word_of strcmp
test_words-IsItem = (tt, (refl, (tt, (tt, tt))))

abbrev test_args : CliArgs
test_args = record blank_args {
  find = true;
  stats = true;
  backend = some (codes "fiemap");
  dev_uri = some (codes "/m");
}

words_test : parse_args (codes "xal" ∷ all_words test_words) blank_args ≡ ok test_args
unfolding parse_args parse_words take_word word_of strcmp
words_test = refl

parse_args-items_example :
    parse_args (codes "xal" ∷ all_words test_words) blank_args
    ≡ require_dev_uri (apply_all test_words blank_args)
parse_args-items_example = parse_args-items (codes "xal") test_words test_words-IsItem

run_test :
    (index_and_report core_env 4 test_args (codes "/m") (0, 0) (handle small_fs false) []).exit
    ≡ success
unfolding index index_locked index_root clear_pools process_ino process_content process_inode_dir
    fill_dir process_entries process_entry name_dentry count_dentry read_dir read_entries entry_room
    claim_inodes claim_extents make_room grow take_free clear clear_inode_map add_watcher
    process_inode_file read_fiemap store_extents fill_extents put_path insert sort strcmp
    ftype_of_mode index_and_report after_index index_xal index_backing report report_bmap
    report_find report_file report_stats walk_root walk walk_from call_back children_loop
    node_inspector_find path_line device_pieces inode_path_pp ends_with_slash
run_test = refl

index_and_report-Reported_example :
    Reported 4
      (index test_env 4 small_fs).1
      (index_and_report core_env 4 test_args (codes "/m") (0, 0) (handle small_fs false) [])
index_and_report-Reported_example =
    index_and_report-Reported core_env test_kernel-ChecksMapping test_env-IsReaddir sort-IsQsort 4
      test_args (codes "/m") (0, 0) small_fs false [] refl refl small_fs-IsValid run_test
