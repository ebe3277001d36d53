-- ===== src/Print/Tests.antt =====
-- What src/pp.c prints of the file system of `Fiemap.Tests`, and of a directory with 300 entries.
use xallib.Prelude.{ℕ, zero, suc, ◌+◌, ◌<◌, ◌≡◌, ◌≢◌, refl, inl, inr, none, [], arith}
use xallib.Result.{ok}
use xallib.Types.{Xal, blank_inode, ft_dir}
use xallib.Fiemap.Tests.{small_fs, inode_of}
use xallib.Print.{Piece, Printed, print_lines, words}
use xallib.Print.Records.{xal_pp}
use xallib.Print.Inodes.{inode_pp}
use xallib.Print.Ends.{IsNarrow, Returns, inode_pp-Returns, inode_pp-endless}

-- Each piece counted as one byte.
abbrev one_byte : Piece → ℕ
one_byte p = 1

null_test : xal_pp one_byte none ≡ record { wrtn = 1; out = words "xal: ~\n" }
unfolding xal_pp print_lines
null_test = refl

below_b : (k : ℕ) → k < 1 → IsNarrow small_fs.xal 1 (3 + k)
unfolding IsNarrow
below_b zero h = inl (λ dir. omega (arith, dir))
below_b (suc k) h = absurd (omega arith)

below_root : (k : ℕ) → k < 2 → IsNarrow small_fs.xal 2 (1 + k)
unfolding IsNarrow
below_root zero h = inl (λ dir. omega (arith, dir))
below_root (suc zero) h = inr (omega arith, below_b)
below_root (suc (suc k)) h = absurd (omega arith)

small_fs-IsNarrow : IsNarrow small_fs.xal 3 0
unfolding IsNarrow
small_fs-IsNarrow = inr (omega arith, below_root)

inode_pp-Returns_example : Returns (inode_pp small_fs.xal one_byte 3 256 0)
inode_pp-Returns_example = inode_pp-Returns small_fs.xal one_byte 3 0 small_fs-IsNarrow

-- The root with 300 entries, which are all the same blank inode.
abbrev wide_xal : Xal
wide_xal = record small_fs.xal {
  inodes = record small_fs.xal.inodes {
    memory = λ i. elim i [ zero ↦ inode_of ft_dir [] 1 300 0 | suc j ↦ blank_inode ];
  };
}

abbrev some_print : Printed
some_print = record { wrtn = 0; out = [] }

inode_pp-endless_example : inode_pp wide_xal one_byte 2 1000 0 ≢ ok some_print
inode_pp-endless_example = inode_pp-endless wide_xal one_byte 2 1000 0 some_print refl (omega arith)
