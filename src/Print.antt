-- ===== src/Print.antt =====
-- What printf() is given: the pieces of its format with their arguments. How a number is written out
-- is left to libc.
pub mod Records
pub mod Disk
pub mod Inodes
pub mod Ends
pub mod Tests
use Prim.Native.String.{String}
use xallib.Prelude.{ℕ, ◌+◌, ◌%◌, ◌^◌, List, [], ◌∷◌, ◌++◌, ◌==◌, if◌then◌else◌}
use xallib.Result.{Error}

-- The conversions of numbers that the sources use: `%u` and `%lu`, `%d`, `%x`, `%08X`, `%03d` and
-- `%p`.
pub data Conversion : Type 0 where
  unsigned signed hex hex_8 signed_3 pointer : Conversion

-- The last is the `%d` of an error that a function returned, or of `errno`.
pub data Piece : Type 0 where
  text : String → Piece
  bytes : List ℕ → Piece
  number : Conversion → ℕ → Piece
  error : Error → Piece

-- What a printing function returns and what it has printed.
pub record Printed : Type 0 where
  pub wrtn : ℕ
  pub out : List Piece

module _ (width : Piece → ℕ) where
  -- The bytes that a printf() writes.
  abbrev pub nbytes_of : List Piece → ℕ
  nbytes_of [] = 0
  nbytes_of (p ∷ ps) = width p + nbytes_of ps

  -- `wrtn += printf(...)`, line by line; an `int` is kept as its 32 bits.
  unfoldable pub print_lines : List (List Piece) → Printed
  print_lines [] = record { wrtn = 0; out = [] }
  print_lines (line ∷ lines) =
      let rest = print_lines lines in
      record { wrtn = (nbytes_of line + rest.wrtn) % 2 ^ 32; out = line ++ rest.out }

-- `printf("label: %…\n", v)`
abbrev pub field : String → Conversion → ℕ → List Piece
field label conversion v = text label ∷ (number conversion v ∷ (text "\n" ∷ []))

abbrev pub words : String → List Piece
words s = text s ∷ []

-- What `%.*s` prints of an array of bytes: what stands before a 0.
abbrev pub until_nul : List ℕ → List ℕ
until_nul [] = []
until_nul (c ∷ cs) = let rest = until_nul cs in if c == 0 then [] else c ∷ rest
