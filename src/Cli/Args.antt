-- ===== src/Cli/Args.antt =====
-- `parse_args` of src/cli.c.
use Prim.Native.String.{String}
use Prim.Native.Char.{code}
use xallib.Prelude.{ℕ, Bool, true, false, Option, none, some, List, [], ◌∷◌, if◌then◌else◌}
use xallib.Result.{Result, ok, err, einval}
use xallib.Paths.{str_eq}

-- The bytes of a literal.
abbrev pub codes : String → List ℕ
codes String.[] = []
codes (String.◌∷◌ c s) = code c ∷ codes s

-- `struct xal_cli_args`; a string is `none` where the pointer is NULL.
pub record CliArgs : Type 0 where
  pub bmap : Bool
  pub find : Bool
  pub meta : Bool
  pub stats : Bool
  pub file_lookup_map : Bool
  pub backend : Option (List ℕ)
  pub dev_uri : Option (List ℕ)
  pub filename : Option (List ℕ)

-- `struct xal_cli_args args = {0}`
abbrev pub blank_args : CliArgs
blank_args = record {
  bmap = false;
  find = false;
  meta = false;
  stats = false;
  file_lookup_map = false;
  backend = none;
  dev_uri = none;
  filename = none;
}

-- The tests of a word, in the order of the `else if`s.
pub data Word : Type 0 where
  is_bmap is_find is_meta is_stats is_file_lookup_map is_backend is_filename is_other : Word

unfoldable pub word_of : List ℕ → Word
word_of arg =
    if str_eq arg (codes "--bmap")
    then is_bmap
    else if str_eq arg (codes "--find")
    then is_find
    else if str_eq arg (codes "--meta")
    then is_meta
    else if str_eq arg (codes "--stats")
    then is_stats
    else if str_eq arg (codes "--file_lookup_map")
    then is_file_lookup_map
    else if str_eq arg (codes "--backend")
    then is_backend
    else if str_eq arg (codes "--filename")
    then is_filename
    else is_other

-- `if (args->dev_uri == NULL) … else …` of the last branch.
abbrev pub put_dev_uri : List ℕ → CliArgs → Result CliArgs
put_dev_uri arg args = elim args.dev_uri [
  | none ↦ ok (record args { dev_uri = some arg })
  | some uri ↦ err einval
]

-- A round of the loop at the last word, or at a word that takes no value.
unfoldable pub take_word : List ℕ → CliArgs → Result CliArgs
take_word arg args = elim (word_of arg) [
  | is_bmap ↦ ok (record args { bmap = true })
  | is_find ↦ ok (record args { find = true })
  | is_meta ↦ ok (record args { meta = true })
  | is_stats ↦ ok (record args { stats = true })
  | is_file_lookup_map ↦ ok (record args { file_lookup_map = true })
  | is_backend ↦ err einval
  | is_filename ↦ err einval
  | is_other ↦ put_dev_uri arg args
]

-- The loop over `argv[i]`; `argv[++i]` is `value`.
unfoldable pub parse_words : List (List ℕ) → CliArgs → Result CliArgs
parse_words [] args = ok args
parse_words (arg ∷ []) args = take_word arg args
parse_words (arg ∷ (value ∷ rest)) args = elim (word_of arg) [
  | is_backend ↦ parse_words rest (record args { backend = some value })
  | is_filename ↦ parse_words rest (record args { filename = some value })
  | _ ↦ elim (take_word arg args) [ err e ↦ err e | ok args' ↦ parse_words (value ∷ rest) args' ]
]

-- The test behind the loop.
abbrev pub require_dev_uri : Result CliArgs → Result CliArgs
require_dev_uri (err e) = err e
require_dev_uri (ok args) = elim args.dev_uri [ none ↦ err einval | some uri ↦ ok args ]

-- `parse_args`. The first word is the name of the program.
unfoldable pub parse_args : (argv : List (List ℕ)) → CliArgs → Result CliArgs
parse_args [] args = err einval
parse_args (name ∷ []) args = err einval
parse_args (name ∷ (arg ∷ rest)) args = require_dev_uri (parse_words (arg ∷ rest) args)
