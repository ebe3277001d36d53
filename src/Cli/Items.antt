-- ===== src/Cli/Items.antt =====
-- What the command line of src/cli.c means: its words taken together as items, in any order.
use xallib.Prelude.{
  ℕ, ◌≡◌, refl, ap, ◌∙◌, inl, inr, Bool, true, false, none, some, List, [], ◌∷◌, ◌++◌, All,
  append_assoc,
}
use xallib.Result.{Result, ok, err, einval, Result-cases}
use xallib.Paths.{strcmp}
use xallib.Cli.Args.{
  CliArgs, blank_args, Word, is_bmap, is_find, is_meta, is_stats, is_file_lookup_map, is_backend,
  is_filename, is_other, codes, word_of, take_word, put_dev_uri, parse_words, require_dev_uri,
  parse_args,
}

pub data Switch : Type 0 where
  bmap find meta stats file_lookup_map : Switch

pub data Setting : Type 0 where
  backend filename : Setting

-- An option without a value, one with its value, or the device.
pub data Item : Type 0 where
  switch : Switch → Item
  setting : Setting → List ℕ → Item
  device : List ℕ → Item

abbrev pub setting_word : Setting → List ℕ
setting_word backend = codes "--backend"
setting_word filename = codes "--filename"

abbrev pub words_of : Item → List (List ℕ)
words_of (switch bmap) = codes "--bmap" ∷ []
words_of (switch find) = codes "--find" ∷ []
words_of (switch meta) = codes "--meta" ∷ []
words_of (switch stats) = codes "--stats" ∷ []
words_of (switch file_lookup_map) = codes "--file_lookup_map" ∷ []
words_of (setting kind value) = setting_word kind ∷ (value ∷ [])
words_of (device uri) = uri ∷ []

abbrev pub all_words : List Item → List (List ℕ)
all_words [] = []
all_words (item ∷ items) = words_of item ++ all_words items

-- A later option replaces an earlier one; there is one device.
abbrev pub apply : Item → CliArgs → Result CliArgs
apply (switch bmap) args = ok (record args { bmap = true })
apply (switch find) args = ok (record args { find = true })
apply (switch meta) args = ok (record args { meta = true })
apply (switch stats) args = ok (record args { stats = true })
apply (switch file_lookup_map) args = ok (record args { file_lookup_map = true })
apply (setting backend value) args = ok (record args { backend = some value })
apply (setting filename value) args = ok (record args { filename = some value })
apply (device uri) args = elim args.dev_uri [
  | none ↦ ok (record args { dev_uri = some uri })
  | some first ↦ err einval
]

abbrev pub apply_all : List Item → CliArgs → Result CliArgs
apply_all [] args = ok args
apply_all (item ∷ items) args = elim (apply item args) [
  | err e ↦ err e
  | ok args' ↦ apply_all items args'
]

-- The name of a device is not that of an option.
abbrev pub IsItem : Item → Type 0
IsItem (device uri) = word_of uri ≡ is_other
IsItem _ = Unit {0}

takes_value : Word → Bool
takes_value is_backend = true
takes_value is_filename = true
takes_value _ = false

after : Result CliArgs → List (List ℕ) → Result CliArgs
after (err e) rest = err e
after (ok args) rest = parse_words rest args

-- A word without a value, whatever follows.
take_more :
    (arg next : List ℕ) (rest : List (List ℕ)) (args : CliArgs) (w : Word)
    → word_of arg ≡ w
    → takes_value w ≡ false
    → parse_words (arg ∷ (next ∷ rest)) args ≡ after (take_word arg args) (next ∷ rest)
unfolding parse_words after takes_value take_word
take_more arg next rest args is_backend e h = cc h
take_more arg next rest args is_filename e h = cc h
take_more arg next rest args is_bmap e h = simp (parse_words, take_word, e) refl
take_more arg next rest args is_find e h = simp (parse_words, take_word, e) refl
take_more arg next rest args is_meta e h = simp (parse_words, take_word, e) refl
take_more arg next rest args is_stats e h = simp (parse_words, take_word, e) refl
take_more arg next rest args is_file_lookup_map e h = simp (parse_words, take_word, e) refl
take_more arg next rest args is_other e h = elim (Result-cases (put_dev_uri arg args)) [
  | inl (a, k) ↦ simp (parse_words, take_word, e, k) refl
  | inr (c, k) ↦ simp (parse_words, take_word, e, k) refl
]

take_first :
    (arg : List ℕ) (rest : List (List ℕ)) (args : CliArgs)
    → takes_value (word_of arg) ≡ false
    → parse_words (arg ∷ rest) args ≡ after (take_word arg args) rest
unfolding after parse_words
take_first arg [] args h = elim (Result-cases (take_word arg args)) [
  | inl (a, e) ↦ rw e refl
  | inr (c, e) ↦ rw e refl
]
take_first arg (next ∷ rest) args h = take_more arg next rest args (word_of arg) refl h

-- A word whose kind is known, and what it does.
plain :
    (arg : List ℕ) (rest : List (List ℕ)) (args : CliArgs) (w : Word) (r : Result CliArgs)
    → word_of arg ≡ w
    → takes_value w ≡ false
    → take_word arg args ≡ r
    → parse_words (arg ∷ rest) args ≡ after r rest
plain arg rest args w r e h t =
    take_first arg rest args (ap takes_value e ∙ h) ∙ ap (λ r. after r rest) t

parse_words-item :
    (item : Item) (rest : List (List ℕ)) (args : CliArgs)
    → IsItem item
    → parse_words (words_of item ++ rest) args ≡ after (apply item args) rest
unfolding word_of strcmp take_word parse_words after takes_value
parse_words-item (switch bmap) rest args i =
    plain (codes "--bmap") rest args is_bmap _ refl refl refl
parse_words-item (switch find) rest args i =
    plain (codes "--find") rest args is_find _ refl refl refl
parse_words-item (switch meta) rest args i =
    plain (codes "--meta") rest args is_meta _ refl refl refl
parse_words-item (switch stats) rest args i =
    plain (codes "--stats") rest args is_stats _ refl refl refl
parse_words-item (switch file_lookup_map) rest args i =
    plain (codes "--file_lookup_map") rest args is_file_lookup_map _ refl refl refl
parse_words-item (setting backend value) rest args i = refl
parse_words-item (setting filename value) rest args i = refl
parse_words-item (device uri) rest args i =
    plain uri rest args is_other (put_dev_uri uri args) i refl (simp (take_word, i) refl)

parse_words-words :
    (items : List Item) (args : CliArgs)
    → All IsItem items
    → parse_words (all_words items) args ≡ apply_all items args
unfolding after parse_words
parse_words-words [] args h = refl
parse_words-words (item ∷ items) args (h, hs) =
    parse_words-item item (all_words items) args h ∙ elim (Result-cases (apply item args)) [
      | inl (a, e) ↦ simp (apply_all, e) (parse_words-words items a hs)
      | inr (c, e) ↦ simp (apply_all, e) refl
    ]

parse_args-parse_words :
    (name : List ℕ) (words : List (List ℕ))
    → parse_args (name ∷ words) blank_args ≡ require_dev_uri (parse_words words blank_args)
unfolding parse_args parse_words
parse_args-parse_words name [] = refl
parse_args-parse_words name (word ∷ words) = refl

-- A command line that consists of options, options with their values and devices, in any order,
-- where no device is spelled like an option, is parsed as those items one after the other, the
-- later over the earlier: it gives the settings, and fails where there are two devices or none.
pub parse_args-items :
    (name : List ℕ) (items : List Item)
    → All IsItem items
    → parse_args (name ∷ all_words items) blank_args ≡ require_dev_uri (apply_all items blank_args)
parse_args-items name items h =
    parse_args-parse_words name (all_words items)
    ∙ ap require_dev_uri (parse_words-words items blank_args h)

no_value :
    (items : List Item) (kind : Setting) (args done : CliArgs)
    → All IsItem items
    → apply_all items args ≡ ok done
    → parse_words (all_words items ++ (setting_word kind ∷ [])) args ≡ err einval
unfolding parse_words take_word word_of strcmp after
no_value [] backend args done h e = refl
no_value [] filename args done h e = refl
no_value (item ∷ items) kind args done (h, hs) e =
    let more = all_words items ++ (setting_word kind ∷ []) in
    ap (λ ws. parse_words ws args) (append_assoc (words_of item) (all_words items) _)
    ∙ parse_words-item item more args h
    ∙ elim (Result-cases (apply item args)) [
      | inl (a, k) ↦ rw k (no_value items kind a done hs (simp (apply_all, k) at e))
      | inr (c, k) ↦ cc (simp (apply_all, k) at e)
    ]

-- An option that takes a value and stands last is refused, where what stands before it is parsed.
pub parse_args-no_value :
    (name : List ℕ) (items : List Item) (kind : Setting) (args : CliArgs)
    → All IsItem items
    → apply_all items blank_args ≡ ok args
    → parse_args (name ∷ (all_words items ++ (setting_word kind ∷ []))) blank_args ≡ err einval
parse_args-no_value name items kind args h e =
    parse_args-parse_words name (all_words items ++ (setting_word kind ∷ []))
    ∙ ap require_dev_uri (no_value items kind blank_args args h e)
