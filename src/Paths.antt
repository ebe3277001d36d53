-- ===== src/Paths.antt =====
-- C strings as the source uses them in src/xal_be_fiemap.c: their bytes without the ending 0. The
-- string functions of libc are written out by what the C standard says of them.
pub mod Order
pub mod Parts
use Prim.Native.Nat.{compare, Ordering}
use Prim.Native.Nat.Ordering.{lt, eq, gt}
use xallib.Prelude.{
  ℕ, zero, suc, Bool, true, false, ◌&&◌, ◌||◌, Option, none, some, List, [], ◌∷◌, ◌++◌, ◌==◌,
  if◌then◌else◌,
}

-- `strcmp`, whose sign is an `Ordering`: by unsigned bytes, and a prefix first.
unfoldable pub strcmp : List ℕ → List ℕ → Ordering
strcmp [] [] = eq
strcmp [] (b ∷ bs) = lt
strcmp (a ∷ as') [] = gt
strcmp (a ∷ as') (b ∷ bs) = elim (compare a b) [ lt ↦ lt | eq ↦ strcmp as' bs | gt ↦ gt ]

-- `strcmp(a, b) == 0`
abbrev pub str_eq : List ℕ → List ℕ → Bool
str_eq a b = elim (strcmp a b) [ eq ↦ true | _ ↦ false ]

-- `strncmp(s, prefix, strlen(prefix)) == 0`
unfoldable pub starts_with : List ℕ → List ℕ → Bool
starts_with [] s = true
starts_with (p ∷ ps) [] = false
starts_with (p ∷ ps) (c ∷ cs) = p == c && starts_with ps cs

-- `s + n`
unfoldable pub skip : ℕ → List ℕ → List ℕ
skip zero s = s
skip (suc n) [] = []
skip (suc n) (c ∷ cs) = skip n cs

unfoldable pub has_slash : List ℕ → Bool
has_slash [] = false
has_slash (c ∷ cs) = c == b'/' || has_slash cs

-- What stands before the first `/`, and what behind it, if there is one: `strchr`.
unfoldable pub split_slash : List ℕ → List ℕ × Option (List ℕ)
split_slash [] = ([], none)
split_slash (c ∷ cs) =
    let rest = split_slash cs in if c == b'/' then ([], some cs) else (c ∷ rest.0, rest.1)

-- What stands behind the last `/`, or the whole: `strrchr`.
unfoldable pub basename : List ℕ → List ℕ
basename [] = []
basename (c ∷ cs) =
    let rest = basename cs in if has_slash cs then rest else if c == b'/' then cs else c ∷ cs

-- `snprintf(…, "%s/%s", path, name)`
abbrev pub path_of : List ℕ → List ℕ → List ℕ
path_of path name = path ++ (b'/' ∷ name)
