-- ===== src/Xfs/Dirs/Encoding.antt =====
-- The short form of a directory, as it is on the disk.
use xallib.Prelude.{
  ℕ, ◌+◌, ◌/◌, ◌%◌, ◌^◌, ◌<◌, ◌≡◌, refl, ap, subst, ◌∙◌, Bool, true, false, not, List, [], ◌∷◌,
  ◌++◌, length, length-append, if◌then◌else◌, arith,
}
use xallib.Bytes.{Buf, be32, be64}
use xallib.Xfs.Dentry.{name_bytes}

-- An entry; `tag` are the two bytes of its offset.
pub record ShortEntry : Type 0 where
  pub name : List ℕ
  pub tag : ℕ × ℕ
  pub ftype : ℕ
  pub ino : ℕ

abbrev pub bytes_32 : ℕ → List ℕ
bytes_32 v = v / 2 ^ 24 % 256 ∷ (v / 2 ^ 16 % 256 ∷ (v / 2 ^ 8 % 256 ∷ (v % 256 ∷ [])))

abbrev pub bytes_64 : ℕ → List ℕ
bytes_64 v = bytes_32 (v / 2 ^ 32) ++ bytes_32 (v % 2 ^ 32)

-- An inode number has 8 bytes in a directory that is wide, and 4 in another.
abbrev pub ino_bytes : (wide : Bool) → ℕ → List ℕ
ino_bytes true = bytes_64
ino_bytes false = bytes_32

abbrev pub ino_bits : (wide : Bool) → ℕ
ino_bits true = 64
ino_bits false = 32

abbrev pub entry_bytes : (wide : Bool) → ShortEntry → List ℕ
entry_bytes wide e =
    length e.name ∷ (e.tag.0 ∷ (e.tag.1 ∷ (e.name ++ (e.ftype ∷ ino_bytes wide e.ino))))

abbrev pub short_bytes : (wide : Bool) → List ShortEntry → List ℕ
short_bytes wide [] = []
short_bytes wide (e ∷ es) = entry_bytes wide e ++ short_bytes wide es

abbrev pub FitsAll : (wide : Bool) → List ShortEntry → Type 0
FitsAll wide [] = Unit {0}
FitsAll wide (e ∷ es) = (e.ino < 2 ^ ino_bits wide) × FitsAll wide es

-- The bytes of a buffer from an offset on.
abbrev pub SpellsAt : Buf → ℕ → List ℕ → Type 0
SpellsAt buf o [] = Unit {0}
SpellsAt buf o (b ∷ bs) = (buf o ≡ b) × SpellsAt buf (o + 1) bs

-- A directory in the dinode: the two counts, the number of the parent, and the entries.
abbrev pub dir_bytes : (wide : Bool) (i8count parent : ℕ) → List ShortEntry → List ℕ
dir_bytes wide i8count parent es =
    length es ∷ (i8count ∷ (ino_bytes wide parent ++ short_bytes wide es))

pub SpellsAt-append :
    (buf : Buf) (o : ℕ) (xs ys : List ℕ)
    → SpellsAt buf o (xs ++ ys)
    → SpellsAt buf o xs × SpellsAt buf (o + length xs) ys
SpellsAt-append buf o [] ys h = (tt, subst (λ k. SpellsAt buf k ys) (omega arith) h)
SpellsAt-append buf o (x ∷ xs) ys h =
    let (first, rest) = SpellsAt-append buf (o + 1) xs ys h.1 in
    ((h.0, first), subst (λ k. SpellsAt buf k ys) (omega arith) rest)

pub name_bytes-SpellsAt :
    (buf : Buf) (o : ℕ) (xs : List ℕ) → SpellsAt buf o xs → name_bytes buf o (length xs) ≡ xs
unfolding name_bytes
name_bytes-SpellsAt buf o [] h = refl
name_bytes-SpellsAt buf o (x ∷ xs) h = rw (h.0, name_bytes-SpellsAt buf (o + 1) xs h.1) refl

be32-SpellsAt : (buf : Buf) (o v : ℕ) → v < 2 ^ 32 → SpellsAt buf o (bytes_32 v) → be32 buf o ≡ v
be32-SpellsAt buf o v small h =
    let third : buf (o + 2) ≡ buf (o + 1 + 1) = ap buf (omega arith) in
    let fourth : buf (o + 2 + 1) ≡ buf (o + 1 + 1 + 1) = ap buf (omega arith) in
    omega (arith, small, h.0, h.1.0, third ∙ h.1.1.0, fourth ∙ h.1.1.1.0)

pub be64-SpellsAt :
    (buf : Buf) (o v : ℕ) → v < 2 ^ 64 → SpellsAt buf o (bytes_64 v) → be64 buf o ≡ v
be64-SpellsAt buf o v small h =
    let (high, low) = SpellsAt-append buf o (bytes_32 (v / 2 ^ 32)) (bytes_32 (v % 2 ^ 32)) h in
    omega (
      arith,
      be32-SpellsAt buf o (v / 2 ^ 32) (omega (arith, small)) high,
      be32-SpellsAt buf (o + 4) (v % 2 ^ 32) (omega arith) low,
    )

-- The number and its width.
pub ino-SpellsAt :
    (wide : Bool) (buf : Buf) (o v : ℕ)
    → v < 2 ^ ino_bits wide
    → SpellsAt buf o (ino_bytes wide v)
    → (if not wide then be32 buf o else be64 buf o) ≡ v
ino-SpellsAt true buf o v small h = be64-SpellsAt buf o v small h
ino-SpellsAt false buf o v small h = be32-SpellsAt buf o v small h

pub length-entry_bytes :
    (wide : Bool) (e : ShortEntry)
    → length (entry_bytes wide e) ≡ 3 + length e.name + 1 + (if not wide then 4 else 8)
length-entry_bytes true e = omega (arith, length-append e.name (e.ftype ∷ bytes_64 e.ino))
length-entry_bytes false e = omega (arith, length-append e.name (e.ftype ∷ bytes_32 e.ino))

pub length-ino_bytes :
    (wide : Bool) (v : ℕ) → length (ino_bytes wide v) ≡ (if not wide then 4 else 8)
length-ino_bytes true v = refl
length-ino_bytes false v = refl
