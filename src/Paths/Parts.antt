-- ===== src/Paths/Parts.antt =====
-- Taking apart what `path_of` put together.
use xallib.Prelude.{
  ℕ, suc, ◌+◌, ◌≡◌, refl, true, false, none, some, List, [], ◌∷◌, ◌++◌, length, arith,
}
use xallib.Paths.{starts_with, skip, has_slash, split_slash, basename, path_of}

pub starts_with-append : (p s : List ℕ) → starts_with p (p ++ s) ≡ true
unfolding starts_with
starts_with-append [] s = refl
starts_with-append (c ∷ cs) s = ground (arith, starts_with-append cs s)

pub skip-append : (p s : List ℕ) → skip (length p) (p ++ s) ≡ s
unfolding skip
skip-append [] s = refl
skip-append (c ∷ cs) s = skip-append cs s

skip_past : (p : List ℕ) (c : ℕ) (s : List ℕ) → skip (suc (length p)) (p ++ (c ∷ s)) ≡ s
unfolding skip
skip_past [] c s = refl
skip_past (x ∷ xs) c s = skip_past xs c s

-- Behind a text and one byte more.
pub skip_behind : (p : List ℕ) (c : ℕ) (s : List ℕ) → skip (length p + 1) (p ++ (c ∷ s)) ≡ s
skip_behind p c s = let e : length p + 1 ≡ suc (length p) = omega arith in rw e (skip_past p c s)

pub split_slash_last : (c : List ℕ) → has_slash c ≡ false → split_slash c ≡ (c, none)
unfolding has_slash split_slash
split_slash_last [] h = refl
split_slash_last (x ∷ xs) h = ground (arith, split_slash_last xs)

pub split_slash-path_of :
    (c rest : List ℕ) → has_slash c ≡ false → split_slash (path_of c rest) ≡ (c, some rest)
unfolding has_slash split_slash
split_slash-path_of [] rest h = refl
split_slash-path_of (x ∷ xs) rest h = ground (arith, split_slash-path_of xs rest)

pub has_slash-path_of : (p c : List ℕ) → has_slash (path_of p c) ≡ true
unfolding has_slash
has_slash-path_of [] c = refl
has_slash-path_of (x ∷ xs) c = ground (arith, has_slash-path_of xs c)

pub basename-path_of : (p c : List ℕ) → has_slash c ≡ false → basename (path_of p c) ≡ c
unfolding basename
basename-path_of [] c h = ground arith
basename-path_of (x ∷ xs) c h = ground (arith, has_slash-path_of xs c, basename-path_of xs c h)
