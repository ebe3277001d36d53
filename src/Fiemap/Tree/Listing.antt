-- ===== src/Fiemap/Tree/Listing.antt =====
-- The names of a directory, as `readdir` gives them and `process_inode_dir_fiemap` of
-- src/xal_be_fiemap.c takes them out and sorts them.
use Prim.Native.Nat.{Ordering}
use Prim.Native.Nat.Ordering.{lt, gt}
use mathlib.Core.Logic.{∥∥₁_map, ∥∥₁_elim}
use mathlib.Core.HLevel.{⊥_prop}
use mathlib.Core.List.{Mem, Memᴰ, Pairwise, Nodup, Perm, Permᴰ}
use mathlib.Core.List.Perm
use xallib.Prelude.{
  ℕ, suc, ◌+◌, ◌<◌, ◌≡◌, ◌≢◌, refl, ap, sym, subst, ◌∙◌, ◌⊎◌, inl, inr, Bool-cases, Option-cases,
  false, List, [], ◌∷◌, ◌++◌, map, append-nil, append_assoc, length, arith,
}
use xallib.Result.{ok}
use xallib.Paths.{strcmp, has_slash}
use xallib.Paths.Order.{eq_of_strcmp, order_cases}
use xallib.Fiemap.State.{Env, Fiemap, Dirent}
use xallib.Fiemap.Index.{is_directory_member, compare_dirent, entry_room, read_entries, read_dir}
use xallib.Fiemap.Keeps.{call_cases}

-- What the C standard says of qsort(), for the order that the code sorts names by.
pub record IsQsort (qsort : (List ℕ → List ℕ → Ordering) → List (List ℕ) → List (List ℕ))
    : Type 0 where
  pub permutes : (names : List (List ℕ)) → Perm names (qsort compare_dirent names)
  pub sorts :
      (names : List (List ℕ))
      → Pairwise (λ (a b : List ℕ). strcmp a b ≢ gt) (qsort compare_dirent names)

same_or_not : (m n : ℕ) → (m ≡ n) ⊎ (m ≢ n)
same_or_not m n = ground arith

-- A component of a path.
pub record IsComponent (name : List ℕ) : Type 0 where
  pub not_empty : 0 < length name
  pub no_slash : has_slash name ≡ false

abbrev pub names_of : List Dirent → List (List ℕ)
names_of = map (λ d. d.d_name)

-- What POSIX says of readdir(): a directory has each name once, and a name is not empty and has
-- no slash.
pub record IsReaddir (opendir : List ℕ → ℕ ⊎ List Dirent) : Type 0 where
  pub distinct : (path : List ℕ) (ds : List Dirent) → opendir path ≡ inr ds → Nodup (names_of ds)
  pub components :
      (path : List ℕ) (ds : List Dirent)
      → opendir path ≡ inr ds
      → (name : List ℕ) → Mem name (names_of ds)
      → IsComponent name

-- Names in strict order, each a component.
pub record IsRising (names : List (List ℕ)) : Type 0 where
  pub rises : Pairwise (λ (a b : List ℕ). strcmp a b ≡ lt) names
  pub components : (name : List ℕ) → Mem name names → IsComponent name

-- Names that were taken out of a directory.
record Taken (ds : List Dirent) (names : List (List ℕ)) : Type 0 where
  still_distinct : Nodup (names_of ds) → Nodup names
  member : (name : List ℕ) → Memᴰ name names → Memᴰ name (names_of ds)

Taken-skip :
    (d : Dirent) (ds : List Dirent) (names : List (List ℕ)) → Taken ds names → Taken (d ∷ ds) names
Taken-skip d ds names t = record {
  still_distinct = λ n. elim n [ Pairwise.cons h rest ↦ t.still_distinct rest ];
  member = λ name m. Memᴰ.tail (t.member name m);
}

Taken-cons :
    (d : Dirent) (ds : List Dirent) (names : List (List ℕ))
    → Taken ds names
    → Taken (d ∷ ds) (d.d_name ∷ names)
Taken-cons d ds names t = record {
  still_distinct = λ n. elim n [
    | Pairwise.cons h rest ↦
        Pairwise.cons (λ a m. h a (∥∥₁_map m (t.member a))) (t.still_distinct rest)
  ];
  member = λ name m. elim m [
    | Memᴰ.head e ↦ Memᴰ.head e
    | Memᴰ.tail rest ↦ Memᴰ.tail (t.member name rest)
  ];
}

module _ (env : Env) where
  read_entries-Taken :
      (ds : List Dirent) (n capacity : ℕ) (es names : List (List ℕ))
      → read_entries env ds n capacity es ≡ ok names
      → (taken : List (List ℕ)) × (names ≡ es ++ taken) × Taken ds taken
  unfolding read_entries
  read_entries-Taken [] n capacity es names h =
      let same : es ≡ names = cc h in
      ([], sym same ∙ sym (append-nil es), record { still_distinct = λ x. x; member = λ name m. m })
  read_entries-Taken (d ∷ ds) n capacity es names h =
      elim (Bool-cases (is_directory_member d.d_name)) [
        | inr dot ↦
            let (taken, e, t) =
              read_entries-Taken ds n capacity es names (simp (read_entries, dot) at h) in
            (taken, e, Taken-skip d ds taken t)
        | inl member ↦ elim (Option-cases (entry_room env n capacity)) [
          | inl full ↦ cc (simp (read_entries, member, full) at h)
          | inr (c, room) ↦ elim (Bool-cases (env.strdup d.d_name)) [
            | inr missed ↦ cc (simp (read_entries, member, room, missed) at h)
            | inl copied ↦
                let (taken, e, t) =
                  read_entries-Taken ds (n + 1) c (es ++ (d.d_name ∷ [])) names
                    (simp (read_entries, member, room, copied) at h) in
                (d.d_name ∷ taken, e ∙ append_assoc es _ taken, Taken-cons d ds taken t)
          ]
        ]
      ]

strict :
    (names : List (List ℕ))
    → Pairwise (λ (a b : List ℕ). strcmp a b ≢ gt) names
    → Nodup names
    → Pairwise (λ (a b : List ℕ). strcmp a b ≡ lt) names
strict [] s n = Pairwise.nil
strict (x ∷ xs) (Pairwise.cons h s) (Pairwise.cons k n) =
    Pairwise.cons (λ a m. less a (h a m) (k a m)) (strict xs s n)
  where
    less : (a : List ℕ) → strcmp x a ≢ gt → x ≢ a → strcmp x a ≡ lt
    less a up ne = elim (order_cases (strcmp x a)) [
      | inl same ↦ absurd (ne (eq_of_strcmp x a same))
      | inr (inl below) ↦ below
      | inr (inr above) ↦ absurd (up above)
    ]

same_length : (xs ys : List (List ℕ)) → Permᴰ xs ys → length xs ≡ length ys
same_length [] [] Permᴰ.nil = refl
same_length (x ∷ xs) (y ∷ ys) (Permᴰ.cons e p) = ap suc (same_length xs ys p)
same_length (x ∷ x' ∷ xs) (y ∷ y' ∷ ys) (Permᴰ.swap e f) = refl
same_length xs ys (Permᴰ.trans {l₂ = zs} p q) = same_length xs zs p ∙ same_length zs ys q

pub length-Perm : (xs ys : List (List ℕ)) → Perm xs ys → length xs ≡ length ys
length-Perm xs ys p = elim (same_or_not (length xs) (length ys)) [
  | inl e ↦ e
  | inr ne ↦ absurd (∥∥₁_elim p ⊥_prop (λ d. ne (same_length xs ys d)))
]

-- What a directory's names are once they are sorted.
pub read_dir-IsRising :
    (env : Env) (path : List ℕ) (s : Fiemap) (names : List (List ℕ))
    → IsReaddir env.opendir
    → IsQsort env.qsort
    → (read_dir env path s).0 ≡ ok names
    → IsRising (env.qsort compare_dirent names)
unfolding read_dir
read_dir-IsRising env path s names r q h = elim (call_cases (env.opendir path)) [
  | inl (c, e) ↦ cc (simp (read_dir, e) at h)
  | inr (ds, e) ↦
      let (taken, same, t) = read_entries-Taken env ds 0 0 [] names (simp (read_dir, e) at h) in
      let p = q.permutes names in
      let n : Nodup names = subst Nodup (sym same) (t.still_distinct (r.distinct path ds e)) in
      record {
        rises = strict _ (q.sorts names) (Perm.nodup p n);
        components = λ name m.
            r.components path ds e name
              (∥∥₁_map (subst (Mem name) same (Perm.subset (Perm.symm p) name m)) (t.member name));
      }
]
