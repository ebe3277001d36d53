-- ===== src/Fiemap/Search/Hashmap.antt =====
-- The walk of `build_hashmap_walk` in src/xal_be_fiemap.c.
use xallib.Prelude.{
  ℕ, zero, suc, ◌+◌, ◌-◌, ◌≤◌, ◌<◌, ◌≡◌, refl, ◌∙◌, ap, sym, subst, ◌⊎◌, inl, inr, List,
  if◌then◌else◌, lt→ltb, arith,
}
use xallib.Result.{Result, Exec, ok, err, eio, pure, bind_result}
use xallib.Types.{inode_at}
use xallib.Walk.{inode_is_dir}
use xallib.Fiemap.State.{Env, Fiemap, PathTable}
use xallib.Fiemap.Search.{put_path, build_children, build_hashmap_walk}
use xallib.Fiemap.Search.Named.{IsNamed, IsIndexed, Below, child, deeper, child_at, not_file}
use xallib.Fiemap.Search.Table.{
  IsTable, with_map, Grows, Grows-nil, Grows-join, Grows-put, Grows-map, Refuses,
}

-- A part of the walk, from the table `m` on: a put fails, or the inodes of `V` are in the table.
abbrev pub Ends : Env → Fiemap → (ℕ → Type 0) → PathTable → Result (Unit {0}) × Fiemap → Type 0
Ends env s V m r =
    (Refuses env × (m' : PathTable) × (r ≡ (err eio, with_map s m')))
    ⊎ ((m' : PathTable) × (r ≡ (ok tt, with_map s m')) × Grows s.xal V m m')

first_or_later : (i l : ℕ) → i ≤ l → (l ≡ i) ⊎ (i + 1 ≤ l)
first_or_later i l h = ground arith

module _ (env : Env) (t : IsTable env.kh_put_path) (s : Fiemap) where
  Ends-bind :
      (V W : ℕ → Type 0) (m : PathTable) (r : Result (Unit {0}) × Fiemap)
      (g : Exec Fiemap (Unit {0}))
      → Ends env s V m r
      → ((m' : PathTable) → Ends env s W m' (g (with_map s m')))
      → Ends env s (λ j. V j ⊎ W j) m (bind_result r (λ _. g))
  Ends-bind V W m r g (inl (missed, m', e)) h = inl (missed, m', ap (λ q. bind_result q (λ _. g)) e)
  Ends-bind V W m r g (inr (n, e, a)) h = elim (h n) [
    | inl (missed, m', e') ↦ inl (missed, m', ap (λ q. bind_result q (λ _. g)) e ∙ e')
    | inr (m', e', b) ↦
        inr (m', ap (λ q. bind_result q (λ _. g)) e ∙ e', Grows-join s.xal V W m n m' a b)
  ]

  Ends-map :
      (V W : ℕ → Type 0) (m : PathTable) (r : Result (Unit {0}) × Fiemap)
      → ((j : ℕ) → V j → W j)
      → ((j : ℕ) → W j → V j)
      → Ends env s V m r
      → Ends env s W m r
  Ends-map V W m r f g (inl missed) = inl missed
  Ends-map V W m r f g (inr (m', e, a)) = inr (m', e, Grows-map s.xal V W m m' f g a)

  put_path-Ends :
      (i : ℕ) (m : PathTable)
      → Ends env s (λ j. j ≡ i) m (put_path env (inode_at s.xal i).name i (with_map s m))
  unfolding put_path
  put_path-Ends i m = elim (t.puts m (inode_at s.xal i).name i) [
    | inl missed ↦ inl ((m, (inode_at s.xal i).name, i, missed), m, simp missed refl)
    | inr (m', e, at, others) ↦ inr (m', simp e refl, Grows-put s.xal i m m' at others)
  ]

  -- An inode and what is below it.
  abbrev Within : ℕ → ℕ → Type 0
  Within i j = (j ≡ i) ⊎ Below s.xal i j

  abbrev Among : (idx left : ℕ) → ℕ → Type 0
  Among idx left j = (l : ℕ) × (idx ≤ l) × (l < idx + left) × Within l j

  build_children-Ends :
      (visit : ℕ → Exec Fiemap (Unit {0})) (idx left : ℕ)
      → ((l : ℕ)
          → idx ≤ l
          → l < idx + left
          → (m : PathTable) → Ends env s (Within l) m (visit l (with_map s m)))
      → (m : PathTable)
      → Ends env s (Among idx left) m (build_children env visit idx left (with_map s m))
  unfolding build_children
  build_children-Ends visit idx zero h m = inr (
    m,
    refl,
    Grows-map s.xal _ _ m m (λ j v. absurd v) (λ j (l, lo, hi, v). absurd (omega arith))
        (Grows-nil s.xal m),
  )
  build_children-Ends visit idx (suc left) h m = Ends-map _ _ m _ join part (
      Ends-bind (Within idx) (Among (idx + 1) left) m (visit idx (with_map s m))
        (build_children env visit (idx + 1) left) (h idx (omega arith) (omega arith) m)
        (build_children-Ends visit (idx + 1) left (λ l lo hi. h l (omega arith) (omega arith))))
    where
      join : (j : ℕ) → Within idx j ⊎ Among (idx + 1) left j → Among idx (suc left) j
      join j (inl v) = (idx, omega arith, omega arith, v)
      join j (inr (l, lo, hi, v)) = (l, omega arith, omega arith, v)

      part : (j : ℕ) → Among idx (suc left) j → Within idx j ⊎ Among (idx + 1) left j
      part j (l, lo, hi, v) = elim (first_or_later idx l lo) [
        | inl e ↦ inl (subst (λ x. Within x j) e v)
        | inr later ↦ inr (l, later, omega arith, v)
      ]

  -- The second part of the walk at an inode, if the walk is right at its children.
  part-Ends :
      (levels : ℕ) (path : List ℕ) (i : ℕ)
      → IsIndexed s.xal (suc levels) path i
      → ((k : ℕ)
          → k < (inode_at s.xal i).content.count
          → IsNamed path (inode_at s.xal (child_at s.xal i k))
          → IsIndexed s.xal levels (inode_at s.xal (child_at s.xal i k)).name (child_at s.xal i k)
          → (m : PathTable)
          → Ends env s
              (Within (child_at s.xal i k))
              m
              (build_hashmap_walk env levels (child_at s.xal i k) (with_map s m)))
      → (m : PathTable)
      → Ends env s (Below s.xal i) m (
          (if inode_is_dir (inode_at s.xal i)
              then build_children env
                  (λ j. build_hashmap_walk env levels j)
                  (inode_at s.xal i).content.idx
                  (inode_at s.xal i).content.count
              else pure tt)
            (with_map s m))
  unfolding IsIndexed
  part-Ends levels path i (inl file) h m =
      rw file
        (inr (m, refl, Grows-map s.xal _ _ m m (λ j v. absurd v) none_below (Grows-nil s.xal m)))
    where
      none_below : (j : ℕ) → Below s.xal i j → ⊥
      none_below j (child _ k dir bound) = not_file s.xal i file dir
      none_below j (deeper _ k _ dir bound d) = not_file s.xal i file dir
  part-Ends levels path i (inr (dir, sorted, at)) h m = rw dir (
      Ends-map _ _ m _ lower raise_to (
        build_children-Ends _ (inode_at s.xal i).content.idx (inode_at s.xal i).content.count
          (λ l lo hi.
            let bound : l - (inode_at s.xal i).content.idx < (inode_at s.xal i).content.count =
              omega (arith, lo, hi) in
            let here = at (l - (inode_at s.xal i).content.idx) bound in
            subst
              (λ x.
                (n : PathTable)
                → Ends env s (Within x) n (build_hashmap_walk env levels x (with_map s n)))
              (omega (arith, lo)) (h (l - (inode_at s.xal i).content.idx) bound here.0 here.1))
          m))
    where
      lower :
          (j : ℕ)
          → Among (inode_at s.xal i).content.idx (inode_at s.xal i).content.count j
          → Below s.xal i j
      lower j (l, lo, hi, v) =
          let bound : l - (inode_at s.xal i).content.idx < (inode_at s.xal i).content.count =
            omega (arith, lo, hi) in
          let e : l ≡ child_at s.xal i (l - (inode_at s.xal i).content.idx) = omega (arith, lo) in
          elim v [
            | inl same ↦ subst (λ x. Below s.xal i x) (sym (same ∙ e)) (child i _ dir bound)
            | inr d ↦ deeper i _ j dir bound (subst (λ x. Below s.xal x j) e d)
          ]

      raise_to :
          (j : ℕ)
          → Below s.xal i j
          → Among (inode_at s.xal i).content.idx (inode_at s.xal i).content.count j
      raise_to j (child _ k _ bound) =
          (child_at s.xal i k, omega arith, omega (arith, bound), inl refl)
      raise_to j (deeper _ k _ _ bound d) =
          (child_at s.xal i k, omega arith, omega (arith, bound), inr d)

  walk-Ends :
      (levels : ℕ) (path : List ℕ) (i : ℕ)
      → IsIndexed s.xal levels path i
      → 0 < (inode_at s.xal i).namelen
      → (m : PathTable) → Ends env s (Within i) m (build_hashmap_walk env levels i (with_map s m))
  unfolding build_hashmap_walk IsIndexed
  walk-Ends zero path i h n m = absurd h
  walk-Ends (suc levels) path i h n m = rw (lt→ltb _ _ n) (
      Ends-bind (λ j. j ≡ i) (Below s.xal i) m
        (put_path env (inode_at s.xal i).name i (with_map s m)) _ (put_path-Ends i m)
        (part-Ends levels path i h
          (λ k bound named indexed. walk-Ends levels _ _ indexed named.has_name)))

  -- The walk from a root without a name, which is not in the table.
  pub root-Ends :
      (levels : ℕ) (path : List ℕ) (i : ℕ)
      → IsIndexed s.xal levels path i
      → (inode_at s.xal i).namelen ≡ 0
      → (m : PathTable)
      → Ends env s (Below s.xal i) m (build_hashmap_walk env levels i (with_map s m))
  unfolding build_hashmap_walk IsIndexed
  root-Ends zero path i h n m = absurd h
  root-Ends (suc levels) path i h n m = rw n (
      part-Ends levels path i h
        (λ k bound named indexed. walk-Ends levels _ _ indexed named.has_name) m)
