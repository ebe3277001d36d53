-- ===== src/Fiemap/Search/Traversal.antt =====
-- `search_by_traversal` of src/xal_be_fiemap.c finds an inode by its path.
use xallib.Prelude.{
  ℕ, zero, suc, ◌+◌, ◌<◌, ◌≡◌, refl, ◌∙◌, ap, sym, inl, inr, false, leb, List, ◌∷◌, ◌++◌, length,
  length-append, append_assoc, arith,
}
use xallib.Result.{ok}
use xallib.Types.{Xal, inode_at}
use xallib.Paths.{path_of}
use xallib.Paths.Parts.{split_slash_last, split_slash-path_of, starts_with-append, skip_behind}
use xallib.Fiemap.State.{Env}
use xallib.Fiemap.Search.{search_loop, search_by_traversal}
use xallib.Fiemap.Search.Named.{
  IsBsearch, IsSorted, IsNamed, IsNamed-basename, IsIndexed, Below, child, deeper, child_at,
  last_of, not_file, bsearch_child,
}

length-path_of : (p r : List ℕ) → length (path_of p r) ≡ length p + suc (length r)
length-path_of p r = length-append p _

path_of_assoc : (p c r : List ℕ) → path_of (path_of p c) r ≡ path_of p (path_of c r)
path_of_assoc p c r = append_assoc p _ _

module _ (env : Env) (b : IsBsearch env.bsearch) (xal : Xal) where
  -- The last round of the loop.
  search_child :
      (fuel : ℕ) (path : List ℕ) (inode k : ℕ)
      → IsSorted xal inode
      → k < (inode_at xal inode).content.count
      → (n : IsNamed path (inode_at xal (child_at xal inode k)))
      → search_loop env (suc fuel) xal inode n.component ≡ ok (child_at xal inode k)
  unfolding search_loop
  search_child fuel path inode k sorted lt n =
      let e : last_of xal inode sorted k ≡ n.component = IsNamed-basename path _ n in
      let found = rw e at (bsearch_child xal inode sorted env.bsearch b k lt) in
      simp (search_loop, split_slash_last n.component n.no_slash, found) refl

  -- A round before it.
  search_deeper :
      (fuel : ℕ) (path : List ℕ) (inode k : ℕ) (rest : List ℕ)
      → IsSorted xal inode
      → k < (inode_at xal inode).content.count
      → (n : IsNamed path (inode_at xal (child_at xal inode k)))
      → search_loop env (suc fuel) xal inode (path_of n.component rest)
        ≡ search_loop env fuel xal (child_at xal inode k) rest
  unfolding search_loop
  search_deeper fuel path inode k rest sorted lt n =
      let e : last_of xal inode sorted k ≡ n.component = IsNamed-basename path _ n in
      let found = rw e at (bsearch_child xal inode sorted env.bsearch b k lt) in
      simp (search_loop, split_slash-path_of n.component rest n.no_slash, found) refl

  -- From the directory with the path `path` on, the rest of the path of `j` leads to it.
  record Leads (path : List ℕ) (inode j : ℕ) : Type 0 where
    rest : List ℕ
    some_rest : 0 < length rest
    path_there : (inode_at xal j).name ≡ path_of path rest
    leads : (fuel : ℕ) → length rest < fuel → search_loop env fuel xal inode rest ≡ ok j

  child-Leads :
      (path : List ℕ) (inode k : ℕ)
      → IsSorted xal inode
      → k < (inode_at xal inode).content.count
      → IsNamed path (inode_at xal (child_at xal inode k))
      → Leads path inode (child_at xal inode k)
  child-Leads path inode k sorted lt n = record {
    rest = n.component;
    some_rest = n.not_empty;
    path_there = n.named;
    leads = with_fuel;
  }
    where
      with_fuel :
          (fuel : ℕ)
          → length n.component < fuel
          → search_loop env fuel xal inode n.component ≡ ok (child_at xal inode k)
      with_fuel zero h = absurd (omega arith)
      with_fuel (suc fuel) h = search_child fuel path inode k sorted lt n

  deeper-Leads :
      (path : List ℕ) (inode k j : ℕ)
      → IsSorted xal inode
      → k < (inode_at xal inode).content.count
      → IsNamed path (inode_at xal (child_at xal inode k))
      → Leads (inode_at xal (child_at xal inode k)).name (child_at xal inode k) j
      → Leads path inode j
  deeper-Leads path inode k j sorted lt n l = record {
    rest = path_of n.component l.rest;
    some_rest = omega (arith, length-path_of n.component l.rest);
    path_there =
        l.path_there ∙ ap (λ p. path_of p l.rest) n.named ∙ path_of_assoc path n.component l.rest;
    leads = with_fuel;
  }
    where
      with_fuel :
          (fuel : ℕ)
          → length (path_of n.component l.rest) < fuel
          → search_loop env fuel xal inode (path_of n.component l.rest) ≡ ok j
      with_fuel zero h = absurd (omega arith)
      with_fuel (suc fuel) h =
          search_deeper fuel path inode k l.rest sorted lt n
          ∙ l.leads fuel (omega (arith, length-path_of n.component l.rest))

  name-Leads :
      (levels : ℕ) (path : List ℕ) (inode j : ℕ)
      → IsIndexed xal levels path inode
      → Below xal inode j
      → Leads path inode j
  unfolding IsIndexed
  name-Leads zero path inode j h d = absurd h
  name-Leads (suc levels) path inode j (inl file) (child _ k dir bound) =
      absurd (not_file xal inode file dir)
  name-Leads (suc levels) path inode j (inl file) (deeper _ k _ dir bound d) =
      absurd (not_file xal inode file dir)
  name-Leads (suc levels) path inode j (inr (dir, sorted, at)) (child _ k _ bound) =
      child-Leads path inode k sorted bound (at k bound).0
  name-Leads (suc levels) path inode j (inr (dir, sorted, at)) (deeper _ k _ _ bound d) =
      deeper-Leads path inode k j sorted bound (at k bound).0
        (name-Leads levels _ _ j (at k bound).1 d)

  -- Below a mountpoint with sorted directories whose inodes are named by their paths the search
  -- by traversal finds each inode by its path, at any depth. This supposes what the C standard
  -- says of bsearch().
  pub search_by_traversal-name :
      (levels : ℕ) (mountpoint : List ℕ) (root j : ℕ)
      → IsIndexed xal levels mountpoint root
      → Below xal root j
      → search_by_traversal env xal mountpoint root (inode_at xal j).name ≡ ok j
  unfolding search_by_traversal
  search_by_traversal-name levels mountpoint root j h d =
      let l = name-Leads levels mountpoint root j h d in
      let n = length-path_of mountpoint l.rest in
      let long : leb (length (path_of mountpoint l.rest)) (length mountpoint + 1) ≡ false =
        ground (arith, n, l.some_rest) in
      rw l.path_there (
        simp
          (
            search_by_traversal,
            long,
            starts_with-append mountpoint _,
            skip_behind mountpoint b'/' l.rest,
          )
          (l.leads _ (omega (arith, n))))

  -- Two inodes below the mountpoint with the same path are the same.
  pub name_injective :
      (levels : ℕ) (mountpoint : List ℕ) (root i j : ℕ)
      → IsIndexed xal levels mountpoint root
      → Below xal root i
      → Below xal root j
      → (inode_at xal i).name ≡ (inode_at xal j).name
      → i ≡ j
  name_injective levels mountpoint root i j h di dj e =
      let x = search_by_traversal-name levels mountpoint root i h di in
      let y = search_by_traversal-name levels mountpoint root j h dj in
      let z : ok i ≡ ok j = sym x ∙ ap (search_by_traversal env xal mountpoint root) e ∙ y in cc z

module _ (env : Env) (xal : Xal) where
  -- A search by traversal gives the same whatever byte stands behind the mountpoint in the path.
  pub search_by_traversal_any_byte :
      (mountpoint : List ℕ) (root c : ℕ) (rest : List ℕ)
      → search_by_traversal env xal mountpoint root (mountpoint ++ (c ∷ rest))
        ≡ search_by_traversal env xal mountpoint root (path_of mountpoint rest)
  unfolding search_by_traversal
  search_by_traversal_any_byte mountpoint root c rest =
      simp
        (
          length-append mountpoint (c ∷ rest),
          length-append mountpoint (b'/' ∷ rest),
          starts_with-append mountpoint,
          skip_behind mountpoint c rest,
          skip_behind mountpoint b'/' rest,
        )
        refl
