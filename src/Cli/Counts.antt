-- ===== src/Cli/Counts.antt =====
-- The counts that the callbacks of src/cli.c keep during a walk.
use xallib.Prelude.{
  ℕ, suc, ◌+◌, ◌%◌, ◌<◌, ◌≡◌, refl, sym, subst, ◌∙◌, ap, ◌⊎◌, Bool, Bool-cases, true, false, inl,
  inr, some, List, [], ◌∷◌, if◌then◌else◌, arith,
}
use xallib.Result.{Exec, Result, ok, err, Result-cases, ◌>>=◌}
use xallib.Word.{size_mod}
use xallib.Types.{Xal, inode_at}
use xallib.Walk.{Walk, inode_is_dir, inode_is_file, call_back, walk}
use xallib.Walk.Preorder.{IsTree, preorder, visit_all, walk-preorder}
use xallib.Print.{Piece, text}
use xallib.Cli.Inspect.{
  Inspector, count_dir, count_file, print_line, path_line, extents_part, node_inspector_find,
  node_inspector_bmap,
}

-- How many inodes of a list a test holds of.
abbrev pub number_of : (ℕ → Bool) → List (ℕ × ℕ) → ℕ
number_of test [] = 0
number_of test (p ∷ ps) = if test p.0 then suc (number_of test ps) else number_of test ps

module _ (xal : Xal) where
  abbrev pub is_dir_at : ℕ → Bool
  is_dir_at i = inode_is_dir (inode_at xal i)

  abbrev pub is_file_at : ℕ → Bool
  is_file_at i = if inode_is_dir (inode_at xal i) then false else inode_is_file (inode_at xal i)

  -- The counts, before and after some inodes.
  pub record Counted (ps : List (ℕ × ℕ)) (s t : Walk Inspector) : Type 0 where
    pub dirs : t.cb_data.ndirs ≡ (s.cb_data.ndirs + number_of is_dir_at ps) % size_mod
    pub files : t.cb_data.nfiles ≡ (s.cb_data.nfiles + number_of is_file_at ps) % size_mod

  -- What a callback that succeeds counts.
  abbrev pub Counts : (ℕ → ℕ → Exec (Walk Inspector) (Unit {0})) → Type 0
  Counts cb =
      (inode level : ℕ) (s : Walk Inspector)
      → s.cb_data.ndirs < size_mod
      → s.cb_data.nfiles < size_mod
      → (cb inode level s).0 ≡ ok tt
      → Counted ((inode, level) ∷ []) s (cb inode level s).1

  -- The number of directories and of files among one inode.
  kinds :
      (inode level : ℕ)
      → (inode_is_dir (inode_at xal inode) ≡ true)
          × (number_of is_dir_at ((inode, level) ∷ []) ≡ 1)
          × (number_of is_file_at ((inode, level) ∷ []) ≡ 0)
        ⊎ ((inode_is_dir (inode_at xal inode) ≡ false)
              × (inode_is_file (inode_at xal inode) ≡ true)
              × (number_of is_dir_at ((inode, level) ∷ []) ≡ 0)
              × (number_of is_file_at ((inode, level) ∷ []) ≡ 1)
            ⊎ (inode_is_dir (inode_at xal inode) ≡ false)
              × (inode_is_file (inode_at xal inode) ≡ false)
              × (number_of is_dir_at ((inode, level) ∷ []) ≡ 0)
              × (number_of is_file_at ((inode, level) ∷ []) ≡ 0))
  kinds inode level = elim (Bool-cases (inode_is_dir (inode_at xal inode))) [
    | inl dir ↦ inl (dir, rw dir refl, rw dir refl)
    | inr other ↦ elim (Bool-cases (inode_is_file (inode_at xal inode))) [
      | inl file ↦ inr (inl (other, file, rw other refl, rw (other, file) refl))
      | inr none_of ↦ inr (inr (other, none_of, rw other refl, rw (other, none_of) refl))
    ]
  ]

  print_line_counts :
      (r : Result (List Piece)) (s : Walk Inspector)
      → ((print_line r s).1.cb_data.ndirs ≡ s.cb_data.ndirs)
        × ((print_line r s).1.cb_data.nfiles ≡ s.cb_data.nfiles)
  print_line_counts (ok ps) s = (refl, refl)
  print_line_counts (err e) s = (refl, refl)

  pub find-Counts : (dev_uri : List ℕ) (fuel : ℕ) → Counts (node_inspector_find xal dev_uri fuel)
  unfolding node_inspector_find
  find-Counts dev_uri fuel inode level s nd nf h =
      let r = path_line xal dev_uri fuel [] (text "\n" ∷ []) inode in
      let d = print_line_counts r (count_dir s) in
      let f = print_line_counts r (count_file s) in
      elim (kinds inode level) [
        | inl (dir, one, zero) ↦ record {
          dirs = rw (one, dir) d.0;
          files = rw (zero, dir) (omega (arith, d.1, nf));
        }
        | inr (inl (other, file, zero, one)) ↦ record {
          dirs = rw (zero, other, file) (omega (arith, f.0, nd));
          files = rw (one, other, file) f.1;
        }
        | inr (inr (other, none_of, zero, zero')) ↦ record {
          dirs = rw (zero, other, none_of) (omega (arith, nd));
          files = rw (zero', other, none_of) (omega (arith, nf));
        }
      ]

  pub bmap-Counts : (dev_uri : List ℕ) (fuel : ℕ) → Counts (node_inspector_bmap xal dev_uri fuel)
  unfolding node_inspector_bmap
  bmap-Counts dev_uri fuel inode level s nd nf h =
      let r =
        path_line xal dev_uri fuel (text "'" ∷ [])
          (extents_part xal dev_uri fuel (inode_at xal inode)) inode in
      let f = print_line_counts r (count_file s) in
      elim (kinds inode level) [
        | inl (dir, one, zero) ↦ record {
          dirs = rw (one, dir) refl;
          files = rw (zero, dir) (omega (arith, nf));
        }
        | inr (inl (other, file, zero, one)) ↦ record {
          dirs = rw (zero, other, file) (omega (arith, f.0, nd));
          files = rw (one, other, file) f.1;
        }
        | inr (inr (other, none_of, zero, zero')) ↦ record {
          dirs = rw (zero, other, none_of) (omega (arith, nd));
          files = rw (zero', other, none_of) (omega (arith, nf));
        }
      ]

  module _ (cb : ℕ → ℕ → Exec (Walk Inspector) (Unit {0})) (counts : Counts cb) where
    number_of-cons :
        (test : ℕ → Bool) (p : ℕ × ℕ) (ps : List (ℕ × ℕ))
        → number_of test (p ∷ ps) ≡ number_of test (p ∷ []) + number_of test ps
    number_of-cons test p ps = ground arith

    -- What follows a callback.
    after_first :
        (p : ℕ × ℕ) (ps : List (ℕ × ℕ)) (s : Walk Inspector)
        → s.cb_data.ndirs < size_mod
        → s.cb_data.nfiles < size_mod
        → ((t : Walk Inspector)
            → t.cb_data.ndirs < size_mod
            → t.cb_data.nfiles < size_mod
            → (visit_all xal (some cb) ps t).0 ≡ ok tt
            → Counted ps t (visit_all xal (some cb) ps t).1)
        → ((cb p.0 p.1 >>= λ _. visit_all xal (some cb) ps) s).0 ≡ ok tt
        → Counted (p ∷ ps) s ((cb p.0 p.1 >>= λ _. visit_all xal (some cb) ps) s).1
    after_first p ps s nd nf later h = elim (Result-cases (cb p.0 p.1 s).0) [
      | inr (c, e) ↦ cc (rw e at h)
      | inl (u, e) ↦
          let t : Walk Inspector = (cb p.0 p.1 s).1 in
          let first = counts p.0 p.1 s nd nf e in
          let rest = later t (omega (arith, first.dirs)) (omega (arith, first.files)) (rw e at h) in
          rw e (record {
            dirs = omega (arith, first.dirs, rest.dirs, number_of-cons is_dir_at p ps);
            files = omega (arith, first.files, rest.files, number_of-cons is_file_at p ps);
          })
    ]

    guard_false : {A : Type 0} (b : Bool) (x y : A) → b ≡ false → (if b then x else y) ≡ y
    guard_false b x y e = rw e refl

    visit_all-Counted :
        (ps : List (ℕ × ℕ)) (s : Walk Inspector)
        → s.cb_data.ndirs < size_mod
        → s.cb_data.nfiles < size_mod
        → (visit_all xal (some cb) ps s).0 ≡ ok tt
        → Counted ps s (visit_all xal (some cb) ps s).1
    unfolding visit_all call_back
    visit_all-Counted [] s nd nf h = record { dirs = omega (arith, nd); files = omega (arith, nf) }
    visit_all-Counted (p ∷ ps) s nd nf h = elim (Bool-cases s.dirty) [
      | inl stale ↦ cc (rw stale at h)
      | inr fresh ↦
          let run : visit_all xal (some cb) (p ∷ ps) s
              ≡ (cb p.0 p.1 >>= λ _. visit_all xal (some cb) ps) s =
            guard_false s.dirty _ _ fresh in
          subst (λ r. Counted (p ∷ ps) s r.1) (sym run)
            (after_first p ps s nd nf (λ t nd' nf' k. visit_all-Counted ps t nd' nf' k)
              (ap (λ r. r.0) (sym run) ∙ h))
    ]

    pub walk-Counted :
        (levels root : ℕ) (s : Walk Inspector)
        → IsTree xal levels root
        → s.cb_data.ndirs < size_mod
        → s.cb_data.nfiles < size_mod
        → (walk xal (some cb) levels root s).0 ≡ ok tt
        → Counted (preorder xal levels root 0) s (walk xal (some cb) levels root s).1
    walk-Counted levels root s tree nd nf h =
        let e = walk-preorder xal (some cb) levels root s tree in
        subst (λ r. Counted (preorder xal levels root 0) s r.1) (sym e)
          (visit_all-Counted (preorder xal levels root 0) s nd nf (ap (λ r. r.0) (sym e) ∙ h))
