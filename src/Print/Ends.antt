-- ===== src/Print/Ends.antt =====
-- When `xal_inode_pp` of src/pp.c ends: its loop over the children counts with a `uint8_t`.
use xallib.Prelude.{
  ℕ, zero, suc, ◌+◌, ◌%◌, ◌^◌, ◌<◌, ◌≤◌, ◌≡◌, ◌≢◌, refl, ◌⊎◌, inl, inr, true, Bool-cases, lt→ltb,
  ltb→lt, ltb, ◌==◌, ==_iff, List, ◌++◌, arith,
}
use xallib.Result.{Result, ok, Result-cases}
use xallib.Types.{Xal, inode_at, ft_dir, ft_reg_file}
use xallib.Print.{Piece, Printed}
use xallib.Print.Inodes.{pp_children, pp_content, inode_pp}

-- A tree of files and directories with at most 255 entries in each directory, `fuel` levels at most.
unfoldable pub IsNarrow : Xal → (fuel inode : ℕ) → Type 0
IsNarrow xal zero inode = ⊥
IsNarrow xal (suc fuel) inode =
    ((inode_at xal inode).ftype ≢ ft_dir)
    ⊎ ((inode_at xal inode).content.count ≤ 255)
      × ((k : ℕ)
          → k < (inode_at xal inode).content.count
          → IsNarrow xal fuel ((inode_at xal inode).content.idx + k))

-- Something is printed.
abbrev pub Returns : {A : Type 0} → Result A → Type 0
Returns {A} r = (a : A) × (r ≡ ok a)

module _ (xal : Xal) (width : Piece → ℕ) where
  pp_children-Returns :
      (pp : ℕ → Result Printed) (idx count rounds i : ℕ)
      → count ≤ 255
      → i ≤ count
      → count < rounds + i
      → ((k : ℕ) → k < count → Returns (pp (idx + k)))
      → Returns (pp_children xal width pp idx count rounds i)
  unfolding pp_children
  pp_children-Returns pp idx count zero i narrow upto enough child =
      absurd (omega (arith, upto, enough))
  pp_children-Returns pp idx count (suc rounds) i narrow upto enough child =
      elim (Bool-cases (ltb i count)) [
        | inr done ↦ rw done (_, refl)
        | inl more ↦
            let less : i < count = ltb→lt i count more in
            let next : (i + 1) % 2 ^ 8 ≡ i + 1 = omega (arith, less, narrow) in
            let (a, e) = child i less in
            let (rest, r) =
              pp_children-Returns pp idx count rounds (i + 1) narrow (omega (arith, less))
                (omega (arith, enough)) child in
            (a.out ++ rest, simp (pp_children, more, e, next, r) refl)
      ]

  -- Printing an inode ends, for a tree of at most the fuel in levels whose directories have at
  -- most 255 entries each.
  pub inode_pp-Returns :
      (fuel inode : ℕ) → IsNarrow xal fuel inode → Returns (inode_pp xal width fuel 256 inode)
  unfolding inode_pp pp_content IsNarrow
  inode_pp-Returns zero inode h = absurd h
  inode_pp-Returns (suc fuel) inode h = elim (Bool-cases ((inode_at xal inode).ftype == ft_dir)) [
    | inr other ↦ elim (Bool-cases ((inode_at xal inode).ftype == ft_reg_file)) [
      | inl file ↦ rw (other, file) (_, refl)
      | inr none_of ↦ rw (other, none_of) (_, refl)
    ]
    | inl dir ↦ elim h [
      | inl not_dir ↦ absurd (not_dir ((==_iff _ _).0 dir))
      | inr (narrow, below) ↦
          let pp = λ (child : ℕ). inode_pp xal width fuel 256 child in
          let (out, e) =
            pp_children-Returns pp (inode_at xal inode).content.idx
              (inode_at xal inode).content.count 256 0 narrow (omega arith) (omega (arith, narrow))
              (λ k bound.
                inode_pp-Returns fuel ((inode_at xal inode).content.idx + k) (below k bound)) in
          rw dir (simp e (_, refl))
    ]
  ]

  pp_children-endless :
      (pp : ℕ → Result Printed) (idx count rounds i : ℕ) (out : List Piece)
      → 255 < count
      → i < 256
      → pp_children xal width pp idx count rounds i ≢ ok out
  unfolding pp_children
  pp_children-endless pp idx count zero i out wide small h = cc h
  pp_children-endless pp idx count (suc rounds) i out wide small h =
      let more : ltb i count ≡ true = lt→ltb i count (omega (arith, wide, small)) in
      elim (Result-cases (pp (idx + i))) [
        | inr (c, e) ↦ cc (simp (pp_children, more, e) at h)
        | inl (a, e) ↦
            elim (Result-cases (pp_children xal width pp idx count rounds ((i + 1) % 2 ^ 8))) [
              | inr (c, r) ↦ cc (simp (pp_children, more, e, r) at h)
              | inl (rest, r) ↦
                  pp_children-endless pp idx count rounds ((i + 1) % 2 ^ 8) rest wide (omega arith)
                    r
            ]
      ]

  -- Printing an inode that is a directory with more than 255 entries does not end, however many
  -- rounds its loop takes, since the loop counts with a uint8_t.
  pub inode_pp-endless :
      (fuel rounds inode : ℕ) (p : Printed)
      → (inode_at xal inode).ftype ≡ ft_dir
      → 255 < (inode_at xal inode).content.count
      → inode_pp xal width fuel rounds inode ≢ ok p
  unfolding inode_pp pp_content
  inode_pp-endless zero rounds inode p dir wide h = cc h
  inode_pp-endless (suc fuel) rounds inode p dir wide h =
      let content = (inode_at xal inode).content in
      let pp = λ (child : ℕ). inode_pp xal width fuel rounds child in
      elim (Result-cases (pp_children xal width pp content.idx content.count rounds 0)) [
        | inl (out, e) ↦
            pp_children-endless pp content.idx content.count rounds 0 out wide (omega arith) e
        | inr (c, e) ↦ cc (rw ((==_iff (inode_at xal inode).ftype ft_dir).1 dir, e) at h)
      ]
