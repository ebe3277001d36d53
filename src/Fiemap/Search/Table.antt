-- ===== src/Fiemap/Search/Table.antt =====
-- The path table of src/xal_be_fiemap.c: how puts change it.
use Prim.Native.Nat.{Ordering}
use Prim.Native.Nat.Ordering.{lt, eq, gt}
use xallib.Prelude.{ℕ, ◌≡◌, ◌≢◌, refl, ◌∙◌, ap, sym, ◌⊎◌, inl, inr, Option, none, some, List}
use xallib.Types.{Xal, inode_at}
use xallib.Paths.{strcmp}
use xallib.Paths.Order.{strcmp_refl, eq_of_strcmp}
use xallib.Fiemap.State.{Env, Fiemap, PathTable}

-- What khash promises of `kh_put` with the store of a value: it fails, or the key has the value and
-- the other keys have what they had.
pub record IsTable (kh_put : PathTable → List ℕ → ℕ → Option PathTable) : Type 0 where
  pub puts :
      (m : PathTable) (key : List ℕ) (v : ℕ)
      → (kh_put m key v ≡ none)
        ⊎ (m' : PathTable) × (kh_put m key v ≡ some m')
          × (m' key ≡ some v)
          × ((p : List ℕ) → p ≢ key → m' p ≡ m p)

same_text : (a b : List ℕ) → (a ≡ b) ⊎ (a ≢ b)
same_text a b = by_order (strcmp a b) refl
  where
    by_order : (o : Ordering) → strcmp a b ≡ o → (a ≡ b) ⊎ (a ≢ b)
    by_order eq e = inl (eq_of_strcmp a b e)
    by_order lt e = inr (λ same. cc (ap (strcmp a) same, strcmp_refl a, e))
    by_order gt e = inr (λ same. cc (ap (strcmp a) same, strcmp_refl a, e))

abbrev pub with_map : Fiemap → PathTable → Fiemap
with_map s m = record s { path_inode_map = some m }

module _ (xal : Xal) where
  -- From the table `m` to `m'` the inodes of `V` were put under their names: what is new is one of
  -- them, and no key was lost.
  pub record Grows (V : ℕ → Type 0) (m m' : PathTable) : Type 0 where
    pub kept : (p : List ℕ) (j : ℕ) → m p ≡ some j → (i : ℕ) × (m' p ≡ some i)
    pub sound :
        (p : List ℕ) (j : ℕ) → m' p ≡ some j → (m p ≡ some j) ⊎ (V j × ((inode_at xal j).name ≡ p))
    pub covers : (j : ℕ) → V j → (i : ℕ) × (m' (inode_at xal j).name ≡ some i)

  pub Grows-nil : (m : PathTable) → Grows (λ _. ⊥) m m
  Grows-nil m = record { kept = λ p j h. (j, h); sound = λ p j h. inl h; covers = λ j v. absurd v }

  pub Grows-join :
      (V W : ℕ → Type 0) (m n o : PathTable)
      → Grows V m n
      → Grows W n o
      → Grows (λ j. V j ⊎ W j) m o
  Grows-join V W m n o a b = record {
    kept = λ p j h. let (i, e) = a.kept p j h in b.kept p i e;
    sound = λ p j h. elim (b.sound p j h) [
      | inr (w, e) ↦ inr (inr w, e)
      | inl before ↦ elim (a.sound p j before) [ inl e ↦ inl e | inr (v, e) ↦ inr (inl v, e) ]
    ];
    covers =
        λ j v. elim v [ inl x ↦ let (i, e) = a.covers j x in b.kept _ i e | inr y ↦ b.covers j y ];
  }

  pub Grows-put :
      (i : ℕ) (m m' : PathTable)
      → m' (inode_at xal i).name ≡ some i
      → ((p : List ℕ) → p ≢ (inode_at xal i).name → m' p ≡ m p)
      → Grows (λ j. j ≡ i) m m'
  Grows-put i m m' at others = record {
    kept = λ p j h. elim (same_text p (inode_at xal i).name) [
      | inl same ↦ (i, ap m' same ∙ at)
      | inr ne ↦ (j, others p ne ∙ h)
    ];
    sound = λ p j h. elim (same_text p (inode_at xal i).name) [
      | inl same ↦
          let e : some i ≡ some j = sym at ∙ sym (ap m' same) ∙ h in
          let k : j ≡ i = cc e in inr (k, ap (λ n. (inode_at xal n).name) k ∙ sym same)
      | inr ne ↦ inl (sym (others p ne) ∙ h)
    ];
    covers = λ j e. (i, ap (λ n. m' (inode_at xal n).name) e ∙ at);
  }

  pub Grows-map :
      (V W : ℕ → Type 0) (m m' : PathTable)
      → ((j : ℕ) → V j → W j)
      → ((j : ℕ) → W j → V j)
      → Grows V m m'
      → Grows W m m'
  Grows-map V W m m' f g a = record {
    kept = a.kept;
    sound = λ p j h. elim (a.sound p j h) [ inl e ↦ inl e | inr (v, e) ↦ inr (f j v, e) ];
    covers = λ j w. a.covers j (g j w);
  }

-- A `kh_put` that fails.
abbrev pub Refuses : Env → Type 0
Refuses env = (m : PathTable) × (key : List ℕ) × (v : ℕ) × (env.kh_put_path m key v ≡ none)
