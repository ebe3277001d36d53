-- ===== src/Paths/Order.antt =====
-- `strcmp` is a total order, equal only on equal strings.
use Prim.Native.Nat.{Ordering}
use Prim.Native.Nat.Ordering.{lt, eq, gt}
use xallib.Prelude.{ℕ, ◌≡◌, ◌≢◌, refl, ◌⊎◌, inl, inr, List, [], ◌∷◌, arith}
use xallib.Paths.{strcmp}

pub strcmp_refl : (a : List ℕ) → strcmp a a ≡ eq
unfolding strcmp
strcmp_refl [] = refl
strcmp_refl (x ∷ xs) = ground (arith, strcmp_refl xs)

pub eq_of_strcmp : (a b : List ℕ) → strcmp a b ≡ eq → a ≡ b
unfolding strcmp
eq_of_strcmp [] [] h = refl
eq_of_strcmp [] (b ∷ bs) h = cc
eq_of_strcmp (a ∷ xs) [] h = cc
eq_of_strcmp (a ∷ xs) (b ∷ bs) h = ground (arith, eq_of_strcmp xs bs)

pub less_flips : (a b : List ℕ) → strcmp a b ≡ lt → strcmp b a ≡ gt
unfolding strcmp
less_flips [] [] h = cc
less_flips [] (b ∷ bs) h = refl
less_flips (a ∷ xs) [] h = cc
less_flips (a ∷ xs) (b ∷ bs) h = ground (arith, less_flips xs bs)

pub more_flips : (a b : List ℕ) → strcmp a b ≡ gt → strcmp b a ≡ lt
unfolding strcmp
more_flips [] [] h = cc
more_flips [] (b ∷ bs) h = cc
more_flips (a ∷ xs) [] h = refl
more_flips (a ∷ xs) (b ∷ bs) h = ground (arith, more_flips xs bs)

pub order_cases : (o : Ordering) → (o ≡ eq) ⊎ ((o ≡ lt) ⊎ (o ≡ gt))
order_cases eq = inl refl
order_cases lt = inr (inl refl)
order_cases gt = inr (inr refl)

pub strcmp_trans : (a b c : List ℕ) → strcmp a b ≡ lt → strcmp b c ≡ lt → strcmp a c ≡ lt
unfolding strcmp
strcmp_trans [] [] c h k = cc
strcmp_trans [] (b ∷ bs) [] h k = cc
strcmp_trans [] (b ∷ bs) (c ∷ cs) h k = refl
strcmp_trans (a ∷ xs) [] c h k = cc
strcmp_trans (a ∷ xs) (b ∷ bs) [] h k = cc
strcmp_trans (a ∷ xs) (b ∷ bs) (c ∷ cs) h k = ground (arith, strcmp_trans xs bs cs)

-- Not behind one another.
pub upto_trans : (a b c : List ℕ) → strcmp a b ≢ gt → strcmp b c ≢ gt → strcmp a c ≢ gt
upto_trans a b c h k = elim (order_cases (strcmp a b)) [
  | inl same ↦ rw (eq_of_strcmp a b same) k
  | inr (inr more) ↦ absurd (h more)
  | inr (inl less) ↦ elim (order_cases (strcmp b c)) [
    | inl same ↦ rw⁻¹ (eq_of_strcmp b c same) h
    | inr (inr more) ↦ absurd (k more)
    | inr (inl less') ↦ λ more. cc (strcmp_trans a b c less less', more)
  ]
]
