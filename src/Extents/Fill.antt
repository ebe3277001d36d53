-- ===== src/Extents/Fill.antt =====
-- A run of elements of the pool of extents that is filled, and the room that the pool has.
use xallib.Prelude.{
  ℕ, zero, suc, ◌+◌, ◌*◌, ◌^◌, ◌≤◌, ◌<◌, ◌≡◌, refl, ◌∙◌, ap, ◌⊎◌, inl, inr, arith, update,
  update_self, update_ne,
}
use xallib.Pool.{Pool}
use xallib.Pool.Bounds.{IsValid}
use xallib.Types.{Extent, blank_extent}

-- The memory after the stores of `extent rec`, `extent (rec + 1)` and so on, `left` of them, each
-- at its number behind `extent_start`.
unfoldable pub filled : (ℕ → Extent) → (extent_start left rec : ℕ) → (ℕ → Extent) → ℕ → Extent
filled extent extent_start zero rec memory = memory
filled extent extent_start (suc left) rec memory =
    filled extent extent_start left (rec + 1) (update memory (extent_start + rec) (extent rec))

pub filled_outside :
    (extent : ℕ → Extent) (extent_start left rec : ℕ) (memory : ℕ → Extent) (i : ℕ)
    → (i < extent_start + rec) ⊎ (extent_start + rec + left ≤ i)
    → filled extent extent_start left rec memory i ≡ memory i
unfolding filled
filled_outside extent extent_start zero rec memory i h = refl
filled_outside extent extent_start (suc left) rec memory i (inl h) =
    filled_outside extent extent_start left (rec + 1) _ i (inl (omega arith))
    ∙ update_ne memory (extent_start + rec) i _ (omega arith)
filled_outside extent extent_start (suc left) rec memory i (inr h) =
    filled_outside extent extent_start left (rec + 1) _ i (inr (omega arith))
    ∙ update_ne memory (extent_start + rec) i _ (omega arith)

pub filled_inside :
    (extent : ℕ → Extent) (extent_start left rec : ℕ) (memory : ℕ → Extent) (j : ℕ)
    → j < left
    → filled extent extent_start left rec memory (extent_start + (rec + j)) ≡ extent (rec + j)
unfolding filled
filled_inside extent extent_start zero rec memory j h = absurd (omega arith)
filled_inside extent extent_start (suc left) rec memory zero h =
    filled_outside extent extent_start left (rec + 1) _ (extent_start + (rec + 0))
      (inl (omega arith))
    ∙ ap (update memory (extent_start + rec) (extent rec)) (omega arith)
    ∙ update_self memory (extent_start + rec) _
    ∙ ap extent (omega arith)
filled_inside extent extent_start (suc left) rec memory (suc j) h =
    let e : rec + suc j ≡ rec + 1 + j = omega arith in
    rw e (filled_inside extent extent_start left (rec + 1) _ j (omega arith))

mul_mono : (a b c : ℕ) → a ≤ b → a * c ≤ b * c
mul_mono a b c h = grind arith

-- A pool that is not reserved too large has indices of 32 bits only.
pub free_small : (p : Pool Extent) → IsValid blank_extent p → p.reserved ≤ 2 ^ 31 → p.free < 2 ^ 32
free_small p v h =
    grind (arith, v.used, v.mapped, v.sized, mul_mono (2 ^ 32) p.allocated p.element_size)
