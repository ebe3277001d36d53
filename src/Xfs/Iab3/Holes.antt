-- ===== src/Xfs/Iab3/Holes.antt =====
-- The test of the holemask in `decode_iab3_leaf_records`, which takes a bit for each inode.
use xallib.Prelude.{ℕ, ◌+◌, ◌-◌, ◌*◌, ◌%◌, ◌^◌, ◌≤◌, ◌<◌, ◌≡◌, ◌∙◌, ap, arith, not, ◌==◌}
use native.Mathlib.Nat.{div-eq_of_lt}
use xallib.Word.{pow-add, two_pow_pos}
use xallib.Xfs.Iab3.{InobtRec, bit_at, is_skipped}

le_double : (a k : ℕ) → 0 < k → a ≤ a * k
le_double a k h = grind arith

large : (i : ℕ) → 16 ≤ i → 2 ^ 16 ≤ 2 ^ i
large i h =
    let e : i ≡ 16 + (i - 16) = omega arith in
    rw (ap (λ n. 2 ^ n) e ∙ pow-add 16 (i - 16))
      (le_double (2 ^ 16) (2 ^ (i - 16)) (two_pow_pos (i - 16)))

no_bit : (mask i : ℕ) → mask < 2 ^ 16 → 16 ≤ i → i < 64 → bit_at mask i ≡ 0
unfolding bit_at
no_bit mask i h k l =
    let same : i % 64 ≡ i = omega arith in
    let small : mask < 2 ^ i = omega (arith, large i k) in
    rw same (ap (λ n. n % 2) (div-eq_of_lt small))

-- For a holemask of 16 bits the slots from 16 to 63 are never taken for holes: the code skips such a
-- slot only by its bit in the mask of free inodes.
pub is_skipped_past_mask :
    (rec : InobtRec) (chunk_index : ℕ)
    → rec.holemask < 2 ^ 16
    → 16 ≤ chunk_index
    → chunk_index < 64
    → is_skipped rec chunk_index ≡ not (bit_at rec.free chunk_index == 0)
unfolding is_skipped
is_skipped_past_mask rec i h k l = rw (no_bit rec.holemask i h k l)
