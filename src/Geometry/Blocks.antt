-- ===== src/Geometry/Blocks.antt =====
-- `xal_fsbno_offset`: the offsets of file-system blocks.
use xallib.Prelude.{ℕ, ◌+◌, ◌*◌, ◌%◌, ◌^◌, ◌≤◌, ◌<◌, ◌≡◌, arith}
use native.Mathlib.Decide.{dec_lt}
use xallib.Word.{size_mod, base_div, base_mod}
use xallib.Types.{Sb, xfs}
use xallib.Geometry.{fsbno_offset, agbno_absolute_offset}

-- The number of a block: `agno` above `agblklog` bits of block number within the group.
abbrev pub fsbno_of : Sb → ℕ → ℕ → ℕ
fsbno_of sb agno bno = agno * 2 ^ sb.agblklog + bno

-- The disk's last byte has a 64-bit offset, and an `int` holds the mask of a block number.
pub record Fits (sb : Sb) : Type 0 where
  pub block : 0 < sb.blocksize
  pub bits : sb.agblklog < 31
  pub ag : sb.agblocks ≤ 2 ^ sb.agblklog
  pub disk : sb.agcount * sb.agblocks * sb.blocksize < size_mod

-- A block number that encodes a block of a group lies where the group-relative address puts it,
-- if the block number within the group fits its bits, and these are at most 30.
pub fsbno_offset-agbno :
    (sb : Sb) (agno bno : ℕ)
    → sb.agblklog < 31
    → bno < 2 ^ sb.agblklog
    → fsbno_offset xfs sb (fsbno_of sb agno bno) ≡ agbno_absolute_offset sb agno bno
unfolding fsbno_offset agbno_absolute_offset
fsbno_offset-agbno sb agno bno bits h =
    let same : sb.agblklog % 32 ≡ sb.agblklog = omega arith in
    rw (same, base_div agno bno (2 ^ sb.agblklog) h, base_mod agno bno (2 ^ sb.agblklog) h)

row_lt : (r c w h : ℕ) → r < h → c < w → r * w + c < h * w
row_lt r c w h p q = grind arith

next_product : (m n k : ℕ) → m < n → m * k + k ≤ n * k
next_product m n k h = grind arith

le_product : (m k : ℕ) → 0 < k → m ≤ m * k
le_product m k h = grind arith

-- Within the disk no product wraps.
offset_exact :
    (sb : Sb) (agno bno : ℕ)
    → Fits sb
    → agno < sb.agcount
    → bno < sb.agblocks
    → agbno_absolute_offset sb agno bno ≡ (agno * sb.agblocks + bno) * sb.blocksize
unfolding agbno_absolute_offset
offset_exact sb agno bno f h k =
    let row : agno * sb.agblocks + bno < sb.agcount * sb.agblocks =
      row_lt agno bno sb.agblocks sb.agcount h k in
    let whole : (agno * sb.agblocks + bno) * sb.blocksize < size_mod =
      omega (arith, next_product _ _ sb.blocksize row, f.disk) in
    let small : (agno * sb.agblocks + bno) < size_mod =
      omega (arith, le_product (agno * sb.agblocks + bno) sb.blocksize f.block) in
    let e : (agno * sb.agblocks % size_mod + bno) % size_mod ≡ agno * sb.agblocks + bno =
      omega arith in
    rw e (omega arith)

-- The order of block numbers is the order on the disk, if no group is longer than its numbers.
linear_lt :
    (a b c d w n : ℕ) → w ≤ n → b < w → d < w → a * n + b < c * n + d → a * w + b < c * w + d
linear_lt a b c d w n s hb hd lt = elim (dec_lt a c) [
  | yes p ↦ omega (arith, next_product a c w p)
  | no p ↦ elim (dec_lt c a) [
    | yes q ↦ absurd (omega (arith, next_product c a n q))
    | no q ↦ let e : a ≡ c = omega arith in rw e (omega (arith, rw e at lt))
  ]
]

-- Of two block numbers that name blocks within their allocation groups, on a disk whose offsets
-- have 64 bits and whose groups have at most 30 bits of block number, the larger one lies at
-- least a block further on: different blocks do not overlap.
pub fsbno_offset_disjoint :
    (sb : Sb) (a b c d : ℕ)
    → Fits sb
    → a < sb.agcount
    → b < sb.agblocks
    → c < sb.agcount
    → d < sb.agblocks
    → fsbno_of sb a b < fsbno_of sb c d
    → fsbno_offset xfs sb (fsbno_of sb a b) + sb.blocksize ≤ fsbno_offset xfs sb (fsbno_of sb c d)
fsbno_offset_disjoint sb a b c d f ha hb hc hd lt =
    rw
      (
        fsbno_offset-agbno sb a b f.bits (omega (arith, f.ag)),
        fsbno_offset-agbno sb c d f.bits (omega (arith, f.ag)),
        offset_exact sb a b f ha hb,
        offset_exact sb c d f hc hd,
      )
      (next_product _ _ sb.blocksize
        (linear_lt a b c d sb.agblocks (2 ^ sb.agblklog) f.ag hb hd lt))
