-- ===== src/Geometry/Inodes.antt =====
-- Inode numbers by group, block and slot, for `xal_ino_decode_absolute` of src/xal_be_xfs.c.
use xallib.Prelude.{ℕ, ◌+◌, ◌-◌, ◌*◌, ◌/◌, ◌%◌, ◌^◌, ◌≤◌, ◌<◌, ◌≡◌, sym, ◌∙◌, ap, arith}
use native.Mathlib.Nat.{add_comm, mod-eq_of_lt}
use xallib.Word.{two_pow_pos, pow-add, base_div, base_mod}
use xallib.Types.{Sb}
use xallib.Geometry.{ino_decode_relative, ino_decode_absolute}

-- Block `agbno` and slot `agbino` of a group, as an inode number relative to the group.
abbrev pub relative_of : Sb → ℕ → ℕ → ℕ
relative_of sb agbno agbino = agbno * 2 ^ sb.inopblog + agbino

abbrev pub absolute_of : Sb → ℕ → ℕ → ℕ → ℕ
absolute_of sb seqno agbno agbino =
    seqno * 2 ^ (sb.agblklog + sb.inopblog) + relative_of sb agbno agbino

relative_lt : (b i n m : ℕ) → b < n → i < m → b * m + i < n * m
relative_lt b i n m h k = grind arith

regroup : (s b i n m : ℕ) → s * (n * m) + (b * m + i) ≡ (s * n + b) * m + i
regroup s b i n m = grind arith

division : (s k : ℕ) → s ≡ s / k * k + s % k
division s k = omega arith

expand : (q t m k r : ℕ) → q * (m * k) + (t * m + r) ≡ (q * k + t) * m + r
expand q t m k r = grind arith

-- Cutting a number in the base `m` to fewer digits keeps its last one.
cut : (s r m k : ℕ) → r < m → 0 < k → (s * m + r) % (m * k) ≡ (s % k) * m + r
cut s r m k h p =
    ap (λ n. n % (m * k)) (ap (λ n. n * m + r) (division s k) ∙ sym (expand (s / k) (s % k) m k r))
    ∙ base_mod (s / k) _ (m * k) (omega (arith, relative_lt (s % k) r k m (omega arith) h))

-- The parts of a number that holds whatever above a relative number.
decode_above :
    (sb : Sb) (s b i : ℕ)
    → b < 2 ^ sb.agblklog
    → i < 2 ^ sb.inopblog
    → ino_decode_relative sb (s * 2 ^ (sb.agblklog + sb.inopblog) + relative_of sb b i) ≡ (b, i)
unfolding ino_decode_relative
decode_above sb s b i hb hi = rw (
  pow-add sb.agblklog sb.inopblog,
  regroup s b i (2 ^ sb.agblklog) (2 ^ sb.inopblog),
  base_div (s * 2 ^ sb.agblklog + b) i (2 ^ sb.inopblog) hi,
  base_mod (s * 2 ^ sb.agblklog + b) i (2 ^ sb.inopblog) hi,
  base_mod s b (2 ^ sb.agblklog) hb,
)

-- A relative inode number decodes to the block and the slot that it was made from, if they fit
-- their bits.
pub decode_relative-relative_of :
    (sb : Sb) (agbno agbino : ℕ)
    → agbno < 2 ^ sb.agblklog
    → agbino < 2 ^ sb.inopblog
    → ino_decode_relative sb (relative_of sb agbno agbino) ≡ (agbno, agbino)
decode_relative-relative_of sb b i hb hi =
    ap (ino_decode_relative sb) (omega arith) ∙ decode_above sb 0 b i hb hi

module _ (sb : Sb) (narrow : sb.agblklog + sb.inopblog ≤ 32) (s b i : ℕ) (hb : b < 2 ^ sb.agblklog)
    (hi : i < 2 ^ sb.inopblog) where
  rel_lt : relative_of sb b i < 2 ^ (sb.agblklog + sb.inopblog)
  rel_lt =
      rw (pow-add sb.agblklog sb.inopblog)
        (relative_lt b i (2 ^ sb.agblklog) (2 ^ sb.inopblog) hb hi)

  word32 : 2 ^ 32 ≡ 2 ^ (sb.agblklog + sb.inopblog) * 2 ^ (32 - (sb.agblklog + sb.inopblog))
  word32 =
      let e : 32 ≡ sb.agblklog + sb.inopblog + (32 - (sb.agblklog + sb.inopblog)) = omega arith in
      ap (λ n. 2 ^ n) e ∙ pow-add (sb.agblklog + sb.inopblog) (32 - (sb.agblklog + sb.inopblog))

  low_word :
      absolute_of sb s b i % 2 ^ 32
      ≡ s % 2 ^ (32 - (sb.agblklog + sb.inopblog)) * 2 ^ (sb.agblklog + sb.inopblog)
        + relative_of sb b i
  low_word = rw word32 (cut s (relative_of sb b i) _ _ rel_lt (two_pow_pos _))

  -- An absolute inode number decodes to the group, the block and the slot that it was made from,
  -- where the relative part fits 32 bits and the group number too.
  pub decode_absolute-absolute_of :
      s < 2 ^ 32 → ino_decode_absolute sb (absolute_of sb s b i) ≡ (s, b, i)
  unfolding ino_decode_absolute
  decode_absolute-absolute_of hs = rw (
    low_word,
    decode_above sb _ b i hb hi,
    add_comm sb.inopblog sb.agblklog,
    base_div s (relative_of sb b i) (2 ^ (sb.agblklog + sb.inopblog)) rel_lt,
    mod-eq_of_lt hs,
  )
