-- ===== src/Bytes.antt =====
-- Buffers of on-disk bytes, and the big-endian fields that `be16toh` and its kin read from them.
use xallib.Prelude.{ℕ, ◌+◌, ◌*◌, ◌^◌, ◌<◌, ◌≡◌, ◌∙◌, ap, sym, arith}

-- A buffer gives its byte at each offset.
abbrev pub Buf : Type 0
Buf = ℕ → ℕ

abbrev pub be16 : Buf → ℕ → ℕ
be16 b o = b o * 0x100 + b (o + 1)

abbrev pub be32 : Buf → ℕ → ℕ
be32 b o = be16 b o * 0x1_0000 + be16 b (o + 2)

abbrev pub be64 : Buf → ℕ → ℕ
be64 b o = be32 b o * 0x1_0000_0000 + be32 b (o + 4)

pub record IsBytes (b : Buf) : Type 0 where
  pub byte : (o : ℕ) → b o < 256

pub be16-lt : (b : Buf) (o : ℕ) → IsBytes b → be16 b o < 2 ^ 16
be16-lt b o h = omega (arith, h.byte o, h.byte (o + 1))

pub be32-lt : (b : Buf) (o : ℕ) → IsBytes b → be32 b o < 2 ^ 32
be32-lt b o h = omega (arith, be16-lt b o h, be16-lt b (o + 2) h)

pub be64-lt : (b : Buf) (o : ℕ) → IsBytes b → be64 b o < 2 ^ 64
be64-lt b o h = omega (arith, be32-lt b o h, be32-lt b (o + 4) h)

-- A number is its eight bytes, wherever they stand.
pub be64_shift :
    (f g : Buf) (o p : ℕ) → ((i : ℕ) → i < 8 → f (o + i) ≡ g (p + i)) → be64 f o ≡ be64 g p
be64_shift f g o p same = omega (
  arith,
  byte 0 o p (omega arith) (omega arith) (omega arith),
  byte 1 (o + 1) (p + 1) (omega arith) (omega arith) (omega arith),
  byte 2 (o + 2) (p + 2) (omega arith) (omega arith) (omega arith),
  byte 3 (o + 2 + 1) (p + 2 + 1) (omega arith) (omega arith) (omega arith),
  byte 4 (o + 4) (p + 4) (omega arith) (omega arith) (omega arith),
  byte 5 (o + 4 + 1) (p + 4 + 1) (omega arith) (omega arith) (omega arith),
  byte 6 (o + 4 + 2) (p + 4 + 2) (omega arith) (omega arith) (omega arith),
  byte 7 (o + 4 + 2 + 1) (p + 4 + 2 + 1) (omega arith) (omega arith) (omega arith),
)
  where
    byte : (i x y : ℕ) → i < 8 → x ≡ o + i → y ≡ p + i → f x ≡ g y
    byte i x y small at to = ap f at ∙ same i small ∙ ap g (sym to)
