-- ===== src/Pool/Bounds.antt =====
-- The invariant of `struct xal_pool`, for the functions of src/xal_pool.c.
use xallib.Prelude.{
  ℕ, ◌+◌, ◌*◌, ◌/◌, ◌^◌, ◌≤◌, ◌<◌, ◌≡◌, ◌≢◌, refl, inl, inr, Bool-cases, ltb_false→le, Option-cases,
  none, leb, ltb, arith,
}
use xallib.Result.{Error, stuck, ok, err}
use xallib.Word.{mul_size_exact, mul-div_cancel, mul_size, add_size}
use xallib.Pool.{Kernel, Pool, grown, grow, make_room}

abbrev pub page_size : ℕ
page_size = 4096

-- What mprotect(2) documents: it fails with ENOMEM on a page that is not mapped, so a call that
-- succeeds stays within the mapping's last page (no other mapping follows it directly).
pub record ChecksMapping (kernel : Kernel) : Type 0 where
  pub refuses : (mapped n : ℕ) → kernel.mprotect mapped n ≡ none → n < mapped + page_size

-- The limits under which no size wraps, and a sound state: elements handed out are
-- writable, writable elements are mapped, and elements within the
-- reserved size that are not handed out are blank.
pub record IsValid {E : Type 0} (blank : E) (p : Pool E) : Type 0 where
  pub sized : 0 < p.element_size
  pub small : p.reserved * p.element_size ≤ 2 ^ 62
  pub step : p.growby ≤ p.reserved
  pub used : p.free ≤ p.allocated
  pub mapped : p.allocated * p.element_size < p.reserved * p.element_size + page_size
  pub zeroed : (i : ℕ) → p.free ≤ i → i < p.reserved → p.memory i ≡ blank

mul_mono : (a b c : ℕ) → a ≤ b → a * c ≤ b * c
mul_mono a b c h = grind arith

le_mul : (a c : ℕ) → 0 < c → a ≤ a * c
le_mul a c h = grind arith

-- No size wraps in a pool that meets its invariant.
record Exact {E : Type 0} (p : Pool E) (n : ℕ) : Type 0 where
  all_nbytes : mul_size p.reserved p.element_size ≡ p.reserved * p.element_size
  new_nbytes : mul_size n p.element_size ≡ n * p.element_size
  old_nbytes : mul_size p.allocated p.element_size ≡ p.allocated * p.element_size
  sum_nbytes :
      (p.allocated + n) * p.element_size ≡ p.allocated * p.element_size + n * p.element_size
  sum : add_size p.allocated n ≡ p.allocated + n
  first : mul_size p.free p.element_size / p.element_size ≡ p.free
  small : n * p.element_size ≤ p.reserved * p.element_size

exact : {E : Type 0} {blank : E} (p : Pool E) (n : ℕ) → IsValid blank p → n ≤ p.reserved → Exact p n
exact p n v h = record {
  all_nbytes = omega arith;
  new_nbytes = omega (arith, mul_mono n p.reserved p.element_size h);
  old_nbytes = omega arith;
  sum_nbytes = omega arith;
  sum = omega (
    arith,
    mul_mono n p.reserved p.element_size h,
    le_mul n p.element_size v.sized,
    le_mul p.allocated p.element_size v.sized,
  );
  first =
      rw
        (mul_size_exact p.free p.element_size
          (omega (arith, mul_mono p.free p.allocated p.element_size v.used)))
        (mul-div_cancel p.free p.element_size v.sized);
  small = mul_mono n p.reserved p.element_size h;
}

module _ {E : Type 0} (blank : E) (kernel : Kernel) (checks : ChecksMapping kernel) where
  grown-IsValid :
      (p : Pool E) (n : ℕ)
      → IsValid blank p
      → n ≤ p.reserved
      → kernel.mprotect
          (mul_size p.reserved p.element_size)
          (add_size (mul_size n p.element_size) (mul_size p.allocated p.element_size))
        ≡ none
      → IsValid blank (grown blank kernel n p)
  grown-IsValid p n v h e =
      let x = exact p n v h in
      record {
        sized = v.sized;
        small = v.small;
        step = v.step;
        used = omega (arith, x.sum);
        mapped = rw x.sum (
            omega (
              arith,
              checks.refuses _ _ e,
              x.all_nbytes,
              x.new_nbytes,
              x.old_nbytes,
              x.sum_nbytes,
              x.small,
            ));
        zeroed = λ i lo hi. ground (arith, v.zeroed i lo hi);
      }

  -- Growing a valid pool by at most its reserved size keeps it valid, whether or not mprotect()
  -- succeeds. This supposes that mprotect() refuses what is not mapped.
  pub grow-IsValid :
      (n : ℕ) (p : Pool E)
      → n ≤ p.reserved
      → IsValid blank p
      → IsValid blank (grow blank kernel n p).1
  unfolding grow
  grow-IsValid n p h v =
      elim (Option-cases (
        kernel.mprotect (mul_size p.reserved p.element_size)
          (add_size (mul_size n p.element_size) (mul_size p.allocated p.element_size)))) [
            | inl e ↦ rw (e, grow) (grown-IsValid p n v h e)
            | inr (c, e) ↦ rw (e, grow) v
          ]

  pub make_room-IsValid :
      (count : ℕ) (p : Pool E) → IsValid blank p → IsValid blank (make_room blank kernel count p).1
  unfolding make_room
  make_room-IsValid count p v = ground (arith, grow-IsValid p.growby p v.step v)

  -- What a call that grows the pool, or finds it large enough, leaves behind.
  pub record HasRoom (count : ℕ) (p q : Pool E) : Type 0 where
    pub valid : IsValid blank q
    pub same_free : q.free ≡ p.free
    pub same_reserved : q.reserved ≡ p.reserved
    pub room : p.free + count ≤ q.allocated
    pub kept : (i : ℕ) → i < p.free → q.memory i ≡ p.memory i

  grown-HasRoom :
      (count : ℕ) (p : Pool E)
      → IsValid blank p
      → count ≤ p.growby
      → IsValid blank (grown blank kernel p.growby p)
      → HasRoom count p (grown blank kernel p.growby p)
  grown-HasRoom count p v h w =
      let x = exact p p.growby v v.step in
      record {
        valid = w;
        same_free = refl;
        same_reserved = refl;
        room = rw x.sum (omega arith);
        kept = λ i lt. ground (arith, x.first);
      }

  grow-HasRoom :
      (count : ℕ) (p : Pool E)
      → IsValid blank p
      → count ≤ p.growby
      → (grow blank kernel p.growby p).0 ≡ ok tt
      → HasRoom count p (grow blank kernel p.growby p).1
  unfolding grow
  grow-HasRoom count p v h e =
      elim (Option-cases (
        kernel.mprotect (mul_size p.reserved p.element_size)
          (add_size (mul_size p.growby p.element_size) (mul_size p.allocated p.element_size)))) [
            | inl c ↦ rw (c, grow) (grown-HasRoom count p v h (grown-IsValid p p.growby v v.step c))
            | inr (c, f) ↦ cc (rw (f, grow) at e)
          ]

  -- The test of the source does not wrap.
  sum_exact :
      (count : ℕ) (p : Pool E)
      → IsValid blank p
      → count ≤ p.growby
      → add_size p.free count ≡ p.free + count
  sum_exact count p v h =
      omega
        (arith, le_mul p.allocated p.element_size v.sized, le_mul p.reserved p.element_size v.sized)

  enough-HasRoom :
      (count : ℕ) (p : Pool E) → IsValid blank p → p.free + count ≤ p.allocated → HasRoom count p p
  enough-HasRoom count p v h = record {
    valid = v;
    same_free = refl;
    same_reserved = refl;
    room = h;
    kept = λ i lt. refl;
  }

  pub make_room-HasRoom :
      (count : ℕ) (p : Pool E)
      → IsValid blank p
      → (make_room blank kernel count p).0 ≡ ok tt
      → HasRoom count p (make_room blank kernel count p).1
  unfolding make_room
  make_room-HasRoom count p v e = elim (Bool-cases (ltb p.growby count)) [
    | inl big ↦ cc (rw (big, make_room) at e)
    | inr fits ↦
        let h : count ≤ p.growby = ltb_false→le _ _ fits in
        elim (Bool-cases (leb p.allocated (add_size p.free count))) [
          | inl full ↦ rw (fits, full) (grow-HasRoom count p v h (rw (fits, full) at e))
          | inr left ↦
              rw (fits, left) (enough-HasRoom count p v (ground (arith, sum_exact count p v h)))
        ]
  ]

  -- A claim that is refused for lack of room changes nothing.
  pub make_room_err :
      (count : ℕ) (p : Pool E) {c : Error}
      → (make_room blank kernel count p).0 ≡ err c
      → (make_room blank kernel count p).1 ≡ p
  unfolding make_room grow
  make_room_err count p e = ground arith

  pub make_room-ne-stuck : (count : ℕ) (p : Pool E) → (make_room blank kernel count p).0 ≢ err stuck
  unfolding make_room grow
  make_room-ne-stuck count p e = ground arith

  -- Nor does the sum that the new free index is.
  pub free_exact :
      (count : ℕ) (p q : Pool E) → HasRoom count p q → add_size q.free count ≡ p.free + count
  free_exact count p q r = omega (arith, r.valid, le_mul q.allocated q.element_size r.valid.sized)
