-- ===== src/Pool/Lifecycle.antt =====
-- `xal_pool_map` and `xal_pool_clear`: the pool that each leaves.
use xallib.Prelude.{
  ℕ, ◌*◌, ◌/◌, ◌^◌, ◌≤◌, ◌<◌, ◌≡◌, ◌∙◌, refl, ◌⊎◌, inl, inr, Bool-cases, Option-cases, Option, none,
  some, List, ltb, ltb_false→le, ◌==◌, arith,
}
use xallib.Result.{Error, os, ok, err}
use xallib.Word.{mul_size_exact, mul-div_cancel, mul_size}
use xallib.Pool.{Kernel, Pool, nbytes_of, grow, map_shared, map_private, map_pool, clear, memset}
use xallib.Pool.Bounds.{ChecksMapping, IsValid, grow-IsValid}

-- The mapping's bytes are its elements.
all_elements :
    {E : Type 0} {blank : E} (p : Pool E)
    → IsValid blank p
    → mul_size p.reserved p.element_size / p.element_size ≡ p.reserved
all_elements p v =
    rw (mul_size_exact p.reserved p.element_size (omega arith))
      (mul-div_cancel p.reserved p.element_size v.sized)

module _ {E : Type 0} (blank : E) (kernel : Kernel) (checks : ChecksMapping kernel) where
  -- A valid pool with nothing handed out.
  pub record IsFresh (reserved element_size : ℕ) (p : Pool E) : Type 0 where
    pub valid : IsValid blank p
    pub empty : p.free ≡ 0
    pub same_reserved : p.reserved ≡ reserved
    pub same_size : p.element_size ≡ element_size

  shared-IsFresh :
      (p : Pool E)
      → 0 < p.element_size
      → p.reserved * p.element_size ≤ 2 ^ 62
      → p.free ≡ 0
      → IsFresh p.reserved p.element_size
          (record p { memory = λ _. blank; allocated = p.reserved; growby = p.reserved })
  shared-IsFresh p s b z = record {
    valid = record {
      sized = s;
      small = b;
      step = omega arith;
      used = omega arith;
      mapped = omega arith;
      zeroed = λ i lo hi. refl;
    };
    empty = z;
    same_reserved = refl;
    same_size = refl;
  }

  map_shared-IsFresh :
      (name : List ℕ) (n : ℕ) (p : Pool E)
      → 0 < p.element_size
      → p.reserved * p.element_size ≤ 2 ^ 62
      → p.free ≡ 0
      → (map_shared blank kernel name n p).0 ≡ ok tt
      → IsFresh p.reserved p.element_size (map_shared blank kernel name n p).1
  unfolding map_shared
  map_shared-IsFresh name n p s b z e = elim (Option-cases (kernel.shm_open name)) [
    | inr (c, m) ↦ cc
    | inl m ↦ elim (Option-cases (kernel.ftruncate name n)) [
      | inr (c, k) ↦ cc (rw (m, k) at e)
      | inl k ↦ elim (Option-cases (kernel.mmap_shared name n)) [
        | inr (c, l) ↦ cc (rw (m, k, l) at e)
        | inl l ↦ rw (m, k, l) (shared-IsFresh p s b z)
      ]
    ]
  ]

  grow_keeps :
      (n : ℕ) (p : Pool E)
      → ((grow blank kernel n p).1.free ≡ p.free)
        × ((grow blank kernel n p).1.reserved ≡ p.reserved)
        × ((grow blank kernel n p).1.element_size ≡ p.element_size)
  unfolding grow
  grow_keeps n p = ground arith

  private-IsValid :
      (allocated : ℕ) (p : Pool E)
      → 0 < p.element_size
      → p.reserved * p.element_size ≤ 2 ^ 62
      → p.free ≡ 0
      → allocated ≤ p.reserved
      → IsValid blank (record p { allocated = 0; growby = allocated; memory = λ _. blank })
  private-IsValid allocated p s b z h = record {
    sized = s;
    small = b;
    step = h;
    used = omega arith;
    mapped = omega arith;
    zeroed = λ i lo hi. refl;
  }

  map_private-IsFresh :
      (allocated n : ℕ) (p : Pool E)
      → 0 < p.element_size
      → p.reserved * p.element_size ≤ 2 ^ 62
      → p.free ≡ 0
      → (map_private blank kernel allocated n p).0 ≡ ok tt
      → IsFresh p.reserved p.element_size (map_private blank kernel allocated n p).1
  unfolding map_private
  map_private-IsFresh allocated n p s b z e = elim (Bool-cases (ltb p.reserved allocated)) [
    | inl big ↦ cc (rw big at e)
    | inr fits ↦ elim (Option-cases (kernel.mmap_private n)) [
      | inr (c, m) ↦ cc (rw (fits, m) at e)
      | inl m ↦
          let p' : Pool E = record p { allocated = 0; growby = allocated; memory = λ _. blank } in
          let k = grow_keeps allocated p' in
          let h = ltb_false→le _ _ fits in
          rw (fits, m)
            (record {
              valid =
                  grow-IsValid blank kernel checks allocated p' h
                    (private-IsValid allocated p s b z h);
              empty = k.0 ∙ z;
              same_reserved = k.1;
              same_size = k.2;
            })
    ]
  ]

  -- A pool mapped for the first time, in shared memory or not, is valid, has nothing handed out,
  -- and has the reserved size and the element size that were asked for, if the element size is
  -- positive and the mapping is at most 2^62 bytes. This supposes that mprotect() refuses what is
  -- not mapped.
  pub map_pool-IsFresh :
      (reserved allocated element_size : ℕ) (shm_name : Option (List ℕ)) (p : Pool E)
      → 0 < element_size
      → reserved * element_size ≤ 2 ^ 62
      → (map_pool blank kernel reserved allocated element_size shm_name p).0 ≡ ok tt
      → IsFresh reserved element_size
          (map_pool blank kernel reserved allocated element_size shm_name p).1
  unfolding map_pool
  map_pool-IsFresh reserved allocated element_size (some name) p s b e =
      elim (Bool-cases (p.reserved == 0)) [
        | inl new ↦ rw new (map_shared-IsFresh name _ _ s b refl (rw new at e))
        | inr old ↦ cc (rw old at e)
      ]
  map_pool-IsFresh reserved allocated element_size none p s b e =
      elim (Bool-cases (p.reserved == 0)) [
        | inl new ↦ rw new (map_private-IsFresh allocated _ _ s b refl (rw new at e))
        | inr old ↦ cc (rw old at e)
      ]

  cleared-IsFresh :
      (p : Pool E)
      → IsValid blank p
      → IsFresh p.reserved p.element_size (record p {
        memory = memset blank kernel p.memory 0 (nbytes_of blank kernel p / p.element_size);
        free = 0;
        allocated = 0;
      })
  cleared-IsFresh p v = record {
    valid = record {
      sized = v.sized;
      small = v.small;
      step = v.step;
      used = omega arith;
      mapped = omega arith;
      zeroed = λ i lo hi. ground (arith, all_elements p v);
    };
    empty = refl;
    same_reserved = refl;
    same_size = refl;
  }

  -- Clearing a valid pool either succeeds, and leaves it valid and empty with a blank mapping and
  -- the same step of growth, or fails and changes nothing. This supposes that mprotect() refuses
  -- what is not mapped.
  pub clear_lem :
      (p : Pool E)
      → IsValid blank p
      → ((clear blank kernel p).0 ≡ ok tt)
          × IsFresh p.reserved p.element_size (clear blank kernel p).1
          × ((clear blank kernel p).1.growby ≡ p.growby)
        ⊎ ((e : Error) × (clear blank kernel p ≡ (err e, p)))
  unfolding clear
  clear_lem p v =
      elim (Option-cases (kernel.mprotect (nbytes_of blank kernel p) (nbytes_of blank kernel p))) [
        | inl m ↦ inl (rw (m, clear) refl, rw (m, clear) (cleared-IsFresh p v), rw (m, clear) refl)
        | inr (c, m) ↦ inr (os c, rw (m, clear))
      ]
