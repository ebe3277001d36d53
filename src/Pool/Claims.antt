-- ===== src/Pool/Claims.antt =====
-- `xal_pool_claim_inodes` and `xal_pool_claim_extents`: what a claim hands out.
use xallib.Prelude.{
  ℕ, ◌+◌, ◌%◌, ◌^◌, ◌≤◌, ◌<◌, ◌≡◌, ◌≢◌, refl, inl, inr, Bool-cases, ltb_false→le, ltb, arith,
}
use xallib.Result.{Error, stuck, ok, err, Result-cases}
use xallib.Word.{add_size, uint32_max}
use xallib.Pool.{Kernel, Pool, make_room, take_free, claim_inodes, claim_extents}
use xallib.Pool.Bounds.{
  ChecksMapping, IsValid, HasRoom, make_room-HasRoom, make_room_err, free_exact, make_room-ne-stuck,
}

-- The elements `idx .. idx + count` are new: they start where the free ones did, are writable, and
-- blank within the reserved size, and the elements handed out before are as they were.
pub record Granted {E : Type 0} (blank : E) (count : ℕ) (p : Pool E) (idx : ℕ) (q : Pool E)
    : Type 0 where
  pub valid : IsValid blank q
  pub index : idx ≡ p.free
  pub next : q.free ≡ p.free + count
  pub writable : q.free ≤ q.allocated
  pub same_reserved : q.reserved ≡ p.reserved
  pub new : (j : ℕ) → j < count → idx + j < p.reserved → q.memory (idx + j) ≡ blank
  pub kept : (i : ℕ) → i < p.free → q.memory i ≡ p.memory i

-- A failed claim hands out nothing and leaves what was handed out.
pub record Refused {E : Type 0} (blank : E) (p q : Pool E) : Type 0 where
  pub valid : IsValid blank q
  pub same_free : q.free ≡ p.free
  pub kept : (i : ℕ) → i < p.free → q.memory i ≡ p.memory i

module _ {E : Type 0} (blank : E) (kernel : Kernel) (checks : ChecksMapping kernel) where
  take_free-Granted :
      (count : ℕ) (p q : Pool E) {idx : ℕ}
      → HasRoom blank kernel checks count p q
      → p.free < 2 ^ 32
      → q.free % 2 ^ 32 ≡ idx
      → Granted blank count p idx (record q { free = add_size q.free count })
  take_free-Granted count p q r small e =
      let next : add_size q.free count ≡ p.free + count =
        free_exact blank kernel checks count p q r in
      record {
        valid = record {
          sized = r.valid.sized;
          small = r.valid.small;
          step = r.valid.step;
          used = omega (arith, next, r.room);
          mapped = r.valid.mapped;
          zeroed = λ i lo hi. r.valid.zeroed i (omega (arith, next, r.same_free)) hi;
        };
        index = omega (arith, r.same_free);
        next = next;
        writable = omega (arith, next, r.room);
        same_reserved = r.same_reserved;
        new = λ j lt hi.
            r.valid.zeroed _ (omega (arith, r.same_free)) (omega (arith, r.same_reserved));
        kept = r.kept;
      }

  unchanged-Refused : (p q : Pool E) → IsValid blank p → q ≡ p → Refused blank p q
  unchanged-Refused p q v e = rw e (record { valid = v; same_free = refl; kept = λ i lt. refl })

  no_index-Refused :
      (count : ℕ) (p q : Pool E) → HasRoom blank kernel checks count p q → Refused blank p q
  no_index-Refused count p q r = record { valid = r.valid; same_free = r.same_free; kept = r.kept }

  -- A claim of extents that succeeds on a valid pool hands out count new elements from the old
  -- free index on, those of them that are within the reserved size blank, where that index fits a
  -- uint32_t; the elements handed out before are as they were and the pool stays valid. This
  -- supposes that mprotect() refuses what is not mapped.
  pub claim_extents-Granted :
      (count : ℕ) (p : Pool E) {idx : ℕ}
      → IsValid blank p
      → p.free < 2 ^ 32
      → (claim_extents blank kernel count p).0 ≡ ok idx
      → Granted blank count p idx (claim_extents blank kernel count p).1
  unfolding claim_extents take_free
  claim_extents-Granted count p {idx} v small e =
      elim (Result-cases (make_room blank kernel count p).0) [
        | inr (c, m) ↦ cc (rw m at e)
        | inl (a, m) ↦
            let r = make_room-HasRoom blank kernel checks count p v m in
            rw m (take_free-Granted count p _ r small (ground (arith, rw m at e)))
      ]

  -- A claim of inodes that succeeds on a valid pool hands out count new elements from the old
  -- free index on, those of them that are within the reserved size blank; the elements handed out
  -- before are as they were and the pool stays valid. This supposes that mprotect() refuses what
  -- is not mapped.
  pub claim_inodes-Granted :
      (count : ℕ) (p : Pool E) {idx : ℕ}
      → IsValid blank p
      → (claim_inodes blank kernel count p).0 ≡ ok idx
      → Granted blank count p idx (claim_inodes blank kernel count p).1
  unfolding claim_inodes take_free
  claim_inodes-Granted count p {idx} v e = elim (Result-cases (make_room blank kernel count p).0) [
    | inr (c, m) ↦ cc (rw m at e)
    | inl (a, m) ↦
        let q : Pool E = (make_room blank kernel count p).1 in
        let r = make_room-HasRoom blank kernel checks count p v m in
        let f = rw m at e in
        elim (Bool-cases (ltb uint32_max (add_size q.free count))) [
          | inl big ↦ cc (rw big at f)
          | inr fits ↦
              rw (m, fits)
                (take_free-Granted count p q r
                  (omega (
                    arith,
                    free_exact blank kernel checks count p q r,
                    r.same_free,
                    ltb_false→le _ _ fits,
                  ))
                  (ground (arith, rw fits at f)))
        ]
  ]

  -- A claim of inodes that fails on a valid pool hands out nothing: the free index and the
  -- elements below it are as before, and the pool stays valid. This supposes that mprotect()
  -- refuses what is not mapped.
  pub claim_inodes-Refused :
      (count : ℕ) (p : Pool E) {c : Error}
      → IsValid blank p
      → (claim_inodes blank kernel count p).0 ≡ err c
      → Refused blank p (claim_inodes blank kernel count p).1
  unfolding claim_inodes take_free
  claim_inodes-Refused count p v e = elim (Result-cases (make_room blank kernel count p).0) [
    | inr (c, m) ↦ rw m (unchanged-Refused p _ v (make_room_err blank kernel checks count p m))
    | inl (a, m) ↦
        let q : Pool E = (make_room blank kernel count p).1 in
        let r = make_room-HasRoom blank kernel checks count p v m in
        let f = rw m at e in
        elim (Bool-cases (ltb uint32_max (add_size q.free count))) [
          | inl big ↦ rw (m, big) (no_index-Refused count p q r)
          | inr fits ↦ cc (rw fits at f)
        ]
  ]

  -- A claim of extents that fails on a valid pool hands out nothing: the free index and the
  -- elements below it are as before, and the pool stays valid. This supposes that mprotect()
  -- refuses what is not mapped.
  pub claim_extents-Refused :
      (count : ℕ) (p : Pool E) {c : Error}
      → IsValid blank p
      → (claim_extents blank kernel count p).0 ≡ err c
      → Refused blank p (claim_extents blank kernel count p).1
  unfolding claim_extents take_free
  claim_extents-Refused count p v e = elim (Result-cases (make_room blank kernel count p).0) [
    | inr (c, m) ↦ rw m (unchanged-Refused p _ v (make_room_err blank kernel checks count p m))
    | inl (a, m) ↦ cc (rw m at e)
  ]

  pub claim_inodes-ne-stuck :
      (count : ℕ) (p : Pool E) → (claim_inodes blank kernel count p).0 ≢ err stuck
  unfolding claim_inodes take_free
  claim_inodes-ne-stuck count p e = ground (arith, make_room-ne-stuck blank kernel checks count p)
