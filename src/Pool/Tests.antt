-- ===== src/Pool/Tests.antt =====
-- Runs of the pool on a mapping of eight elements of two bytes.
use xallib.Prelude.{ℕ, ◌+◌, ◌≡◌, refl, ◌⊎◌, none, some, leb, ltb, if◌then◌else◌, arith}
use xallib.Result.{Error, einval, os, ok, err}
use xallib.Pool.{
  Kernel, Pool, grow, make_room, take_free, claim_inodes, claim_extents, clear, map_pool,
  map_private,
}
use xallib.Pool.Bounds.{ChecksMapping, IsValid}
use xallib.Pool.Claims.{
  Granted, Refused, claim_extents-Granted, claim_inodes-Granted, claim_inodes-Refused,
}
use xallib.Pool.Lifecycle.{IsFresh, map_pool-IsFresh, clear_lem}

-- A kernel whose calls succeed, except for an mprotect() of more than is mapped.
abbrev pub test_kernel : Kernel
test_kernel = record {
  mprotect = λ mapped n. if leb n mapped then none else some 12;
  munmap = λ n. none;
  mmap_private = λ n. none;
  mmap_shared = λ name n. none;
  shm_open = λ name. none;
  ftruncate = λ name n. none;
}

pub test_kernel-ChecksMapping : ChecksMapping test_kernel
test_kernel-ChecksMapping = record { refuses = λ mapped n e. ground arith }

-- Four of eight elements handed out, and all four writable ones among them.
abbrev four : Pool ℕ
four = record {
  reserved = 8;
  allocated = 4;
  growby = 4;
  free = 4;
  element_size = 2;
  memory = λ i. if ltb i 4 then i + 10 else 0;
}

abbrev unmapped : Pool ℕ
unmapped = record {
  reserved = 0;
  allocated = 0;
  growby = 0;
  free = 0;
  element_size = 0;
  memory = λ i. 0;
}

four-IsValid : IsValid 0 four
four-IsValid = record {
  sized = omega arith;
  small = omega arith;
  step = omega arith;
  used = omega arith;
  mapped = omega arith;
  zeroed = λ i lo hi. ground arith;
}

claim_inodes-four : (claim_inodes 0 test_kernel 2 four).0 ≡ ok 4
unfolding claim_inodes make_room grow take_free
claim_inodes-four = refl

claim_extents-four : (claim_extents 0 test_kernel 2 four).0 ≡ ok 4
unfolding claim_extents make_room grow take_free
claim_extents-four = refl

claim_too_many : (claim_inodes 0 test_kernel 5 four).0 ≡ err einval
unfolding claim_inodes make_room grow take_free
claim_too_many = refl

claim_extents_too_many : (claim_extents 0 test_kernel 5 four).0 ≡ err einval
unfolding claim_extents make_room grow take_free
claim_extents_too_many = refl

map_pool-unmapped : (map_pool 0 test_kernel 8 4 2 none unmapped).0 ≡ ok tt
unfolding map_pool map_private grow
map_pool-unmapped = refl

-- A claim of four fills the mapping; the next is refused by mprotect().
claim_extents_full :
    (claim_extents 0 test_kernel 4 (claim_extents 0 test_kernel 4 four).1).0 ≡ err (os 12)
unfolding claim_extents make_room grow take_free
claim_extents_full = refl

claim_inodes-Granted_example : Granted 0 2 four 4 (claim_inodes 0 test_kernel 2 four).1
claim_inodes-Granted_example =
    claim_inodes-Granted 0 test_kernel test_kernel-ChecksMapping 2 four four-IsValid
      claim_inodes-four

claim_extents-Granted_example : Granted 0 2 four 4 (claim_extents 0 test_kernel 2 four).1
claim_extents-Granted_example =
    claim_extents-Granted 0 test_kernel test_kernel-ChecksMapping 2 four four-IsValid (omega arith)
      claim_extents-four

claim_inodes-Refused_example : Refused 0 four (claim_inodes 0 test_kernel 5 four).1
claim_inodes-Refused_example =
    claim_inodes-Refused 0 test_kernel test_kernel-ChecksMapping 5 four four-IsValid claim_too_many

map_pool-IsFresh_example :
    IsFresh 0 test_kernel test_kernel-ChecksMapping 8 2
      (map_pool 0 test_kernel 8 4 2 none unmapped).1
map_pool-IsFresh_example =
    map_pool-IsFresh 0 test_kernel test_kernel-ChecksMapping 8 4 2 none unmapped (omega arith)
      (omega arith) map_pool-unmapped

clear_example :
    ((clear 0 test_kernel four).0 ≡ ok tt)
      × IsFresh 0 test_kernel test_kernel-ChecksMapping 8 2 (clear 0 test_kernel four).1
      × ((clear 0 test_kernel four).1.growby ≡ 4)
    ⊎ ((e : Error) × (clear 0 test_kernel four ≡ (err e, four)))
clear_example = clear_lem 0 test_kernel test_kernel-ChecksMapping four four-IsValid
