-- ===== src/Pool.antt =====
-- src/xal_pool.c and include/xal_pool.h: pools of fixed-size elements in one mapping. The elements
-- are of any type `E`, and `blank` is the element whose bytes are all zero.
pub mod Bounds
pub mod Claims
pub mod Lifecycle
pub mod Tests
use xallib.Prelude.{
  ℕ, ◌+◌, ◌-◌, ◌*◌, ◌/◌, ◌%◌, ◌^◌, Bool, true, false, Option, none, some, List, leb, ltb, ◌==◌,
  ◌&&◌, if◌then◌else◌,
}
use xallib.Word.{mul_size, add_size, uint32_max}
use xallib.Result.{Error, einval, eoverflow, os, Result, ok, err, Exec, ◌>>=◌, ◌>>◌, pure, raise}

-- The system calls, as far as the pool sees them: `none` is success, `some e` sets `errno` to `e`.
-- `mprotect mapped n` is asked for the first `n` bytes of a mapping of `mapped` bytes.
pub record Kernel : Type 0 where
  pub mprotect : ℕ → ℕ → Option ℕ
  pub munmap : ℕ → Option ℕ
  pub mmap_private : ℕ → Option ℕ
  pub mmap_shared : List ℕ → ℕ → Option ℕ
  pub shm_open : List ℕ → Option ℕ
  pub ftruncate : List ℕ → ℕ → Option ℕ

-- `struct xal_pool`; `memory` is the mapping, read as elements.
pub record Pool (E : Type 0) : Type 0 where
  pub reserved : ℕ
  pub allocated : ℕ
  pub growby : ℕ
  pub free : ℕ
  pub element_size : ℕ
  pub memory : ℕ → E

module _ {E : Type 0} (blank : E) (kernel : Kernel) where
  -- `memset(&memory[first], 0, …)` over `n` elements
  abbrev pub memset : (ℕ → E) → ℕ → ℕ → ℕ → E
  memset memory first n i = if leb first i && ltb i (first + n) then blank else memory i

  -- The end of a system call: -errno, or go on.
  abbrev pub syscall : Option ℕ → Exec (Pool E) (Unit {0})
  syscall none = pure tt
  syscall (some e) = raise (os e)

  -- The size of the whole mapping.
  abbrev pub nbytes_of : Pool E → ℕ
  nbytes_of p = mul_size p.reserved p.element_size

  pub unmap : Pool E → Option ℕ
  unmap p = kernel.munmap (nbytes_of p)

  abbrev pub grown : ℕ → Pool E → Pool E
  grown growby p = record p {
    allocated = add_size p.allocated growby;
    memory =
        memset p.memory (mul_size p.free p.element_size / p.element_size)
          (mul_size growby p.element_size / p.element_size);
  }

  unfoldable pub grow : ℕ → Exec (Pool E) (Unit {0})
  grow growby p =
      let growby_nbytes = mul_size growby p.element_size in
      let allocated_nbytes = add_size growby_nbytes (mul_size p.allocated p.element_size) in
      elim (kernel.mprotect (nbytes_of p) allocated_nbytes) [
        | none ↦ (ok tt, grown growby p)
        | some e ↦ (err (os e), p)
      ]

  -- The branch of `xal_pool_map` with a `shm_name`.
  pub map_shared : List ℕ → ℕ → Exec (Pool E) (Unit {0})
  map_shared name nbytes = do
    syscall (kernel.shm_open name)
    syscall (kernel.ftruncate name nbytes)
    syscall (kernel.mmap_shared name nbytes)
    λ p. (ok tt, record p { memory = λ _. blank; allocated = p.reserved; growby = p.reserved })

  -- The branch without one. A failed `xal_pool_grow` unmaps, and leaves the fields as they are.
  unfoldable pub map_private : ℕ → ℕ → Exec (Pool E) (Unit {0})
  map_private allocated nbytes p =
      if ltb p.reserved allocated
      then (err einval, p)
      else let p' : Pool E = record p { allocated = 0; growby = allocated } in
        elim (kernel.mmap_private nbytes) [
          | some e ↦ (err (os e), p')
          | none ↦ grow allocated (record p' { memory = λ _. blank })
        ]

  unfoldable pub map_pool : ℕ → ℕ → ℕ → Option (List ℕ) → Exec (Pool E) (Unit {0})
  map_pool reserved allocated element_size shm_name p =
      if p.reserved == 0
      then (elim shm_name [
        | some name ↦ map_shared name (mul_size reserved element_size) fresh
        | none ↦ map_private allocated (mul_size reserved element_size) fresh
      ])
      else (err einval, p)
    where
      fresh : Pool E
      fresh = record p { reserved = reserved; element_size = element_size; free = 0 }

  -- The growth that both claims make before they hand out elements.
  unfoldable pub make_room : ℕ → Exec (Pool E) (Unit {0})
  make_room count p =
      if ltb p.growby count
      then (err einval, p)
      else if leb p.allocated (add_size p.free count)
      then grow p.growby p
      else (ok tt, p)

  -- `if (idx) *idx = pool->free; pool->free += count;` with a `uint32_t` behind `idx`.
  unfoldable pub take_free : ℕ → Exec (Pool E) ℕ
  take_free count p = (ok (p.free % 2 ^ 32), record p { free = add_size p.free count })

  unfoldable pub claim_inodes : ℕ → Exec (Pool E) ℕ
  claim_inodes count = do
    make_room count
    λ p. if ltb uint32_max (add_size p.free count) then (err eoverflow, p) else take_free count p

  unfoldable pub claim_extents : ℕ → Exec (Pool E) ℕ
  claim_extents count = do make_room count; take_free count

  unfoldable pub clear : Exec (Pool E) (Unit {0})
  clear p = elim (kernel.mprotect (nbytes_of p) (nbytes_of p)) [
    | some e ↦ (err (os e), p)
    | none ↦ (
      ok tt,
      record p {
        memory = memset p.memory 0 (nbytes_of p / p.element_size);
        free = 0;
        allocated = 0;
      },
    )
  ]
