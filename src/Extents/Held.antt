-- ===== src/Extents/Held.antt =====
-- The extents of a file, consecutive elements of the pool: what a claim and the stores into it
-- leave, for both backends.
use xallib.Prelude.{
  ℕ, ◌+◌, ◌%◌, ◌^◌, ◌≤◌, ◌<◌, ◌≡◌, ◌≢◌, ◌∙◌, ap, sym, inl, inr, arith, update, update_self,
  update_ne,
}
use xallib.Pool.{Pool}
use xallib.Pool.Bounds.{IsValid}
use xallib.Pool.Claims.{Granted}
use xallib.Types.{Xal, Inode, Extent, blank_extent}
use xallib.Extents.Fill.{filled, filled_outside, filled_inside, free_small}

-- A valid pool of extents that is not reserved too large, and a file inode.
pub record IsReady (self : ℕ) (x : Xal) : Type 0 where
  pub valid : IsValid blank_extent x.extents
  pub small : x.extents.reserved ≤ 2 ^ 31
  pub counts : (x.inodes.memory self).content.count < 2 ^ 32

-- In `y` the file `self` has exactly the extents that were added to `x`, from the first to the
-- last; the extents there were and the other inodes are as they were.
pub record Holds (self : ℕ) (x y : Xal) : Type 0 where
  pub ready : IsReady self y
  pub first : (y.inodes.memory self).content.idx ≡ x.extents.free
  pub count : x.extents.free + (y.inodes.memory self).content.count ≡ y.extents.free
  pub kept : (i : ℕ) → i < x.extents.free → y.extents.memory i ≡ x.extents.memory i
  pub others : (i : ℕ) → i ≢ self → y.inodes.memory i ≡ x.inodes.memory i

abbrev pub with_content : Inode → ℕ → ℕ → Inode
with_content inode idx count = record inode { content = record { idx = idx; count = count } }

-- The elements added are those that `extent` gives, `n` of them in their order.
pub record Lists (n : ℕ) (extent : ℕ → Extent) (x y : Xal) : Type 0 where
  pub number : y.extents.free ≡ x.extents.free + n
  pub record_at : (j : ℕ) → j < n → y.extents.memory (x.extents.free + j) ≡ extent j

module _ (self n idx : ℕ) (extent : ℕ → Extent) (x : Xal) (p : Pool Extent) (r : IsReady self x)
    (g : Granted blank_extent n x.extents idx p) where
  -- The granted elements, filled.
  abbrev pub written : Pool Extent
  written = record p { memory = filled extent idx n 0 p.memory }

  pub written-IsValid : IsValid blank_extent written
  written-IsValid = record {
    sized = g.valid.sized;
    small = g.valid.small;
    step = g.valid.step;
    used = g.valid.used;
    mapped = g.valid.mapped;
    zeroed = λ i lo hi.
        filled_outside extent idx n 0 p.memory i (inr (omega (arith, g.index, g.next)))
        ∙ g.valid.zeroed i lo hi;
  }

  pub written_kept : (i : ℕ) → i < x.extents.free → written.memory i ≡ x.extents.memory i
  written_kept i lt =
      filled_outside extent idx n 0 p.memory i (inl (omega (arith, g.index))) ∙ g.kept i lt

  abbrev pub whole_inodes : ℕ → Inode
  whole_inodes = update x.inodes.memory self (with_content (x.inodes.memory self) idx (n % 2 ^ 32))

  -- The granted elements as all the extents of `self`.
  abbrev pub whole_xal : Xal
  whole_xal = record x { extents = written; inodes = record x.inodes { memory = whole_inodes } }

  whole_self : whole_inodes self ≡ with_content (x.inodes.memory self) idx (n % 2 ^ 32)
  whole_self = update_self x.inodes.memory self _

  whole_small : x.extents.free + n < 2 ^ 32
  whole_small =
      omega (arith, g.next, free_small p g.valid (omega (arith, g.same_reserved, r.small)))

  pub whole-Holds : Holds self x whole_xal
  whole-Holds = record {
    ready = record {
      valid = written-IsValid;
      small = omega (arith, g.same_reserved, r.small);
      counts = rw whole_self (omega arith);
    };
    first = ap (λ v. v.content.idx) whole_self ∙ g.index;
    count = rw whole_self (omega (arith, whole_small, g.next));
    kept = written_kept;
    others = λ i ne. update_ne x.inodes.memory self i _ (λ h. ne (sym h));
  }

  pub whole-Lists : Lists n extent x whole_xal
  whole-Lists = record {
    number = g.next;
    record_at = λ j lt.
        ap written.memory (omega (arith, g.index))
        ∙ filled_inside extent idx n 0 p.memory j lt
        ∙ ap extent (omega arith);
  }
