-- ===== src/Xfs/FileBtree/Contiguous.antt =====
-- What it is to append extents to a file, and a leaf of `process_file_btree_leaf` that does.
use xallib.Prelude.{ℕ, ◌+◌, ◌-◌, ◌%◌, ◌^◌, ◌≤◌, ◌<◌, ◌≡◌, ◌≢◌, refl, ◌∙◌, ap, sym, arith}
use xallib.Pool.{Pool}
use xallib.Pool.Claims.{Granted}
use xallib.Types.{Xal, Inode, Extent, blank_extent}
use xallib.Xfs.State.{update, update_self, update_ne}
use xallib.Extents.Held.{IsReady, written, written-IsValid, written_kept}
use xallib.Xfs.DirBlock.Adds.{with_count}

-- From `x` to `y` extents were added for `self`: the count of `self` went up by their number, and
-- the extents there were and the other inodes are as they were.
pub record Appends (self : ℕ) (x y : Xal) : Type 0 where
  pub ready : IsReady self y
  pub grows : x.extents.free ≤ y.extents.free
  pub counted :
      y.inodes.memory self
      ≡ with_count
          (x.inodes.memory self)
          (((x.inodes.memory self).content.count + (y.extents.free - x.extents.free)) % 2 ^ 32)
  pub kept : (i : ℕ) → i < x.extents.free → y.extents.memory i ≡ x.extents.memory i
  pub others : (i : ℕ) → i ≢ self → y.inodes.memory i ≡ x.inodes.memory i

pub Appends-nil : (self : ℕ) (x : Xal) → IsReady self x → Appends self x x
Appends-nil self x r = record {
  ready = r;
  grows = omega arith;
  counted = unchanged;
  kept = λ i lt. refl;
  others = λ i ne. refl;
}
  where
    unchanged :
        x.inodes.memory self
        ≡ with_count
            (x.inodes.memory self)
            (((x.inodes.memory self).content.count + (x.extents.free - x.extents.free)) % 2 ^ 32)
    unchanged = ap (with_count (x.inodes.memory self)) (omega (arith, r.counts))

pub Appends-join : (self : ℕ) (x y z : Xal) → Appends self x y → Appends self y z → Appends self x z
Appends-join self x y z a b = record {
  ready = b.ready;
  grows = omega (arith, a.grows, b.grows);
  counted =
      b.counted
      ∙ ap (λ v. with_count v ((v.content.count + (z.extents.free - y.extents.free)) % 2 ^ 32))
          a.counted
      ∙ ap (with_count (x.inodes.memory self)) total;
  kept = λ i lt. b.kept i (omega (arith, a.grows)) ∙ a.kept i lt;
  others = λ i ne. b.others i ne ∙ a.others i ne;
}
  where
    total :
        (((x.inodes.memory self).content.count + (y.extents.free - x.extents.free)) % 2 ^ 32
            + (z.extents.free - y.extents.free))
          % 2 ^ 32
        ≡ ((x.inodes.memory self).content.count + (z.extents.free - x.extents.free)) % 2 ^ 32
    total = omega (arith, a.grows, b.grows)

module _ (self n idx : ℕ) (extent : ℕ → Extent) (x : Xal) (p : Pool Extent) (r : IsReady self x)
    (g : Granted blank_extent n x.extents idx p) where
  abbrev pub counted_inodes : ℕ → Inode
  counted_inodes =
      update x.inodes.memory self
        (with_count (x.inodes.memory self) (((x.inodes.memory self).content.count + n) % 2 ^ 32))

  abbrev pub leaf_xal : Xal
  leaf_xal = record x {
    extents = written self n idx extent x p r g;
    inodes = record x.inodes { memory = counted_inodes };
  }

  leaf_counted :
      counted_inodes self
      ≡ with_count
          (x.inodes.memory self)
          (((x.inodes.memory self).content.count + (p.free - x.extents.free)) % 2 ^ 32)
  leaf_counted =
      update_self x.inodes.memory self _
      ∙ ap (with_count (x.inodes.memory self)) (omega (arith, g.next))

  pub leaf-Appends : Appends self x leaf_xal
  leaf-Appends = record {
    ready = record {
      valid = written-IsValid self n idx extent x p r g;
      small = omega (arith, g.same_reserved, r.small);
      counts = rw leaf_counted (omega arith);
    };
    grows = omega (arith, g.next);
    counted = leaf_counted;
    kept = written_kept self n idx extent x p r g;
    others = λ i ne. update_ne x.inodes.memory self i _ (λ e. ne (sym e));
  }
