-- ===== src/Xfs/DirBlock/Adds.antt =====
-- What `add_dentry` leaves: an entry added to a directory inode in src/xal_be_xfs.c.
use xallib.Prelude.{
  ℕ, suc, ◌+◌, ◌%◌, ◌^◌, ◌≤◌, ◌<◌, ◌≡◌, ◌≢◌, refl, ap, sym, ◌∙◌, inl, inr, List, [], ◌∷◌, length,
  arith,
}
use xallib.Result.{ok, Result-cases}
use xallib.Pool.{Pool, claim_inodes}
use xallib.Pool.Bounds.{ChecksMapping, IsValid}
use xallib.Pool.Claims.{claim_inodes-Granted, Granted}
use xallib.Types.{Inode, blank_inode}
use xallib.Xfs.State.{Env, Xfs, self_at, update, update_self, update_ne, with_inodes}
use xallib.Xfs.DirBlock.{add_dentry}

-- The entries from `base` on, each with its parent.
abbrev pub Stored : (ℕ → Inode) → (base self : ℕ) → List Inode → Type 0
Stored memory base self [] = Unit {0}
Stored memory base self (e ∷ es) =
    (memory base ≡ record e { parent_idx = self }) × Stored memory (base + 1) self es

abbrev pub with_count : Inode → ℕ → Inode
with_count inode n = record inode { content = record { idx = inode.content.idx; count = n } }

-- A directory inode that is being filled: it is one that was handed out.
pub record IsFilling (self : ℕ) (s : Xfs) : Type 0 where
  pub valid : IsValid blank_inode s.xal.inodes
  pub owned : self < s.xal.inodes.free
  pub counts : (self_at s self).content.count < 2 ^ 32

-- From `s` to `q` exactly the inodes `es` were added: behind the others, in order and without a
-- gap, with their parent; the count of `self` went up by their number, and no other inode changed.
pub record Adds (self : ℕ) (es : List Inode) (s q : Xfs) : Type 0 where
  pub filling : IsFilling self q
  pub next : q.xal.inodes.free ≡ s.xal.inodes.free + length es
  pub stored : Stored q.xal.inodes.memory s.xal.inodes.free self es
  pub counted :
      self_at q self
      ≡ with_count (self_at s self) (((self_at s self).content.count + length es) % 2 ^ 32)
  pub kept :
      (i : ℕ) → i < s.xal.inodes.free → i ≢ self → q.xal.inodes.memory i ≡ s.xal.inodes.memory i
  pub same_sb : q.xal.sb ≡ s.xal.sb

kept-Stored :
    (f g : ℕ → Inode) (base self : ℕ) (es : List Inode)
    → ((i : ℕ) → base ≤ i → i < base + length es → g i ≡ f i)
    → Stored f base self es
    → Stored g base self es
kept-Stored f g base self [] same h = tt
kept-Stored f g base self (e ∷ es) same h = (
  same base (omega arith) (omega arith) ∙ h.0,
  kept-Stored f g (base + 1) self es (λ i lo hi. same i (omega arith) (omega arith)) h.1,
)

pub Adds-nil : (self : ℕ) (s : Xfs) → IsFilling self s → Adds self [] s s
Adds-nil self s f = record {
  filling = f;
  next = omega arith;
  stored = tt;
  counted = unchanged;
  kept = λ i lt ne. refl;
  same_sb = refl;
}
  where
    unchanged :
        self_at s self ≡ with_count (self_at s self) (((self_at s self).content.count + 0) % 2 ^ 32)
    unchanged = ap (with_count (self_at s self)) (omega arith)

pub Adds-cons :
    (self : ℕ) (e : Inode) (es : List Inode) (s q r : Xfs)
    → IsFilling self s
    → Adds self (e ∷ []) s q
    → Adds self es q r
    → Adds self (e ∷ es) s r
Adds-cons self e es s q r f a b = record {
  filling = b.filling;
  next = omega (arith, a.next, b.next);
  stored = (
    b.kept s.xal.inodes.free (omega (arith, a.next)) (omega (arith, f.owned)) ∙ a.stored.0,
    rw a.next at b.stored,
  );
  counted =
      b.counted
      ∙ ap (λ x. with_count x ((x.content.count + length es) % 2 ^ 32)) a.counted
      ∙ ap (with_count (self_at s self)) total;
  kept = λ i lt ne. b.kept i (omega (arith, a.next)) ne ∙ a.kept i lt ne;
  same_sb = b.same_sb ∙ a.same_sb;
}
  where
    total :
        (((self_at s self).content.count + 1) % 2 ^ 32 + length es) % 2 ^ 32
        ≡ ((self_at s self).content.count + suc (length es)) % 2 ^ 32
    total = omega arith

module _ (self slot : ℕ) (e : Inode) (p : Pool Inode) where
  abbrev entered : ℕ → Inode
  entered = update p.memory slot (record e { parent_idx = self })

  abbrev filled : Pool Inode
  filled = record p {
    memory =
        update entered self
          (with_count (entered self) (((entered self).content.count + 1) % 2 ^ 32));
  }

  module _ (s : Xfs) (f : IsFilling self s) (g : Granted blank_inode 1 s.xal.inodes slot p) where
    slot_ne : slot ≢ self
    slot_ne = omega (arith, g.index, f.owned)

    self_entered : entered self ≡ self_at s self
    self_entered = update_ne p.memory slot self _ slot_ne ∙ g.kept self f.owned

    filled_self :
        filled.memory self
        ≡ with_count (self_at s self) (((self_at s self).content.count + 1) % 2 ^ 32)
    filled_self =
        update_self entered self _
        ∙ ap (λ x. with_count x ((x.content.count + 1) % 2 ^ 32)) self_entered

    filled_slot : filled.memory slot ≡ record e { parent_idx = self }
    filled_slot = update_ne entered self slot _ (λ h. slot_ne (sym h)) ∙ update_self p.memory slot _

    filled_other : (i : ℕ) → i ≢ self → i ≢ slot → filled.memory i ≡ p.memory i
    filled_other i a b =
        update_ne entered self i _ (λ h. a (sym h)) ∙ update_ne p.memory slot i _ (λ h. b (sym h))

    filled-IsValid : IsValid blank_inode filled
    filled-IsValid = record {
      sized = g.valid.sized;
      small = g.valid.small;
      step = g.valid.step;
      used = g.valid.used;
      mapped = g.valid.mapped;
      zeroed = λ i lo hi.
          filled_other i (omega (arith, g.next, f.owned)) (omega (arith, g.next, g.index))
          ∙ g.valid.zeroed i lo hi;
    }

    filled-Adds : Adds self (e ∷ []) s (with_inodes s filled)
    filled-Adds = record {
      filling = record {
        valid = filled-IsValid;
        owned = omega (arith, g.next, f.owned);
        counts = rw filled_self (omega arith);
      };
      next = g.next;
      stored = (ap filled.memory (sym g.index) ∙ filled_slot, tt);
      counted = filled_self;
      kept = λ i lt ne. filled_other i ne (omega (arith, g.index)) ∙ g.kept i lt;
      same_sb = refl;
    }

-- A slot that is claimed holds the entry, and `self` counts it.
pub add_dentry-Adds :
    (env : Env) (self : ℕ) (e : Inode) (s : Xfs)
    → ChecksMapping env.kernel
    → IsFilling self s
    → (add_dentry env self e s).0 ≡ ok tt
    → Adds self (e ∷ []) s (add_dentry env self e s).1
unfolding add_dentry
add_dentry-Adds env self e s checks f h =
    elim (Result-cases (claim_inodes blank_inode env.kernel 1 s.xal.inodes).0) [
      | inr (c, m) ↦ cc (rw m at h)
      | inl (slot, m) ↦ rw m (
          filled-Adds self slot e (claim_inodes blank_inode env.kernel 1 s.xal.inodes).1 s f
            (claim_inodes-Granted blank_inode env.kernel checks 1 s.xal.inodes f.valid m))
    ]
