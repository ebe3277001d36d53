-- ===== src/Xfs/Dirs/ShortForm.antt =====
-- What `process_dinode_dir_local` of src/xal_be_xfs.c reads of a directory in short form.
use Prim.Native.Nat.{pred}
use xallib.Prelude.{
  ℕ, zero, suc, ◌+◌, ◌<◌, ◌≤◌, ◌≡◌, refl, ap, subst, ◌∙◌, ◌⊎◌, inl, inr, Bool, true, false, not,
  List, [], ◌∷◌, ◌++◌, length, ◌==◌, if◌then◌else◌, arith,
}
use xallib.Result.{Exec, Result, ok}
use xallib.Bytes.{Buf}
use xallib.Types.{Inode}
use xallib.Xfs.State.{
  Env, Xfs, put_content, claim_inode_slots, self_at, update_self, update_ne, put_inode, with_inodes,
}
use xallib.Xfs.Btree.{dinode_nbytes}
use xallib.Xfs.Dirs.{local_loop, local_children_loop, process_dinode_dir_local}
use xallib.Xfs.Dirs.Encoding.{
  ShortEntry, ino_bytes, entry_bytes, short_bytes, dir_bytes, FitsAll, SpellsAt, SpellsAt-append,
  name_bytes-SpellsAt, ino-SpellsAt, length-entry_bytes, length-ino_bytes,
}

-- The count of numbers of 8 bytes that is left, for so many entries.
abbrev pub IsWidth : (wide : Bool) → (i8count left : ℕ) → Type 0
IsWidth true i8count left = left ≤ i8count
IsWidth false i8count left = i8count ≡ 0

abbrev pub as_entry : ShortEntry → Inode → Inode
as_entry e inode = record inode {
  namelen = length e.name;
  name = e.name;
  ftype = e.ftype;
  ino = e.ino;
}

-- The inodes from `at` on have the entries, in their order.
abbrev pub HasEntries : (before after : ℕ → Inode) (at : ℕ) → List ShortEntry → Type 0
HasEntries before after at [] = Unit {0}
HasEntries before after at (e ∷ es) =
    (after at ≡ as_entry e (before at)) × HasEntries before after (at + 1) es

-- What is read: the entries, into the inodes from `at` on, and nothing else is changed.
pub record Reads (at : ℕ) (es : List ShortEntry) (s : Xfs) (r : Result (Unit {0}) × Xfs)
    : Type 0 where
  pub done : r.0 ≡ ok tt
  pub entered : HasEntries s.xal.inodes.memory r.1.xal.inodes.memory at es
  pub kept :
      (j : ℕ) → (j < at) ⊎ (at + length es ≤ j) → r.1.xal.inodes.memory j ≡ s.xal.inodes.memory j
  pub same_rest : r.1 ≡ with_inodes s (record s.xal.inodes { memory = r.1.xal.inodes.memory })

HasEntries-before :
    (f g after : ℕ → Inode) (at : ℕ) (es : List ShortEntry)
    → ((j : ℕ) → at ≤ j → f j ≡ g j)
    → HasEntries f after at es
    → HasEntries g after at es
HasEntries-before f g after at [] same h = tt
HasEntries-before f g after at (e ∷ es) same h = (
  h.0 ∙ ap (as_entry e) (same at (omega arith)),
  HasEntries-before f g after (at + 1) es (λ j lo. same j (omega arith)) h.1,
)

IsWidth-step :
    (wide : Bool) (i8count left : ℕ)
    → IsWidth wide i8count (suc left)
    → ((i8count == 0) ≡ not wide) × IsWidth wide (pred i8count) left
IsWidth-step true zero left h = absurd (omega (arith, h))
IsWidth-step true (suc n) left h = (ground arith, omega (arith, h))
IsWidth-step false zero left h = (refl, refl)
IsWidth-step false (suc n) left h = absurd (omega (arith, h))

Reads-at :
    (at to : ℕ) (es : List ShortEntry) (s : Xfs) (r : Result (Unit {0}) × Xfs)
    → at ≡ to
    → Reads at es s r
    → Reads to es s r
Reads-at at to es s r same h = subst (λ k. Reads k es s r) same h

-- An entry is stored, and the others are read.
Reads-cons :
    (at : ℕ) (e : ShortEntry) (es : List ShortEntry) (s : Xfs) (r : Result (Unit {0}) × Xfs)
    → Reads (at + 1) es (put_inode at (as_entry e (self_at s at)) s).1 r
    → Reads at (e ∷ es) s r
Reads-cons at e es s r h = record {
  done = h.done;
  entered = (
    h.kept at (inl (omega arith)) ∙ update_self s.xal.inodes.memory at _,
    HasEntries-before _ s.xal.inodes.memory r.1.xal.inodes.memory (at + 1) es
        (λ j lo. update_ne s.xal.inodes.memory at j _ (omega (arith, lo))) h.entered,
  );
  kept = λ j out. elim out [
    | inl lt ↦
        h.kept j (inl (omega (arith, lt)))
        ∙ update_ne s.xal.inodes.memory at j _ (omega (arith, lt))
    | inr ge ↦
        h.kept j (inr (omega (arith, ge)))
        ∙ update_ne s.xal.inodes.memory at j _ (omega (arith, ge))
  ];
  same_rest = h.same_rest;
}

-- Where the bytes from the cursor on are those of the entries of a short form, and the count of
-- numbers of 8 bytes is 0 if all numbers have 4 bytes and not below the number of the entries if
-- all have 8, the loop reads exactly these entries, in their order, into the inodes that follow
-- one another, with their names, types and numbers, and changes nothing else.
pub local_loop-Reads :
    (wide : Bool) (dinode : Buf) (idx i cursor i8count : ℕ) (es : List ShortEntry) (s : Xfs)
    → SpellsAt dinode cursor (short_bytes wide es)
    → FitsAll wide es
    → IsWidth wide i8count (length es)
    → Reads (idx + i) es s (local_loop dinode idx (length es) i cursor i8count s)
unfolding local_loop
local_loop-Reads wide dinode idx i cursor i8count [] s h fits width = record {
  done = refl;
  entered = tt;
  kept = λ j out. refl;
  same_rest = refl;
}
local_loop-Reads wide dinode idx i cursor i8count (e ∷ es) s h fits width =
    let (here, rest) = SpellsAt-append dinode cursor (entry_bytes wide e) (short_bytes wide es) h in
    let (named, tail) =
      SpellsAt-append dinode (cursor + 3) e.name (e.ftype ∷ ino_bytes wide e.ino) (
        subst (λ k. SpellsAt dinode k (e.name ++ (e.ftype ∷ ino_bytes wide e.ino))) (omega arith)
          here.1.1.1) in
    let (is_wide, fewer) = IsWidth-step wide i8count (length es) width in
    let number = ino-SpellsAt wide dinode (cursor + 3 + length e.name + 1) e.ino fits.0 tail.1 in
    let later =
      local_loop-Reads wide dinode idx (i + 1)
        (cursor + 3 + length e.name + 1 + (if not wide then 4 else 8)) (pred i8count) es
        (put_inode (idx + i) (as_entry e (self_at s (idx + i))) s).1
        (subst (λ k. SpellsAt dinode k (short_bytes wide es))
          (omega (arith, length-entry_bytes wide e)) rest)
        fits.1 fewer in
    rw
      (
        local_loop,
        here.0,
        name_bytes-SpellsAt dinode (cursor + 3) e.name named,
        tail.0,
        is_wide,
        number,
      )
      (Reads-cons (idx + i) e es s _
        (Reads-at (idx + (i + 1)) (idx + i + 1) es _ _ (omega arith) later))

-- What a call makes of the entries `es` with the inodes from `slot` on: it reads them, and then
-- processes them as children.
pub record Lists (process : ℕ → ℕ → Exec Xfs (Unit {0})) (self slot : ℕ) (es : List ShortEntry)
    (claimed : Xfs) (r : Result (Unit {0}) × Xfs) : Type 0 where
  pub listed : Xfs
  pub reads : Reads slot es (put_content self slot (length es) claimed).1 (ok tt, listed)
  pub children : r ≡ local_children_loop process self slot (length es) 0 listed

Reads-done :
    (at : ℕ) (es : List ShortEntry) (s : Xfs) (r : Result (Unit {0}) × Xfs)
    → Reads at es s r
    → Reads at es s (ok tt, r.1)
Reads-done at es s r h = record {
  done = refl;
  entered = h.entered;
  kept = h.kept;
  same_rest = h.same_rest;
}

module _ (env : Env) (process : ℕ → ℕ → Exec Xfs (Unit {0})) where
  -- A directory in the dinode, whose numbers have 4 bytes each and are not counted, or 8 bytes
  -- each and are counted, is read as its entries, where the inodes for them can be had: its count
  -- is set to theirs, and these inodes get the entries, in their order, with their names, types
  -- and numbers. No other inode changes until the children are processed.
  pub process_dinode_dir_local-Lists :
      (wide : Bool) (dinode : Buf) (self i8count parent slot : ℕ) (es : List ShortEntry)
      (s claimed : Xfs)
      → SpellsAt dinode dinode_nbytes (dir_bytes wide i8count parent es)
      → FitsAll wide es
      → IsWidth wide i8count (length es)
      → (i8count == 0) ≡ not wide
      → claim_inode_slots env
          (length es)
          (put_content self (self_at s self).content.idx (length es) s).1
        ≡ (ok slot, claimed)
      → Lists process self slot es claimed (process_dinode_dir_local env process dinode self s)
  unfolding process_dinode_dir_local
  process_dinode_dir_local-Lists wide dinode self i8count parent slot es s claimed h fits width
        is_wide c =
      let (above, rest) =
        SpellsAt-append dinode (dinode_nbytes + 1 + 1) (ino_bytes wide parent) (short_bytes wide es)
          h.1.1 in
      let later =
        local_loop-Reads wide dinode slot 0 (dinode_nbytes + 2 + (if not wide then 4 else 8))
          i8count es (put_content self slot (length es) claimed).1
          (subst (λ k. SpellsAt dinode k (short_bytes wide es))
            (omega (arith, length-ino_bytes wide parent)) rest)
          fits width in
      let there = Reads-at (slot + 0) slot es _ _ (omega arith) later in
      rw (h.0, h.1.0, is_wide, c, there.done)
        (record { listed = _; reads = Reads-done slot es _ _ there; children = refl })
