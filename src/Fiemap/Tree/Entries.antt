-- ===== src/Fiemap/Tree/Entries.antt =====
-- The loop of `process_inode_dir_fiemap` in src/xal_be_fiemap.c over the sorted names.
use mathlib.Core.List.{Pairwise, mem-cons_self, mem-cons_of_mem}
use xallib.Prelude.{
  ℕ, ◌+◌, ◌^◌, ◌<◌, ◌≡◌, refl, ap, sym, subst, ◌∙◌, inl, inr, Bool-cases, ltb, List, [], ◌∷◌,
  length, arith,
}
use xallib.Result.{Exec, ok, Result-cases}
use xallib.Types.{Xal}
use xallib.Paths.{path_of}
use xallib.Fiemap.State.{Env, Fiemap, self_at}
use xallib.Fiemap.Index.{name_maxlen, name_dentry, count_dentry, process_entry, process_entries}
use xallib.Fiemap.Tree.Listing.{IsRising}
use xallib.Fiemap.Tree.Named.{Grown, Grows, Named, entry-Named}
use xallib.Fiemap.Tree.Filling.{Filling, Ahead, step-Filling, step-Ahead}

module _ (env : Env) (process : List ℕ → ℕ → Exec Fiemap (Unit {0})) (fuel : ℕ)
    (grows : Grows process fuel) (path : List ℕ) (self base n : ℕ) (low : self < base)
    (few : base + n < 2 ^ 32) where
  -- What a round that succeeds has done before the child was processed, and then.
  record Round (k : ℕ) (name : List ℕ) (s : Fiemap) : Type 0 where
    middle : Xal
    named : Named path self base k name s.xal middle
    grown :
        Grown fuel
          (path_of path name)
          (base + k)
          middle
          (process_entry env process path self name s).1.xal

  process_entry-Round :
      (k : ℕ) (name : List ℕ) (s : Fiemap)
      → k < n
      → (x : Xal) → Filling fuel path self base n k x s.xal
      → (process_entry env process path self name s).0 ≡ ok tt
      → Round k name s
  unfolding process_entry name_dentry count_dentry
  process_entry-Round k name s some_left x f h =
      let p = path_of path name in
      let there : (self_at s self).content.idx + (self_at s self).content.count ≡ base + k =
        omega (arith, f.from, f.count) in
      elim (Bool-cases (ltb name_maxlen (length p))) [
        | inl long ↦ cc (rw (there, long) at h)
        | inr fits ↦
            let t : Fiemap = (count_dentry env self (name_dentry env (base + k) p self s).1).1 in
            let run : process_entry env process path self name s ≡ process p (base + k) t =
              rw (there, fits) refl in
            let room : base + k < s.xal.inodes.free = omega (arith, f.room, some_left) in
            let named =
              entry-Named env path self base k name s f.valid low room
                (omega (arith, few, some_left)) f.from f.count fits in
            record {
              middle = t.xal;
              named = named;
              grown =
                  subst (λ r. Grown fuel p (base + k) t.xal r.1.xal) (sym run)
                    (grows p (base + k) t named.valid (omega (arith, room, named.same_free))
                      (ap (λ r. r.0) (sym run) ∙ h));
            }
      ]

  pub process_entries-Filling :
      (k : ℕ) (names : List (List ℕ)) (x : Xal) (s : Fiemap)
      → k + length names ≡ n
      → IsRising names
      → Ahead base k names s.xal
      → Filling fuel path self base n k x s.xal
      → (process_entries env process path self names s).0 ≡ ok tt
      → Filling fuel path self base n n x (process_entries env process path self names s).1.xal
  unfolding process_entries
  process_entries-Filling k [] x s whole r ahead f h =
      subst (λ k. Filling fuel path self base n k x s.xal) (omega (arith, whole)) f
  process_entries-Filling k (name ∷ names) x s whole r ahead f h =
      let t : Fiemap = (process_entry env process path self name s).1 in
      elim (Result-cases (process_entry env process path self name s).0) [
        | inr (c, e) ↦ cc (rw e at h)
        | inl (u, e) ↦ elim r.rises [
          | Pairwise.cons behind rest ↦
              let c = r.components name mem-cons_self in
              let some_left : k < n = omega (arith, whole) in
              let d = process_entry-Round k name s some_left x f e in
              rw e (
                process_entries-Filling (k + 1) names x t (omega (arith, whole))
                  (record {
                    rises = rest;
                    components = λ later m. r.components later (mem-cons_of_mem name m);
                  })
                  (step-Ahead fuel path self base n k name x s.xal d.middle t.xal low some_left f
                    d.named d.grown names c behind ahead)
                  (step-Filling fuel path self base n k name x s.xal d.middle t.xal low some_left f
                    d.named d.grown c (λ l h. ahead l h name mem-cons_self))
                  (rw e at h))
        ]
      ]
