-- ===== src/Xfs/DirBlock/Entries.antt =====
-- What the loop over a directory block leaves in the pool of inodes.
use xallib.Prelude.{
  ℕ, zero, suc, ◌≡◌, refl, subst, ◌⊎◌, inl, inr, true, false, Bool-cases, List, [], ◌∷◌, ltb,
}
use xallib.Result.{ok, Result-cases}
use xallib.Pool.Bounds.{ChecksMapping}
use xallib.Types.{Inode}
use xallib.Bytes.{Buf}
use xallib.Xfs.State.{Env, Xfs}
use xallib.Xfs.DirBlock.Adds.{IsFilling, Adds, Adds-nil, Adds-cons, add_dentry-Adds}
use xallib.Xfs.DirBlock.{Round, stop, skip, keep, round_at, add_dentry, dblock_loop}

-- The entries that the loop keeps, from the offset `ofz` of a block on.
unfoldable pub entries : (fuel : ℕ) → Buf → (limit ofz : ℕ) → List Inode
entries zero dblock limit ofz = []
entries (suc fuel) dblock limit ofz = elim (ltb ofz limit) [
  | false ↦ []
  | true ↦ elim (round_at dblock ofz) [
    | stop ↦ []
    | skip next ↦ entries fuel dblock limit next
    | keep next dentry ↦ dentry ∷ entries fuel dblock limit next
  ]
]

pub Round-cases :
    (r : Round)
    → (r ≡ stop) ⊎ ((next : ℕ) × (r ≡ skip next)) ⊎ ((next : ℕ) × (e : Inode) × (r ≡ keep next e))
Round-cases stop = inl refl
Round-cases (skip next) = inr (inl (next, refl))
Round-cases (keep next e) = inr (inr (next, e, refl))

module _ (env : Env) (checks : ChecksMapping env.kernel) where
  -- The round that keeps an entry.
  kept_round-Adds :
      (fuel : ℕ) (dblock : Buf) (next self : ℕ) (e : Inode) (s q r : Xfs)
      → IsFilling self s
      → Adds self (e ∷ []) s q
      → (IsFilling self q → Adds self (entries fuel dblock q.xal.sb.dirblocksize next) q r)
      → Adds self (e ∷ entries fuel dblock s.xal.sb.dirblocksize next) s r
  kept_round-Adds fuel dblock next self e s q r f a rest = Adds-cons self e _ s q r f a (
      subst (λ sb. Adds self (entries fuel dblock sb.dirblocksize next) q r) a.same_sb
        (rest a.filling))

  -- A run of the loop over a directory block that succeeds, for a directory inode that was handed
  -- out in a valid pool, adds what its rounds keep from the offset on, as `entries` has it: behind
  -- the inodes there were, in their order, each with its parent; the count of the directory goes
  -- up by their number modulo 2^32, and every other inode is as it was. This supposes that
  -- mprotect() refuses what is not mapped.
  pub dblock_loop-Adds :
      (fuel : ℕ) (dblock : Buf) (ofz self : ℕ) (s : Xfs)
      → IsFilling self s
      → (dblock_loop env fuel dblock ofz self s).0 ≡ ok tt
      → Adds self
          (entries fuel dblock s.xal.sb.dirblocksize ofz)
          s
          (dblock_loop env fuel dblock ofz self s).1
  unfolding dblock_loop entries
  dblock_loop-Adds zero dblock ofz self s f h = cc
  dblock_loop-Adds (suc fuel) dblock ofz self s f h =
      elim (Bool-cases (ltb ofz s.xal.sb.dirblocksize)) [
        | inr end ↦ rw (end, dblock_loop, entries) (Adds-nil self s f)
        | inl more ↦ elim (Round-cases (round_at dblock ofz)) [
          | inl e ↦ rw (more, e, dblock_loop, entries) (Adds-nil self s f)
          | inr (inl (next, e)) ↦
              rw (more, e, dblock_loop, entries)
                (dblock_loop-Adds fuel dblock next self s f (rw (more, e, dblock_loop) at h))
          | inr (inr (next, d, e)) ↦
              let h' = rw (more, e, dblock_loop) at h in
              elim (Result-cases (add_dentry env self d s).0) [
                | inr (c, m) ↦ cc (rw m at h')
                | inl (u, m) ↦
                    rw (more, e, dblock_loop, entries, m)
                      (kept_round-Adds fuel dblock next self d s (add_dentry env self d s).1 _ f
                        (add_dentry-Adds env self d s checks f m)
                        (λ g. dblock_loop-Adds fuel dblock next self _ g (rw m at h')))
              ]
        ]
      ]
