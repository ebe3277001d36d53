-- ===== src/Xfs/DirBlock/Listing.antt =====
-- The entries of a directory block as the on-disk format has them, and what the loop of
-- `process_dinode_dir_extents_dblock` in src/xal_be_xfs.c keeps of them.
use xallib.Prelude.{
  ℕ, zero, suc, ◌+◌, ◌*◌, ◌/◌, ◌%◌, ◌^◌, ◌<◌, ◌≤◌, ◌≡◌, ◌∙◌, refl, ap, subst, ◌⊎◌, inl, inr, Bool,
  true, false, Bool-cases, List, [], ◌∷◌, ◌++◌, length, length-append, ltb, lt→ltb, ◌==◌, ◌&&◌,
  ◌||◌, if◌then◌else◌, arith,
}
use xallib.Result.{ok}
use xallib.Pool.Bounds.{ChecksMapping}
use xallib.Bytes.{Buf, be16}
use xallib.Types.{Inode, blank_inode}
use xallib.Xfs.State.{Env, Xfs}
use xallib.Xfs.Dentry.{name_at, is_dots, decode_dentry}
use xallib.Xfs.Dirs.Encoding.{
  SpellsAt, SpellsAt-append, bytes_64, be64-SpellsAt, name_bytes-SpellsAt,
}
use xallib.Xfs.DirBlock.{Round, stop, skip, keep, round_at, dblock_loop}
use xallib.Xfs.DirBlock.Adds.{IsFilling, Adds}
use xallib.Xfs.DirBlock.Entries.{entries, dblock_loop-Adds}

-- An entry: its inode number, name and type, and the bytes behind these, padding and a tag.
pub record DataEntry : Type 0 where
  pub ino : ℕ
  pub name : List ℕ
  pub ftype : ℕ
  pub tail : List ℕ

abbrev pub data_entry_bytes : DataEntry → List ℕ
data_entry_bytes e = bytes_64 e.ino ++ (length e.name ∷ (e.name ++ (e.ftype ∷ e.tail)))

abbrev pub data_bytes : List DataEntry → List ℕ
data_bytes [] = []
data_bytes (e ∷ es) = data_entry_bytes e ++ data_bytes es

-- An entry has a number, below those that start like an unused entry, and a name, and its size is
-- the next multiple of 8 that has room for its fields and the 2 bytes of the tag.
pub record IsEntry (e : DataEntry) : Type 0 where
  pub numbered : 0 < e.ino
  pub small : e.ino < 2 ^ 63
  pub has_name : 0 < length e.name
  pub aligned : length (data_entry_bytes e) % 8 ≡ 0
  pub room : 12 + length e.name ≤ length (data_entry_bytes e)
  pub next : length (data_entry_bytes e) < 20 + length e.name

abbrev pub AllEntries : List DataEntry → Type 0
AllEntries [] = Unit {0}
AllEntries (e ∷ es) = IsEntry e × AllEntries es

-- The names of the directory itself and of its parent
abbrev pub is_dot : List ℕ → Bool
is_dot (c ∷ []) = c == 0x2e
is_dot (c ∷ (d ∷ [])) = c == 0x2e && d == 0x2e
is_dot _ = false

abbrev pub entry_inode : DataEntry → Inode
entry_inode e = record blank_inode {
  ino = e.ino;
  namelen = length e.name;
  name = e.name;
  ftype = e.ftype;
}

-- The inodes of all entries but `.` and `..`, in their order.
abbrev pub children_of : List DataEntry → List Inode
children_of [] = []
children_of (e ∷ es) = if is_dot e.name then children_of es else entry_inode e ∷ children_of es

-- A block that has these entries from an offset on, up to its end or to its first unused entry.
pub record IsBlock (dblock : Buf) (limit ofz : ℕ) (es : List DataEntry) : Type 0 where
  pub spelled : SpellsAt dblock ofz (data_bytes es)
  pub all : AllEntries es
  pub within : ofz + length (data_bytes es) ≤ limit
  pub ends :
      (limit ≤ ofz + length (data_bytes es)) ⊎ (be16 dblock (ofz + length (data_bytes es)) ≡ 0xffff)

unused-stop : (b : Buf) (ofz : ℕ) → be16 b ofz ≡ 0xffff → round_at b ofz ≡ stop
unfolding round_at decode_dentry
unused-stop b ofz e = ground arith

-- The round at an entry.
abbrev round_of : ℕ → DataEntry → Round
round_of ofz e =
    if is_dot e.name
    then skip (ofz + length (data_entry_bytes e))
    else keep (ofz + length (data_entry_bytes e)) (entry_inode e)

decode_dentry-entry :
    (b : Buf) (ofz : ℕ) (e : DataEntry)
    → IsEntry e
    → SpellsAt b ofz (data_entry_bytes e)
    → decode_dentry b ofz ≡ (length (data_entry_bytes e), entry_inode e)
unfolding decode_dentry
decode_dentry-entry b ofz e i h =
    let (number, fields) =
      SpellsAt-append b ofz (bytes_64 e.ino) (length e.name ∷ (e.name ++ (e.ftype ∷ e.tail))) h in
    let ino = be64-SpellsAt b ofz e.ino (omega (arith, i.small)) number in
    let (named, behind) = SpellsAt-append b (ofz + 8 + 1) e.name (e.ftype ∷ e.tail) fields.1 in
    let no_tag : (be16 b ofz == 0xffff) ≡ false = ground (arith, i.small, number.0) in
    let name_there =
      name_bytes-SpellsAt b (ofz + 9) e.name
        (subst (λ k. SpellsAt b k e.name) (omega arith) named) in
    let ftype_there : b (ofz + 9 + length e.name) ≡ e.ftype = ap b (omega arith) ∙ behind.0 in
    let size : (8 + 1 + 1 + 2 + length e.name + 7) / 8 * 8 ≡ length (data_entry_bytes e) =
      omega (arith, i.aligned, i.room, i.next) in
    rw (no_tag, fields.0, ino, name_there, ftype_there) (ap (λ n. (n, entry_inode e)) size)

is_dots_lem : (e : DataEntry) → is_dots (entry_inode e) ≡ is_dot e.name
is_dots_lem e = by_name e.name
  where
    by_name :
        (name : List ℕ)
        → (length name == 1 && name_at name 0 == b'.'
            || length name == 2 && name_at name 0 == b'.' && name_at name 1 == b'.')
          ≡ is_dot name
    by_name [] = refl
    by_name (c ∷ []) = ground arith
    by_name (c ∷ (d ∷ [])) = ground arith
    by_name (c ∷ (d ∷ (x ∷ xs))) = ground arith

round_at_entry :
    (b : Buf) (ofz : ℕ) (e : DataEntry)
    → IsEntry e
    → SpellsAt b ofz (data_entry_bytes e)
    → round_at b ofz ≡ round_of ofz e
unfolding round_at
round_at_entry b ofz e i h =
    let no_ino : (e.ino == 0) ≡ false = ground (arith, i.numbered) in
    let no_name : (length e.name == 0) ≡ false = ground (arith, i.has_name) in
    rw (decode_dentry-entry b ofz e i h, no_ino, no_name, is_dots_lem e) refl

IsBlock-tail :
    (b : Buf) (limit ofz : ℕ) (e : DataEntry) (es : List DataEntry)
    → IsBlock b limit ofz (e ∷ es)
    → IsBlock b limit (ofz + length (data_entry_bytes e)) es
IsBlock-tail b limit ofz e es h =
    let parts = length-append (data_entry_bytes e) (data_bytes es) in
    let same : ofz + length (data_entry_bytes e ++ data_bytes es)
        ≡ ofz + length (data_entry_bytes e) + length (data_bytes es) =
      omega (arith, parts) in
    record {
      spelled = (SpellsAt-append b ofz (data_entry_bytes e) (data_bytes es) h.spelled).1;
      all = h.all.1;
      within = omega (arith, h.within, same);
      ends = elim h.ends [
        | inl over ↦ inl (omega (arith, over, same))
        | inr unused ↦ inr (subst (λ k. be16 b k ≡ 0xffff) same unused)
      ];
    }

entries-children :
    (fuel : ℕ) (b : Buf) (limit ofz : ℕ) (es : List DataEntry)
    → length es < fuel
    → IsBlock b limit ofz es
    → entries fuel b limit ofz ≡ children_of es
unfolding entries
entries-children zero b limit ofz es enough h = absurd (omega (arith, enough))
entries-children (suc fuel) b limit ofz [] enough h = elim (Bool-cases (ltb ofz limit)) [
  | inr end ↦ rw (end, entries) refl
  | inl more ↦ elim h.ends [
    | inl over ↦ absurd (ground (arith, more, over))
    | inr unused ↦
        let stops = unused-stop b ofz (subst (λ k. be16 b k ≡ 0xffff) (omega arith) unused) in
        rw (more, stops, entries) refl
  ]
]
entries-children (suc fuel) b limit ofz (e ∷ es) enough h =
    let i : IsEntry e = h.all.0 in
    let next = ofz + length (data_entry_bytes e) in
    let here = (SpellsAt-append b ofz (data_entry_bytes e) (data_bytes es) h.spelled).0 in
    let more : ltb ofz limit ≡ true =
      lt→ltb ofz limit
        (omega (arith, h.within, i.room, length-append (data_entry_bytes e) (data_bytes es))) in
    let later =
      entries-children fuel b limit next es (omega (arith, enough))
        (IsBlock-tail b limit ofz e es h) in
    elim (Bool-cases (is_dot e.name)) [
      | inl dot ↦
          let round : round_at b ofz ≡ skip next =
            round_at_entry b ofz e i here ∙ skipped e next dot in
          rw (more, round, entries, later, dot) refl
      | inr other ↦
          let round : round_at b ofz ≡ keep next (entry_inode e) =
            round_at_entry b ofz e i here ∙ taken e next other in
          rw (more, round, entries, later, other) refl
    ]
  where
    skipped :
        (e : DataEntry) (next : ℕ)
        → is_dot e.name ≡ true
        → (if is_dot e.name then skip next else keep next (entry_inode e)) ≡ skip next
    skipped e next dot = rw dot refl

    taken :
        (e : DataEntry) (next : ℕ)
        → is_dot e.name ≡ false
        → (if is_dot e.name then skip next else keep next (entry_inode e))
          ≡ keep next (entry_inode e)
    taken e next other = rw other refl

-- A run of the loop over a directory block that succeeds, for a directory inode that was handed
-- out in a valid pool, where the block has entries in the on-disk format from the offset on, up
-- to its end or to its first unused entry, and with fuel above their number, adds exactly the
-- inodes of those entries, but for . and ..: behind the inodes there were, in their order, each
-- with its number, name, type and parent; the count of the directory goes up by their number
-- modulo 2^32, and every other inode is as it was. This supposes that mprotect() refuses what is
-- not mapped.
pub dblock_loop-children :
    (env : Env) (checks : ChecksMapping env.kernel) (fuel : ℕ) (dblock : Buf) (ofz self : ℕ)
    (es : List DataEntry) (s : Xfs)
    → IsFilling self s
    → IsBlock dblock s.xal.sb.dirblocksize ofz es
    → length es < fuel
    → (dblock_loop env fuel dblock ofz self s).0 ≡ ok tt
    → Adds self (children_of es) s (dblock_loop env fuel dblock ofz self s).1
dblock_loop-children env checks fuel dblock ofz self es s f h enough e =
    subst (λ l. Adds self l s (dblock_loop env fuel dblock ofz self s).1)
      (entries-children fuel dblock s.xal.sb.dirblocksize ofz es enough h)
      (dblock_loop-Adds env checks fuel dblock ofz self s f e)
