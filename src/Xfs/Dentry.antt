-- ===== src/Xfs/Dentry.antt =====
-- `decode_dentry`: one entry of a directory block.
use xallib.Prelude.{
  ℕ, zero, suc, ◌+◌, ◌*◌, ◌/◌, List, [], ◌∷◌, Bool, ◌&&◌, ◌||◌, ◌==◌, if◌then◌else◌,
}
use xallib.Bytes.{Buf, be16, be64}
use xallib.Types.{Inode, blank_inode}

-- `memcpy(dentry->name, cursor, n)`
unfoldable pub name_bytes : Buf → ℕ → ℕ → List ℕ
name_bytes buf o zero = []
name_bytes buf o (suc n) = buf o ∷ name_bytes buf (o + 1) n

-- `name[i]` of the zeroed array
abbrev pub name_at : List ℕ → ℕ → ℕ
name_at [] i = 0
name_at (c ∷ cs) zero = c
name_at (c ∷ cs) (suc i) = name_at cs i

-- The size of the entry, and what is stored in the zeroed `dentry`: nothing for an unused entry.
unfoldable pub decode_dentry : Buf → ℕ → ℕ × Inode
unfolding name_bytes
decode_dentry buf o =
    let namelen = buf (o + 8) in
    if be16 buf o == 0xffff then (be16 buf (o + 2), blank_inode) else (
      (8 + 1 + 1 + 2 + namelen + 7) / 8 * 8,
      record blank_inode {
        ino = be64 buf o;
        namelen = namelen;
        name = name_bytes buf (o + 9) namelen;
        ftype = buf (o + 9 + namelen);
      },
    )

-- `(!dentry.ino) || (!dentry.namelen)`
abbrev pub ends_block : Inode → Bool
ends_block dentry = dentry.ino == 0 || dentry.namelen == 0

-- The entries `.` and `..`
abbrev pub is_dots : Inode → Bool
is_dots dentry =
    dentry.namelen == 1 && name_at dentry.name 0 == b'.'
    || dentry.namelen == 2 && name_at dentry.name 0 == b'.' && name_at dentry.name 1 == b'.'
