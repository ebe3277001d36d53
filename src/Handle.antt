-- ===== src/Handle.antt =====
-- What the two backends share when they open a handle.
use xallib.Prelude.{ℕ, Bool, false, Option, none, some, List, [], ◌∷◌, ◌++◌, length, ltb}
use xallib.Pool.{Pool}

-- `sizeof(struct xal_inode)`, `sizeof(struct xal_extent)`, the reserved elements of a pool, and
-- XAL_PATH_MAXLEN
abbrev pub inode_nbytes : ℕ
inode_nbytes = 312

abbrev pub extent_nbytes : ℕ
extent_nbytes = 25

abbrev pub pool_reserved : ℕ
pool_reserved = 40_000_000

abbrev pub path_maxlen : ℕ
path_maxlen = 255

-- A zeroed `struct xal_pool`
abbrev pub blank_pool : {E : Type 0} → E → Pool E
blank_pool blank = record {
  reserved = 0;
  allocated = 0;
  growby = 0;
  free = 0;
  element_size = 0;
  memory = λ i. blank;
}

-- A name with a suffix, if a name is given
abbrev pub shm_with : List ℕ → Option (List ℕ) → Option (List ℕ)
shm_with suffix none = none
shm_with suffix (some name) = some (name ++ suffix)

abbrev pub suffix_inodes : List ℕ
suffix_inodes = b'_' ∷ b'i' ∷ b'n' ∷ b'o' ∷ b'd' ∷ b'e' ∷ b's' ∷ []

abbrev pub suffix_extents : List ℕ
suffix_extents = b'_' ∷ b'e' ∷ b'x' ∷ b't' ∷ b'e' ∷ b'n' ∷ b't' ∷ b's' ∷ []

-- `opts->shm_name && strlen(opts->shm_name) > XAL_PATH_MAXLEN`
abbrev pub is_too_long : Option (List ℕ) → Bool
is_too_long none = false
is_too_long (some name) = ltb path_maxlen (length name)
