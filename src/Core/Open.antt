-- ===== src/Core/Open.antt =====
-- `xal_open` of src/xal.c.
use xallib.Prelude.{
  ℕ, ◌+◌, ◌*◌, ◌%◌, ◌^◌, Bool, true, false, inl, inr, Option, none, some, List, [], ◌∷◌, ◌++◌, ltb,
  ◌==◌, if◌then◌else◌,
}
use xallib.Result.{Result, ok, err, einval, overrun, os}
use xallib.Pool.{Kernel}
use xallib.Types.{Backend, unset, xfs, fiemap}
use xallib.Xfs.Open.{xfs_open}
use xallib.Fiemap.Open.{Opts, open_fiemap}
use xallib.Core.{
  Backing, on_xfs, on_fiemap, Handle, put_lba_blksze, Namespace, Env, retrieve_mountpoint,
}

module _ (env : Env) where
  -- `opts->be`: where it is not set, the backend is FIEMAP if the device is mounted; with the
  -- mountpoint that was found then.
  unfoldable pub choose_backend : (be : Backend) (uri : List ℕ) → Result (Backend × Option (List ℕ))
  choose_backend be uri = elim be [
    | unset ↦ elim (retrieve_mountpoint env uri) [
      | err overrun ↦ err overrun
      | err e ↦ ok (xfs, none)
      | ok path ↦ ok (fiemap, some path)
    ]
    | xfs ↦ ok (xfs, none)
    | fiemap ↦ ok (fiemap, none)
  ]

  -- The mountpoint, looked up if it is not known yet.
  unfoldable pub known_mountpoint : Option (List ℕ) → (uri : List ℕ) → Result (List ℕ)
  known_mountpoint none uri = retrieve_mountpoint env uri
  known_mountpoint (some path) uri = ok path

  -- The `switch (opts->be)`. A call of `xal_be_xfs_open` that returns 0 without a handle is
  -- followed by a store through a pointer that nothing set; `unset` does not come here.
  unfoldable pub open_backend :
      (fuel : ℕ) → Backend → Option (List ℕ) → (uri : List ℕ) → Opts → Result Backing
  open_backend fuel unset mountpoint uri opts = err einval
  open_backend fuel xfs mountpoint uri opts = elim (xfs_open env.xfs_env opts.shm_name) [
    | err e ↦ err e
    | ok none ↦ err overrun
    | ok (some s) ↦ ok (on_xfs s)
  ]
  open_backend fuel fiemap mountpoint uri opts = elim (known_mountpoint mountpoint uri) [
    | err e ↦ err e
    | ok path ↦ elim (open_fiemap env.fiemap_env fuel (some path) opts) [
      | err e ↦ err e
      | ok s ↦ ok (on_fiemap s)
    ]
  ]

  -- The errno of the first call that fails for the shared dirty flag, of one byte.
  unfoldable pub share_dirty : Kernel → (shm_name : Option (List ℕ)) → Option ℕ
  share_dirty kernel none = none
  share_dirty kernel (some name) =
      let dirty_name = name ++ (b'_' ∷ b'd' ∷ b'i' ∷ b'r' ∷ b't' ∷ b'y' ∷ []) in
      elim (kernel.shm_open dirty_name) [
        | some e ↦ some e
        | none ↦ elim (kernel.ftruncate dirty_name 1) [
          | some e ↦ some e
          | none ↦ kernel.mmap_shared dirty_name 1
        ]
      ]

  -- `1U << ns->lbaf[fidx].ds`, for a shift that is less than 32.
  abbrev pub lba_blksze_of : Namespace → ℕ
  lba_blksze_of ns =
      2
      ^ (ns.lbaf (
          if ltb 16 ns.nlbaf
          then (ns.flbas_format + ns.flbas_format_msb * 2 ^ 4) % 2 ^ 8
          else ns.flbas_format))

  abbrev pub is_named : Option (List ℕ) → Bool
  is_named none = false
  is_named (some name) = true

  -- What follows the `switch`. The handle is `*xal` also where the last call fails.
  unfoldable pub finish_open : Kernel → Opts → Backing → Result (Unit {0}) × Option Handle
  finish_open kernel opts backing = elim (share_dirty kernel opts.shm_name) [
    | some e ↦ (err (os e), none)
    | none ↦ elim env.get_ns [
      | inl e ↦ (
        if e == 0 then ok tt else err (os e),
        some (record { backing = backing; is_dirty_shared = is_named opts.shm_name }),
      )
      | inr ns ↦ (
        ok tt,
        some (record {
          backing = put_lba_blksze backing (lba_blksze_of ns);
          is_dirty_shared = is_named opts.shm_name;
        }),
      )
    ]
  ]

  -- `xal_open`, with options; `*xal` where it is left open.
  unfoldable pub open_xal : (fuel : ℕ) → Kernel → Backend → Opts → Result (Unit {0}) × Option Handle
  open_xal fuel kernel be opts = elim env.uri [
    | none ↦ (err einval, none)
    | some uri ↦ elim (choose_backend be uri) [
      | err e ↦ (err e, none)
      | ok choice ↦ elim (open_backend fuel choice.0 choice.1 uri opts) [
        | err e ↦ (err e, none)
        | ok backing ↦ finish_open kernel opts backing
      ]
    ]
  ]
