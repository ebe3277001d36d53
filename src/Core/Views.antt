-- ===== src/Core/Views.antt =====
-- A view that `xal_from_pools` of src/xal.c makes of the pools of a handle: `xal_get_inode` of
-- src/xal_be_fiemap.c on it.
use xallib.Prelude.{
  ℕ, zero, suc, ◌≡◌, refl, ap, sym, ◌∙◌, ◌+◌, leb, subst, Bool, true, Bool-cases, none, some, inl,
  inr, Option-cases, List, length, if◌then◌else◌,
}
use xallib.Result.{Result, ok, err, einval}
use xallib.Types.{Xal, Sb, fiemap, inode_at}
use xallib.Paths.{split_slash, starts_with, skip}
use xallib.Fiemap.State.{Fiemap}
use xallib.Fiemap.Search.{compare_name_to_inode, search_loop, search_by_traversal, get_inode}
use xallib.Core.{Env, Handle, on_fiemap, view_of, from_pools, index_xal}

module _ (env : Env) (s : Fiemap) (sb : Sb) (flag : Bool) where
  -- The view.
  abbrev pub viewed : Xal
  viewed = view_of sb s.xal.inodes.memory s.xal.extents.memory flag fiemap

  loop-viewed :
      (fuel i : ℕ) (path : List ℕ)
      → search_loop env.fiemap_env fuel viewed i path ≡ search_loop env.fiemap_env fuel s.xal i path
  unfolding search_loop compare_name_to_inode
  loop-viewed zero i path = refl
  loop-viewed (suc fuel) i path =
      let found =
        env.fiemap_env.bsearch (compare_name_to_inode s.xal (split_slash path).0)
          (inode_at s.xal i).content.idx (inode_at s.xal i).content.count in
      elim (Option-cases found) [
        | inl e ↦ simp (search_loop, compare_name_to_inode, e) refl
        | inr (child, e) ↦ elim (Option-cases (split_slash path).1) [
          | inl last ↦ simp (search_loop, e, last) refl
          | inr (rest, more) ↦ simp (search_loop, e, more) (loop-viewed fuel child rest)
        ]
      ]

  abbrev pub view_state : Fiemap
  view_state = record {
    xal = viewed;
    mountpoint = s.mountpoint;
    inotify = none;
    path_inode_map = none;
  }

  traversal-viewed :
      (root : ℕ) (path : List ℕ)
      → search_by_traversal env.fiemap_env viewed s.mountpoint root path
        ≡ search_by_traversal env.fiemap_env s.xal s.mountpoint root path
  unfolding search_by_traversal
  traversal-viewed root path =
      ap
        (λ (r : Result ℕ).
          if leb (length path) (length s.mountpoint + 1)
          then err einval
          else if starts_with s.mountpoint path
          then r
          else err einval)
        (loop-viewed (suc (length path)) root (skip (length s.mountpoint + 1) path))

  get_inode-viewed :
      (path : List ℕ)
      → s.xal.backend ≡ fiemap
      → s.xal.root_idx ≡ 0
      → s.path_inode_map ≡ none
      → get_inode env.fiemap_env view_state path ≡ get_inode env.fiemap_env s path
  unfolding get_inode
  get_inode-viewed path be root off =
      traversal-viewed 0 path
      ∙ simp (get_inode, be, off)
          (ap (λ i. search_by_traversal env.fiemap_env s.xal s.mountpoint i path) (sym root))

  abbrev pub view_handle : Handle
  view_handle = record { backing = on_fiemap view_state; is_dirty_shared = true }

  index-viewed : (fuel : ℕ) → index_xal env fuel view_handle ≡ (err einval, view_handle)
  unfolding index_xal
  index-viewed fuel = refl

  -- What a view answers and refuses.
  pub record Serves (h : Handle) : Type 0 where
    pub view : Fiemap
    pub backed : h.backing ≡ on_fiemap view
    pub same_inodes :
        (path : List ℕ) → get_inode env.fiemap_env view path ≡ get_inode env.fiemap_env s path
    pub refuses : (fuel : ℕ) → index_xal env fuel h ≡ (err einval, h)

  -- A view that xal_from_pools makes of the pools of an indexed FIEMAP handle, whose root is the
  -- first inode and which has no path table, gives for each path what xal_get_inode gives on the
  -- handle, and refuses to be indexed.
  pub from_pools-Serves :
      (h : Handle)
      → s.xal.backend ≡ fiemap
      → s.xal.root_idx ≡ 0
      → s.path_inode_map ≡ none
      → from_pools env sb (some s.mountpoint) s.xal.inodes.memory s.xal.extents.memory (some flag)
        ≡ ok h
      → Serves h
  unfolding from_pools
  from_pools-Serves h be root off e = elim (Bool-cases env.calloc) [
    | inr missed ↦ cc (rw missed at e)
    | inl there ↦ elim (Bool-cases env.strdup) [
      | inr missed ↦ cc (rw (there, missed) at e)
      | inl copied ↦
          let f : ok view_handle ≡ ok h = rw (there, copied) at e in
          let g : view_handle ≡ h = cc f in
          subst Serves g (record {
            view = view_state;
            backed = refl;
            same_inodes = λ path. get_inode-viewed path be root off;
            refuses = index-viewed;
          })
    ]
  ]
