-- ===== src/Xfs/Open/Groups.antt =====
-- The loop of `xal_be_xfs_open` over the headers of the allocation groups.
use xallib.Prelude.{
  ℕ, zero, suc, ◌+◌, ◌*◌, ◌%◌, ◌^◌, ◌≡◌, refl, subst, true, arith, ◌∙◌, ap, inl, inr, Bool-cases,
  List, [], ◌∷◌, ◌++◌, length,
}
use xallib.Result.{ok, Result-cases}
use xallib.Word.{add_size, mul_size}
use xallib.Types.{Xal, Sb}
use xallib.Bytes.{Buf, be32}
use xallib.Xfs.State.{Env, Xfs, Ag}
use xallib.Xfs.Device.{dev_read, dev_read_keeps, dev_read_ags}
use xallib.Xfs.Open.{
  retrieve_and_decode_allocation_group, decode_ag, count_ag, ag_loop, is_ag_header,
}

-- The headers of a group in a buffer that starts with the group: the AGF in the second sector and
-- the AGI in the third, each with its magic number and the group's number.
pub record HasHeaders (sectsize : ℕ) (buf : Buf) (seqno : ℕ) (ag : Ag) : Type 0 where
  pub agf : be32 buf sectsize ≡ 0x58414746
  pub agf_seqno : be32 buf (sectsize + 8) ≡ seqno
  pub agf_length : ag.agf_length ≡ be32 buf (sectsize + 12)
  pub agi : be32 buf (sectsize * 2) ≡ 0x58414749
  pub agi_seqno : be32 buf (sectsize * 2 + 8) ≡ seqno
  pub agi_count : ag.agi_count ≡ be32 buf (sectsize * 2 + 16)
  pub agi_root : ag.agi_root ≡ be32 buf (sectsize * 2 + 20)
  pub agi_level : ag.agi_level ≡ be32 buf (sectsize * 2 + 24)
  pub number : ag.seqno ≡ seqno

-- The group has the headers that a read of four sectors from its offset on has given.
pub record IsRead (env : Env) (sectsize agblocks blocksize seqno : ℕ) (ag : Ag) : Type 0 where
  pub before : Xfs
  pub offset : ag.offset ≡ seqno * agblocks % 2 ^ 64 * blocksize % 2 ^ 64
  pub done : (dev_read env (sectsize * 4) ag.offset before).0 ≡ ok tt
  pub headers : HasHeaders sectsize (dev_read env (sectsize * 4) ag.offset before).1.buf seqno ag

-- The groups `ags` are those from `first` on.
abbrev pub AllRead : Env → (sectsize agblocks blocksize first : ℕ) → List Ag → Type 0
AllRead env sectsize agblocks blocksize first [] = Unit {0}
AllRead env sectsize agblocks blocksize first (ag ∷ ags) =
    IsRead env sectsize agblocks blocksize first ag
    × AllRead env sectsize agblocks blocksize (first + 1) ags

abbrev pub AllGroups : Env → Sb → (first : ℕ) → List Ag → Type 0
AllGroups env sb = AllRead env sb.sectsize sb.agblocks sb.blocksize

abbrev pub with_nallocated : Sb → ℕ → Sb
with_nallocated sb n = record sb { nallocated = n }

-- The sum of the inodes that the groups have, as the `uint64_t` it is.
abbrev pub total : ℕ → List Ag → ℕ
total n [] = n
total n (ag ∷ ags) = total (add_size n ag.agi_count) ags

-- From `s` to `q` the headers of one group were read.
record ReadsOne (env : Env) (seqno : ℕ) (s q : Xfs) : Type 0 where
  ag : Ag
  all : q.ags ≡ s.ags ++ (ag ∷ [])
  read : IsRead env s.xal.sb.sectsize s.xal.sb.agblocks s.xal.sb.blocksize seqno ag
  counted : q.xal.sb.nallocated ≡ add_size s.xal.sb.nallocated ag.agi_count
  same_sb : q.xal.sb ≡ with_nallocated s.xal.sb q.xal.sb.nallocated

-- From `s` to `q` the headers of `left` groups were read, from `seqno` on.
pub record Reads (env : Env) (left seqno : ℕ) (s q : Xfs) : Type 0 where
  pub new : List Ag
  pub all : q.ags ≡ s.ags ++ new
  pub number : length new ≡ left
  pub read : AllGroups env s.xal.sb seqno new
  pub counted : q.xal.sb.nallocated ≡ total s.xal.sb.nallocated new
  pub same_sb : q.xal.sb ≡ with_nallocated s.xal.sb q.xal.sb.nallocated

append_nil : {A : Type 0} (xs : List A) → xs ≡ xs ++ []
append_nil [] = refl
append_nil (x ∷ xs) = ap (λ l. x ∷ l) (append_nil xs)

append_assoc : {A : Type 0} (xs ys zs : List A) → (xs ++ ys) ++ zs ≡ xs ++ (ys ++ zs)
append_assoc [] ys zs = refl
append_assoc (x ∷ xs) ys zs = ap (λ l. x ∷ l) (append_assoc xs ys zs)

Reads-nil : (env : Env) (seqno : ℕ) (s : Xfs) → Reads env 0 seqno s s
Reads-nil env seqno s = record {
  new = [];
  all = append_nil s.ags;
  number = refl;
  read = tt;
  counted = refl;
  same_sb = refl;
}

Reads-cons :
    (env : Env) (left seqno : ℕ) (s q r : Xfs)
    → ReadsOne env seqno s q
    → Reads env left (seqno + 1) q r
    → Reads env (suc left) seqno s r
Reads-cons env left seqno s q r a b = record {
  new = a.ag ∷ b.new;
  all = b.all ∙ ap (λ l. l ++ b.new) a.all ∙ append_assoc s.ags (a.ag ∷ []) b.new;
  number = ap suc b.number;
  read = (a.read, subst (λ sb. AllGroups env sb (seqno + 1) b.new) a.same_sb b.read);
  counted = b.counted ∙ ap (λ n. total n b.new) a.counted;
  same_sb = b.same_sb ∙ ap (λ sb. with_nallocated sb r.xal.sb.nallocated) a.same_sb;
}

headers_there :
    (seqno : ℕ) (sb : Sb) (buf : Buf)
    → is_ag_header sb buf seqno ≡ true
    → HasHeaders sb.sectsize buf seqno (decode_ag sb buf seqno)
unfolding is_ag_header decode_ag
headers_there seqno sb buf good = record {
  agf = ground (arith, good);
  agf_seqno = ground (arith, good);
  agf_length = refl;
  agi = ground (arith, good);
  agi_seqno = ground (arith, good);
  agi_count = refl;
  agi_root = refl;
  agi_level = refl;
  number = refl;
}

module _ (env : Env) where
  one-ReadsOne :
      (seqno : ℕ) (s : Xfs)
      → (retrieve_and_decode_allocation_group env seqno s).0 ≡ ok tt
      → ReadsOne env seqno s
          (count_ag env seqno (retrieve_and_decode_allocation_group env seqno s).1).1
  unfolding retrieve_and_decode_allocation_group decode_ag
  one-ReadsOne seqno s e =
      let n = s.xal.sb.sectsize * 4 in
      let ofz = mul_size (mul_size seqno s.xal.sb.agblocks) s.xal.sb.blocksize in
      let k = (dev_read_keeps env n ofz s).0 in
      let s' = (dev_read env n ofz s).1 in
      elim (Result-cases (dev_read env n ofz s).0) [
        | inr (c, m) ↦ cc (rw m at e)
        | inl (u, m) ↦ elim (Bool-cases (is_ag_header s.xal.sb s'.buf seqno)) [
          | inr bad ↦ cc (rw (m, bad) at e)
          | inl good ↦
              rw (m, good)
                (record {
                  ag = decode_ag s.xal.sb s'.buf seqno;
                  all =
                      ap (λ l. l ++ (decode_ag s.xal.sb s'.buf seqno ∷ []))
                        (dev_read_ags env n ofz s);
                  read = record {
                    before = s;
                    offset = refl;
                    done = m;
                    headers = headers_there seqno s.xal.sb s'.buf good;
                  };
                  counted =
                      ap
                        (λ (x : Xal).
                          add_size x.sb.nallocated (decode_ag x.sb s'.buf seqno).agi_count)
                        k;
                  same_sb =
                      ap
                        (λ (x : Xal). with_nallocated x.sb (
                          add_size s'.xal.sb.nallocated
                            (decode_ag s'.xal.sb s'.buf seqno).agi_count))
                        k;
                })
        ]
      ]

  pub ag_loop-Reads :
      (left seqno : ℕ) (s : Xfs)
      → (ag_loop env left seqno s).0 ≡ ok tt
      → Reads env left seqno s (ag_loop env left seqno s).1
  unfolding ag_loop
  ag_loop-Reads zero seqno s e = Reads-nil env seqno s
  ag_loop-Reads (suc left) seqno s e =
      elim (Result-cases (retrieve_and_decode_allocation_group env seqno s).0) [
        | inr (c, m) ↦ cc (rw m at e)
        | inl (u, m) ↦
            rw (m, ag_loop)
              (Reads-cons env left seqno s _ _ (one-ReadsOne seqno s m)
                (ag_loop-Reads left (seqno + 1) _ (rw m at e)))
      ]
