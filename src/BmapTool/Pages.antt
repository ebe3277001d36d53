-- ===== src/BmapTool/Pages.antt =====
-- The pages of tools/xal_bmap_mp_yaml.c together are the whole map of a file.
use xallib.Prelude.{
  ℕ, zero, suc, ◌+◌, ◌*◌, ◌/◌, ◌%◌, ◌^◌, ==_iff, ◌-◌, ◌<◌, ◌≡◌, refl, ap, sym, ◌∙◌, Bool,
  Bool-cases, true, false, inl, inr, Option, some, List, [], ◌∷◌, ◌++◌, length, take, append_assoc,
  append-nil, if◌then◌else◌, arith,
}
use xallib.Result.{ok}
use xallib.Fiemap.State.{FiemapExtent}
use xallib.Print.{Piece, text, bytes, number, unsigned}
use xallib.BmapTool.{
  Env, extent_capacity, is_last, end_of, last_block, extent_line, extent_lines, last_of, header,
  page_loop, process_file,
}

-- A run of sectors of 512 bytes, in the file and on the disk.
pub record Run : Type 0 where
  pub logical : ℕ
  pub physical : ℕ
  pub nsectors : ℕ

-- The extent is the run: it has whole sectors, and one at least.
pub record IsRun (r : Run) (e : FiemapExtent) : Type 0 where
  pub logical : e.fe_logical ≡ r.logical * 512
  pub physical : e.fe_physical ≡ r.physical * 512
  pub size : e.fe_length ≡ r.nsectors * 512
  pub some_there : 0 < r.nsectors
  pub file_bound : e.fe_logical + e.fe_length < 2 ^ 64
  pub disk_bound : e.fe_physical + e.fe_length < 2 ^ 64

abbrev pub AllRuns : List Run → List FiemapExtent → Type 0
AllRuns [] [] = Unit {0}
AllRuns (r ∷ rs) (e ∷ es) = IsRun r e × AllRuns rs es
AllRuns _ _ = ⊥

-- The four numbers of a run: its first and last sector in the file, and on the disk.
abbrev pub run_line : Run → List Piece
run_line r =
    text "- ["
    ∷ (number unsigned r.logical
        ∷ (text ", "
            ∷ (number unsigned (r.logical + (r.nsectors - 1))
                ∷ (text ", "
                    ∷ (number unsigned r.physical
                        ∷ (text ", "
                            ∷ (number unsigned (r.physical + (r.nsectors - 1))
                                ∷ (text "]\n" ∷ []))))))))

abbrev pub run_lines : List Run → List Piece
run_lines [] = []
run_lines (r ∷ rs) = run_line r ++ run_lines rs

-- The path in quotes, and the lines; nothing for a file without extents.
abbrev pub report_of : (fpath : List ℕ) → List Run → List Piece
report_of fpath [] = []
report_of fpath (r ∷ rs) = text "\"" ∷ (bytes fpath ∷ (text "\":\n" ∷ run_lines (r ∷ rs)))

-- What the documentation of the FIEMAP ioctl says for a file with these extents: from the start, and
-- from the end of each extent on, it gives the extents that follow, at most `more` of them behind
-- the first one, if there is room for one, and only the last extent of the file can have FIEMAP_EXTENT_LAST, the lowest of the flags.
pub record IsMapped (ioctl : ℕ → ℕ → Option (List FiemapExtent)) (es : List FiemapExtent)
    : Type 0 where
  pub more : (start capacity : ℕ) → ℕ
  pub from_start :
      (capacity : ℕ) → 0 < capacity → ioctl 0 capacity ≡ some (take (suc (more 0 capacity)) es)
  pub from_end :
      (before rest : List FiemapExtent) (e : FiemapExtent) (capacity : ℕ)
      → 0 < capacity
      → es ≡ before ++ (e ∷ rest)
      → ioctl (e.fe_logical + e.fe_length) capacity
        ≡ some (take (suc (more (e.fe_logical + e.fe_length) capacity)) rest)
  pub last :
      (before rest : List FiemapExtent) (e : FiemapExtent)
      → es ≡ before ++ (e ∷ rest)
      → e.fe_flags % 2 ≡ 1
      → rest ≡ []
  pub small :
      (before rest : List FiemapExtent) (e : FiemapExtent)
      → es ≡ before ++ (e ∷ rest)
      → e.fe_logical + e.fe_length < 2 ^ 64

is_last_odd : (e : FiemapExtent) → is_last e ≡ true → e.fe_flags % 2 ≡ 1
is_last_odd e h = (==_iff (e.fe_flags % 2) 1).0 h

end_of_exact :
    (e : FiemapExtent) → e.fe_logical + e.fe_length < 2 ^ 64 → end_of e ≡ e.fe_logical + e.fe_length
end_of_exact e small = omega (arith, small)

-- A page of at least one extent, and what is left.
record Page (c : ℕ) (e : FiemapExtent) (es : List FiemapExtent) : Type 0 where
  before : List FiemapExtent
  rest : List FiemapExtent
  whole : e ∷ es ≡ before ++ (last_of e (take c es) ∷ rest)
  page : e ∷ take c es ≡ before ++ (last_of e (take c es) ∷ [])
  shorter : length rest < length (e ∷ es)

first-Page : (c : ℕ) (e : FiemapExtent) (es : List FiemapExtent) → Page c e es
unfolding last_of
first-Page zero e es = record {
  before = [];
  rest = es;
  whole = refl;
  page = refl;
  shorter = omega arith;
}
first-Page (suc c) e [] = record {
  before = [];
  rest = [];
  whole = refl;
  page = refl;
  shorter = omega arith;
}
first-Page (suc c) e (f ∷ fs) =
    let p = first-Page c f fs in
    record {
      before = e ∷ p.before;
      rest = p.rest;
      whole = ap (λ l. e ∷ l) p.whole;
      page = ap (λ l. e ∷ l) p.page;
      shorter = omega (arith, p.shorter);
    }

extent_lines-append :
    (es fs : List FiemapExtent) → extent_lines (es ++ fs) ≡ extent_lines es ++ extent_lines fs
unfolding extent_lines
extent_lines-append [] fs = refl
extent_lines-append (e ∷ es) fs =
    ap (λ l. extent_line e ++ l) (extent_lines-append es fs)
    ∙ sym (append_assoc (extent_line e) (extent_lines es) (extent_lines fs))

-- The header goes before the first line, if there is one.
headed : (fpath : List ℕ) (printed_header : Bool) → List FiemapExtent → List Piece
headed fpath printed_header [] = []
headed fpath printed_header (e ∷ es) =
    (if printed_header then [] else header fpath) ++ extent_lines (e ∷ es)

headed_before : (fpath : List ℕ) (es : List FiemapExtent) → headed fpath true es ≡ extent_lines es
unfolding headed extent_lines
headed_before fpath [] = refl
headed_before fpath (e ∷ es) = refl

module _ (env : Env) (fpath : List ℕ) (es : List FiemapExtent)
    (m : IsMapped (env.ioctl fpath) es) where
  page_loop-headed :
      (fuel start c : ℕ) (printed_header : Bool) (before rest : List FiemapExtent)
      → es ≡ before ++ rest
      → env.ioctl fpath start extent_capacity ≡ some (take (suc c) rest)
      → length rest < fuel
      → page_loop env fuel fpath start printed_header ≡ ok (headed fpath printed_header rest)
  unfolding page_loop headed extent_lines
  page_loop-headed zero start c printed_header before rest w i h = absurd (omega (arith, h))
  page_loop-headed (suc fuel) start c printed_header before [] w i h = simp (page_loop, i) refl
  page_loop-headed (suc fuel) start c printed_header before (e ∷ rest) w i h =
      let i' : env.ioctl fpath start extent_capacity ≡ some (e ∷ take c rest) = i in
      let p = first-Page c e rest in
      let e' = last_of e (take c rest) in
      let whole : es ≡ (before ++ p.before) ++ (e' ∷ p.rest) =
        w ∙ ap (λ l. before ++ l) p.whole ∙ sym (append_assoc before p.before (e' ∷ p.rest)) in
      let lines : extent_lines (e ∷ rest) ≡ extent_lines (e ∷ take c rest) ++ extent_lines p.rest =
        ap extent_lines (p.whole ∙ sym (append_assoc p.before (e' ∷ []) p.rest))
        ∙ extent_lines-append (p.before ++ (e' ∷ [])) p.rest
        ∙ ap (λ l. extent_lines l ++ extent_lines p.rest) (sym p.page) in
      let first = if printed_header then [] else header fpath in
      elim (Bool-cases (is_last e')) [
        | inl last ↦
            let none_left = m.last (before ++ p.before) p.rest e' whole (is_last_odd e' last) in
            simp (page_loop, i', last)
              (ap (λ l. ok (first ++ l))
                (sym (
                  lines
                  ∙ ap (λ r. extent_lines (e ∷ take c rest) ++ extent_lines r) none_left
                  ∙ append-nil (extent_lines (e ∷ take c rest)))))
        | inr more ↦
            let later =
              page_loop-headed fuel (end_of e')
                (m.more (e'.fe_logical + e'.fe_length) extent_capacity) true
                (before ++ (p.before ++ (e' ∷ []))) p.rest
                (w
                  ∙ ap (λ l. before ++ l) (p.whole ∙ sym (append_assoc p.before (e' ∷ []) p.rest))
                  ∙ sym (append_assoc before (p.before ++ (e' ∷ [])) p.rest))
                (ap (λ n. env.ioctl fpath n extent_capacity)
                    (end_of_exact e' (m.small (before ++ p.before) p.rest e' whole))
                  ∙ m.from_end (before ++ p.before) p.rest e' extent_capacity (omega arith) whole)
                (omega (arith, h, p.shorter)) in
            simp (page_loop, i', more, later)
              (ap ok
                  (append_assoc first (extent_lines (e ∷ take c rest)) (headed fpath true p.rest))
                ∙ ap (λ l. ok (first ++ l))
                    (ap (λ l. extent_lines (e ∷ take c rest) ++ l) (headed_before fpath p.rest)
                      ∙ sym lines))
      ]

extent_lines-run_lines :
    (rs : List Run) (es : List FiemapExtent) → AllRuns rs es → extent_lines es ≡ run_lines rs
unfolding extent_lines
extent_lines-run_lines [] [] h = refl
extent_lines-run_lines [] (e ∷ es) h = absurd h
extent_lines-run_lines (r ∷ rs) [] h = absurd h
extent_lines-run_lines (r ∷ rs) (e ∷ es) h =
    let x : IsRun r e = h.0 in
    let l : e.fe_logical / 512 ≡ r.logical = omega (arith, x.logical) in
    let p : e.fe_physical / 512 ≡ r.physical = omega (arith, x.physical) in
    let l' : last_block (e.fe_logical / 512) (e.fe_length / 512) ≡ r.logical + (r.nsectors - 1) =
      omega (arith, x.logical, x.size, x.some_there, x.file_bound) in
    let p' : last_block (e.fe_physical / 512) (e.fe_length / 512) ≡ r.physical + (r.nsectors - 1) =
      omega (arith, x.physical, x.size, x.some_there, x.disk_bound) in
    rw (l', p', l, p, extent_lines-run_lines rs es h.1) refl

headed-report_of :
    (fpath : List ℕ) (rs : List Run) (es : List FiemapExtent)
    → AllRuns rs es
    → headed fpath false es ≡ report_of fpath rs
unfolding headed
headed-report_of fpath [] [] h = refl
headed-report_of fpath [] (e ∷ es) h = absurd h
headed-report_of fpath (r ∷ rs) [] h = absurd h
headed-report_of fpath (r ∷ rs) (e ∷ es) h =
    ap (λ l. header fpath ++ l) (extent_lines-run_lines (r ∷ rs) (e ∷ es) h)

-- Where a file opens, and its extents have whole sectors of 512 bytes, and the ioctl gives them
-- in pages, from the start of the file and from the end of each extent on, the block map tool,
-- with fuel above the number of the extents, prints the path in quotes, and for each extent, in
-- their order and once, a line with its first and last sector in the file and on the disk;
-- nothing for a file without extents.
pub process_file-report_of :
    (env : Env) (fuel : ℕ) (fpath : List ℕ) (rs : List Run) (es : List FiemapExtent)
    → IsMapped (env.ioctl fpath) es
    → AllRuns rs es
    → env.can_open fpath ≡ true
    → length es < fuel
    → process_file env fuel fpath true ≡ ok (report_of fpath rs)
unfolding process_file
process_file-report_of env fuel fpath rs es m runs opens enough =
    simp (process_file, opens)
      (page_loop-headed env fpath es m fuel 0 (m.more 0 extent_capacity) false [] es refl
        (m.from_start extent_capacity (omega arith)) enough)
    ∙ ap ok (headed-report_of fpath rs es runs)
