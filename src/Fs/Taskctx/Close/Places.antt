-- ===== src/Fs/Taskctx/Close/Places.antt =====
-- The places in the list of open files of a task: what is left of the list when taskctx_close frees one.
use bztsrc_osz.Prelude.{
  ℕ, zero, suc, ◌≤◌, ◌<◌, ◌≡◌, ◌≢◌, refl, sym, ap, ◌∙◌, ◌==◌, Bool, true, none, some, List, [],
  arith, inl, inr, length, get_elem?, set, take, length-set, get_elem?-set_self, get_elem?-set_ne,
  lt_of_get, get_elem?-take, get_elem?-of_take, length-take, ℕ_discrete, Option-cases, Bool-cases,
  sub64,
}
use bztsrc_osz.Fs.Pipe.{minus_one}
use bztsrc_osz.Fs.Taskctx.{OpenFile, Taskctx, open_file}
use bztsrc_osz.Fs.Taskctx.Open.Slots.{files, IsCounted}
use bztsrc_osz.Fs.Taskctx.Close.{trim_files, shrink, free_place}

trim_files-kept :
    (ofs : List OpenFile) (n j : ℕ) (of : OpenFile)
    → j < n
    → get_elem? ofs j ≡ some of
    → of.fid ≢ minus_one
    → j < trim_files ofs n
unfolding trim_files
trim_files-kept ofs zero j of h at used = absurd (omega arith)
trim_files-kept ofs (suc n) j of h at used = elim (Option-cases (get_elem? ofs n)) [
  | inl e ↦ ground (arith, e, h)
  | inr (g, e) ↦ elim (Bool-cases (g.fid == minus_one)) [
    | inr busy ↦ ground (arith, e, busy, h)
    | inl free ↦ elim (ℕ_discrete j n) [
      | yes same ↦
          let f : get_elem? ofs n ≡ some of = ap (get_elem? ofs) (sym same) ∙ at in
          absurd (ground (arith, e, f, free, used))
      | no below ↦ ground (arith, e, free, trim_files-kept ofs n j of (omega arith) at used)
    ]
  ]
]

-- The list of a context with a place that is free again keeps the other files in use.
pub record Freed (ofs : List OpenFile) (tc : Taskctx) (i : ℕ) : Type 0 where
  pub free : (of : OpenFile) → get_elem? (files tc) i ≡ some of → of.fid ≡ minus_one
  pub kept :
      (j : ℕ) (of : OpenFile)
      → j ≢ i
      → of.fid ≢ minus_one
      → get_elem? ofs j ≡ some of
      → get_elem? (files tc) j ≡ some of
  pub counted : IsCounted tc

abbrev freed : List OpenFile → ℕ → OpenFile → List OpenFile
freed ofs i of = set ofs i (record of { fid = minus_one })

pub files_list : (tc : Taskctx) (l : List OpenFile) → tc.openfiles ≡ some l → files tc ≡ l
files_list tc l e = ap (λ o. elim o as (λ x. List OpenFile) [ none ↦ [] | some k ↦ k ]) e

pub list_of :
    (tc : Taskctx) (idx : ℕ) (of : OpenFile)
    → open_file tc idx ≡ some of
    → (l : List OpenFile) × (tc.openfiles ≡ some l)
list_of tc idx of e = elim (Option-cases tc.openfiles) [
  | inl null ↦ absurd (ground (arith, null, e))
  | inr (l, list) ↦ (l, list)
]

freed-Freed :
    (ofs : List OpenFile) (tc : Taskctx) (i : ℕ) (of : OpenFile)
    → i < length ofs
    → tc.openfiles ≡ some (freed ofs i of)
    → tc.nopenfiles ≡ length ofs
    → Freed ofs tc i
freed-Freed ofs tc i of h e c =
    let list : files tc ≡ freed ofs i of = files_list tc (freed ofs i of) e in
    let gone : OpenFile = record of { fid = minus_one } in
    record {
      free = λ x g.
          ground (arith, ap (λ l. get_elem? l i) (sym list) ∙ g, get_elem?-set_self ofs i gone h);
      kept = λ j x ne used g.
          ap (λ l. get_elem? l j) list ∙ get_elem?-set_ne ofs gone (λ z. ne (sym z)) ∙ g;
      counted = λ l g. c ∙ sym (length-set ofs i gone) ∙ ap length (ground (arith, e, g));
    }

-- So does the list when it becomes shorter.
cut-Freed :
    (ofs l : List OpenFile) (tc : Taskctx) (i n : ℕ)
    → files tc ≡ l
    → Freed ofs tc i
    → ((j : ℕ) (of : OpenFile) → get_elem? l j ≡ some of → of.fid ≢ minus_one → j < n)
    → n ≤ length l
    → Freed ofs (record tc { nopenfiles = n; openfiles = some (take n l) }) i
cut-Freed ofs l tc i n here d low size = record {
  free = λ x g. d.free x (ap (λ k. get_elem? k i) here ∙ get_elem?-of_take l n i x g);
  kept = λ j x ne used g.
      (let g' : get_elem? l j ≡ some x =
          ap (λ k. get_elem? k j) (sym here) ∙ d.kept j x ne used g in
        get_elem?-take l n j (low j x g' used) ∙ g');
  counted = λ k e.
      (let same : take n l ≡ k = ground (arith, e) in
        omega (arith, length-take n l, size, ap length same));
}

empty-Freed :
    (ofs l : List OpenFile) (tc : Taskctx) (i : ℕ)
    → files tc ≡ l
    → Freed ofs tc i
    → ((j : ℕ) (of : OpenFile) → get_elem? l j ≡ some of → of.fid ≢ minus_one → j < 0)
    → Freed ofs (record tc { nopenfiles = 0; openfiles = none }) i
empty-Freed ofs l tc i here d low = record {
  free = λ x g. cc;
  kept = λ j x ne used g.
      (let g' : get_elem? l j ≡ some x =
          ap (λ k. get_elem? k j) (sym here) ∙ d.kept j x ne used g in
        absurd (omega (arith, low j x g' used)));
  counted = λ k e. cc;
}

trim_files_bound : (ofs : List OpenFile) (n : ℕ) → trim_files ofs n ≤ n
unfolding trim_files
trim_files_bound ofs zero = omega arith
trim_files_bound ofs (suc n) = ground (arith, trim_files_bound ofs n)

shrink-Freed :
    (ofs l : List OpenFile) (tc : Taskctx) (i : ℕ)
    → files tc ≡ l
    → tc.nopenfiles ≡ length l
    → Freed ofs tc i
    → (tc' : Taskctx) × (shrink tc l true ≡ (tc', true)) × Freed ofs tc' i
unfolding shrink
shrink-Freed ofs l tc i here c d =
    let n : ℕ = trim_files l tc.nopenfiles in
    let low : (j : ℕ) (of : OpenFile) → get_elem? l j ≡ some of → of.fid ≢ minus_one → j < n =
      λ j of at used.
        trim_files-kept l tc.nopenfiles j of (omega (arith, lt_of_get l j of at, c)) at used in
    elim (ℕ_discrete n tc.nopenfiles) [
      | yes same ↦ (tc, ground (arith, same), d)
      | no less ↦ elim (ℕ_discrete n 0) [
        | yes nothing ↦ (
          record tc { nopenfiles = 0; openfiles = none },
          ground (arith, less, nothing),
          empty-Freed ofs l tc i here d (λ j of at used. omega (arith, low j of at used, nothing)),
        )
        | no left ↦ (
          record tc { nopenfiles = n; openfiles = some (take n l) },
          ground (arith, less, left),
          cut-Freed ofs l tc i n here d low (omega (arith, trim_files_bound l tc.nopenfiles, c)),
        )
      ]
    ]

pub free_place-Freed :
    (ofs : List OpenFile) (tc : Taskctx) (i : ℕ) (of : OpenFile) (dontfree : Bool)
    → tc.openfiles ≡ some ofs
    → tc.nopenfiles ≡ length ofs
    → i < length ofs
    → (tc' : Taskctx) × (free_place tc i of dontfree true ≡ some (tc', true)) × Freed ofs tc' i
unfolding free_place
free_place-Freed ofs tc i of dontfree e c h =
    let l : List OpenFile = freed ofs i of in
    let tc1 : Taskctx = record tc { nfiles = sub64 tc.nfiles 1; openfiles = some l } in
    let d : Freed ofs tc1 i = freed-Freed ofs tc1 i of h refl c in
    let size : length l ≡ length ofs = length-set ofs i (record of { fid = minus_one }) in
    let (tc', run, d') = shrink-Freed ofs l tc1 i refl (c ∙ sym size) d in
    elim (Bool-cases dontfree) [
      | inl keep ↦ (tc1, ground (arith, e, keep), d)
      | inr cut ↦ (tc', ground (arith, e, cut, run), d')
    ]
