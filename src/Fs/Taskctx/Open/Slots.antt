-- ===== src/Fs/Taskctx/Open/Slots.antt =====
-- The places in the list of open files of a task: taskctx_open always finds one, when there is memory.
use bztsrc_osz.Prelude.{
  ℕ, zero, suc, ◌+◌, ◌-◌, ◌<◌, ◌≡◌, refl, sym, ap, ◌∙◌, ◌==◌, ◌&&◌, ◌⊎◌, not, leb, false, none,
  some, List, [], ◌∷◌, ◌++◌, arith, inl, inr, length, get_elem?, length-append, lt_of_get,
  get_elem?-append, Option-cases, Bool-cases, ==_iff,
}
use bztsrc_osz.Fs.Pipe.{minus_one}
use bztsrc_osz.Fs.Taskctx.{OpenFile, Taskctx}
use bztsrc_osz.Fs.Taskctx.Open.{free_slot, is_wanted, slot}

-- The list of a context, which is empty for the null pointer.
abbrev pub files : Taskctx → List OpenFile
files tc = elim tc.openfiles [ none ↦ [] | some ofs ↦ ofs ]

-- The context counts the places of its list.
abbrev pub IsCounted : Taskctx → Type 0
IsCounted tc = (ofs : List OpenFile) → tc.openfiles ≡ some ofs → tc.nopenfiles ≡ length ofs

-- Where the context has no list, no place is asked for that it counts. An earlier call of taskctx_open without memory
-- leaves a context that counts places and has no list.
abbrev pub HasList : Taskctx → ℕ → Type 0
HasList tc idx = tc.openfiles ≡ none → (idx ≡ 0) ⊎ (tc.nopenfiles < idx)

-- A place in the list that no open file has, with every file of the list where it was.
pub record Slot (tc tc' : Taskctx) (i : ℕ) : Type 0 where
  pub list : List OpenFile
  pub there : tc'.openfiles ≡ some list
  pub counted : tc'.nopenfiles ≡ length list
  pub bound : i < length list
  pub unused : (of : OpenFile) → get_elem? (files tc) i ≡ some of → of.fid ≡ minus_one
  pub kept : (j : ℕ) (of : OpenFile) → get_elem? (files tc) j ≡ some of → get_elem? list j ≡ some of

free_slot-unused :
    (ofs : List OpenFile) (i : ℕ)
    → free_slot ofs ≡ some i
    → (of : OpenFile) × (get_elem? ofs i ≡ some of) × (of.fid ≡ minus_one)
unfolding free_slot
free_slot-unused [] i e = cc
free_slot-unused (x ∷ xs) i e = elim (Bool-cases (x.fid == minus_one)) [
  | inl z ↦
      let at : 0 ≡ i = ground (arith, z, e) in
      (x, ap (get_elem? (x ∷ xs)) (sym at), (==_iff x.fid minus_one).0 z)
  | inr nz ↦ elim (Option-cases (free_slot xs)) [
    | inl missing ↦ absurd (ground (arith, nz, missing, e))
    | inr (j, f) ↦
        let at : suc j ≡ i = ground (arith, nz, f, e) in
        let (of, found, z) = free_slot-unused xs j f in
        (of, ap (get_elem? (x ∷ xs)) (sym at) ∙ found, z)
  ]
]

same-Slot :
    (tc : Taskctx) (ofs : List OpenFile) (i : ℕ) (of : OpenFile)
    → IsCounted tc
    → tc.openfiles ≡ some ofs
    → get_elem? ofs i ≡ some of
    → of.fid ≡ minus_one
    → Slot tc tc i
same-Slot tc ofs i of c e at z =
    let here : files tc ≡ ofs =
      ap (λ o. elim o as (λ x. List OpenFile) [ none ↦ [] | some l ↦ l ]) e in
    record {
      list = ofs;
      there = e;
      counted = c ofs e;
      bound = lt_of_get ofs i of at;
      unused = λ x g. ground (arith, at, z, ap (λ l. get_elem? l i) (sym here) ∙ g);
      kept = λ j x g. ap (λ l. get_elem? l j) (sym here) ∙ g;
    }

extended-Slot :
    (tc : Taskctx) (ofs : List OpenFile) (of : OpenFile) (n : ℕ)
    → files tc ≡ ofs
    → n ≡ length ofs
    → Slot tc (record tc { nopenfiles = n + 1; openfiles = some (ofs ++ (of ∷ [])) }) n
extended-Slot tc ofs of n here c = record {
  list = ofs ++ (of ∷ []);
  there = refl;
  counted = omega (arith, length-append ofs (of ∷ []));
  bound = omega (arith, length-append ofs (of ∷ []));
  unused =
      λ x g. absurd (omega (arith, lt_of_get ofs n x (ap (λ l. get_elem? l n) (sym here) ∙ g)));
  kept = λ j x g. get_elem?-append ofs (of ∷ []) j x (ap (λ l. get_elem? l j) (sym here) ∙ g);
}

no_read : (n idx : ℕ) → (idx ≡ 0) ⊎ (n < idx) → (not (idx == 0) && leb idx n) ≡ false
no_read n idx (inl z) = ground (arith, z)
no_read n idx (inr l) = ground (arith, l)

-- There is always a place, when there is memory, and no read without a list.
pub slot-Slot :
    (tc : Taskctx) (idx : ℕ) (of : OpenFile)
    → IsCounted tc
    → HasList tc idx
    → (tc' : Taskctx) × (i : ℕ) × (slot tc idx (some of) ≡ some (tc', some i)) × Slot tc tc' i
unfolding slot
slot-Slot tc idx of c list = elim (Option-cases tc.openfiles) [
  | inl null ↦ (
    record tc { nopenfiles = 1; openfiles = some (of ∷ []) },
    0,
    rw (null, no_read tc.nopenfiles idx (list null)) refl,
    extended-Slot tc [] of 0
        (ap (λ o. elim o as (λ x. List OpenFile) [ none ↦ [] | some l ↦ l ]) null) refl,
  )
  | inr (ofs, e) ↦
      let here : files tc ≡ ofs =
        ap (λ o. elim o as (λ x. List OpenFile) [ none ↦ [] | some l ↦ l ]) e in
      elim (Bool-cases (is_wanted ofs tc.nopenfiles idx)) [
        | inl wanted ↦ elim (Option-cases (get_elem? ofs (idx - 1))) [
          | inl nothing ↦ absurd (ground (arith, wanted, nothing))
          | inr (w, at) ↦ (
            tc,
            idx - 1,
            rw (e, wanted) refl,
            same-Slot tc ofs (idx - 1) w c e at (ground (arith, wanted, at)),
          )
        ]
        | inr free ↦ elim (Option-cases (free_slot ofs)) [
          | inr (i, found) ↦
              let (w, at, z) = free_slot-unused ofs i found in
              (tc, i, rw (e, free, found) refl, same-Slot tc ofs i w c e at z)
          | inl full ↦ (
            record tc { nopenfiles = tc.nopenfiles + 1; openfiles = some (ofs ++ (of ∷ [])) },
            tc.nopenfiles,
            rw (e, free, full) refl,
            extended-Slot tc ofs of tc.nopenfiles here (c ofs e),
          )
        ]
      ]
]

pub get_lt :
    (xs : List OpenFile) (i : ℕ) → i < length xs → (x : OpenFile) × (get_elem? xs i ≡ some x)
get_lt [] i h = absurd (omega arith)
get_lt (x ∷ xs) zero h = (x, refl)
get_lt (x ∷ xs) (suc i) h = get_lt xs i (omega arith)
