-- ===== src/Fs/Fcb/Count.antt =====
-- fcb_del and the count of users: a block that has other users, and one that has none left.
use bztsrc_osz.Prelude.{
  ℕ, zero, suc, ◌-◌, ◌≤◌, ◌<◌, ◌≡◌, ◌≢◌, refl, sym, ap, ◌∙◌, Bool, true, false, Option, none, some,
  List, ltb, if◌then◌else◌, arith, inl, inr, length, get_elem?, set, take, length-set,
  get_elem?-set_self, get_elem?-set_ne, lt_of_get, get_elem?-take, ℕ_discrete, dec_lt, length-take,
  Option-cases, Bool-cases,
}
use bztsrc_osz.Fs.Fcb.{Fcb, Fcbs, type_union, is_free, trim, cleared, clear, del_members, fcb_del}

-- A block with other users.
pub fcb_del-counted :
    (depth : ℕ) (s : Fcbs) (idx : ℕ) (f : Fcb)
    → idx < s.nfcb
    → get_elem? s.fcb idx ≡ some f
    → is_free f ≡ false
    → 1 < f.nopen
    → fcb_del (suc depth) s idx
      ≡ some (record s { fcb = set s.fcb idx (record f { nopen = f.nopen - 1 }) })
unfolding fcb_del
fcb_del-counted depth s idx f h at used many = ground (arith, h, at, used, many)

-- The path of what is read, if it is in the table.
abbrev path_at : Bool → Option Fcb → Option (List ℕ)
path_at inside o = if inside then elim o [ none ↦ none | some f ↦ f.abspath ] else none

-- The path of a block in the table, if it is in use.
abbrev pub path_of : Fcbs → ℕ → Option (List ℕ)
path_of s i = path_at (ltb i s.nfcb) (get_elem? s.fcb i)

is_free-none : (f : Fcb) → is_free f ≡ true → f.abspath ≡ none
is_free-none f e = ground (arith, e)

trim-free :
    (fs : List Fcb) (n j : ℕ) (f : Fcb)
    → trim fs n ≤ j
    → j < n
    → get_elem? fs j ≡ some f
    → f.abspath ≡ none
unfolding trim
trim-free fs zero j f a b at = absurd (omega arith)
trim-free fs (suc n) j f a b at = elim (Option-cases (get_elem? fs n)) [
  | inl e ↦ absurd (ground (arith, e, a, b))
  | inr (g, e) ↦ elim (Bool-cases (is_free g)) [
    | inr busy ↦ absurd (ground (arith, e, busy, a, b))
    | inl free ↦ elim (ℕ_discrete j n) [
      | yes same ↦
          let k : get_elem? fs n ≡ some f = ap (get_elem? fs) (sym same) ∙ at in
          let z : g.abspath ≡ none = is_free-none g free in ground (arith, e, k, z)
      | no below ↦ trim-free fs n j f (ground (arith, e, free, a)) (omega arith) at
    ]
  ]
]

trim_bound : (fs : List Fcb) (n : ℕ) → trim fs n ≤ n
unfolding trim
trim_bound fs zero = omega arith
trim_bound fs (suc n) = ground (arith, trim_bound fs n)

-- The table without the unused blocks at its end.
abbrev shorter : List Fcb → ℕ → Fcbs
shorter fs n = record { nfcb = trim fs n; fcb = take (trim fs n) fs }

path_of-none :
    (fs : List Fcb) (n j : ℕ) (f : Fcb)
    → get_elem? fs j ≡ some f
    → f.abspath ≡ none
    → path_of (record { nfcb = n; fcb = fs }) j ≡ none
path_of-none fs n j f at z = ground (arith, at, z)

-- No path leaves with them.
shorter-path_of :
    (fs : List Fcb) (n j : ℕ) → path_of (shorter fs n) j ≡ path_of (record { nfcb = n; fcb = fs }) j
shorter-path_of fs n j = elim (dec_lt j (trim fs n)) [
  | yes inside ↦ ground (arith, inside, trim_bound fs n, get_elem?-take fs (trim fs n) j inside)
  | no behind ↦ elim (Option-cases (get_elem? fs j)) [
    | inl missing ↦ ground (arith, behind, missing)
    | inr (f, at) ↦ elim (dec_lt j n) [
      | no outside ↦ ground (arith, behind, outside)
      | yes there ↦
          ground
            (arith, behind, path_of-none fs n j f at (trim-free fs n j f (omega arith) there at))
    ]
  ]
]

-- A block leaves the table, all other paths stay, and the table counts its blocks.
pub record Released (s s' : Fcbs) (idx : ℕ) : Type 0 where
  pub gone : path_of s' idx ≡ none
  pub kept : (j : ℕ) → j ≢ idx → path_of s' j ≡ path_of s j
  pub table : s'.nfcb ≡ length s'.fcb

clear-Released :
    (s : Fcbs) (idx : ℕ) (f : Fcb)
    → s.nfcb ≡ length s.fcb
    → get_elem? s.fcb idx ≡ some f
    → (s' : Fcbs) × (clear s idx ≡ some s') × Released s s' idx
unfolding clear
clear-Released s idx f table at =
    let fs : List Fcb = set s.fcb idx (cleared f) in
    let size : length fs ≡ length s.fcb = length-set s.fcb idx (cleared f) in
    let here : get_elem? fs idx ≡ some (cleared f) =
      get_elem?-set_self s.fcb idx (cleared f) (lt_of_get s.fcb idx f at) in
    (
      shorter fs s.nfcb,
      ground (arith, at),
      record {
        gone = shorter-path_of fs s.nfcb idx ∙ path_of-none fs s.nfcb idx (cleared f) here refl;
        kept = λ j ne.
            shorter-path_of fs s.nfcb j
            ∙ ap (path_at (ltb j s.nfcb)) (get_elem?-set_ne s.fcb (cleared f) (λ z. ne (sym z)));
        table = omega (arith, length-take (trim fs s.nfcb) fs, trim_bound fs s.nfcb, table, size);
      },
    )

-- fcb_del of a block in use that is no union and has no other user: it ends, the block leaves the table and all
-- other blocks keep their paths.
pub fcb_del-Released :
    (depth : ℕ) (s : Fcbs) (idx : ℕ) (f : Fcb)
    → s.nfcb ≡ length s.fcb
    → get_elem? s.fcb idx ≡ some f
    → is_free f ≡ false
    → f.nopen ≤ 1
    → f.ftype ≢ type_union
    → (s' : Fcbs) × (fcb_del (suc depth) s idx ≡ some s') × Released s s' idx
unfolding fcb_del del_members
fcb_del-Released depth s idx f table at used few plain =
    let g : Fcb = record f { nopen = f.nopen - 1 } in
    let s1 : Fcbs = record s { fcb = set s.fcb idx g } in
    let h : idx < length s.fcb = lt_of_get s.fcb idx f at in
    let size : length s1.fcb ≡ length s.fcb = length-set s.fcb idx g in
    let (s', run, r) =
      clear-Released s1 idx g (table ∙ sym size) (get_elem?-set_self s.fcb idx g h) in
    (
      s',
      ground (arith, h, table, at, used, few, plain, run),
      record {
        gone = r.gone;
        kept = λ j ne.
            r.kept j ne ∙ ap (path_at (ltb j s.nfcb)) (get_elem?-set_ne s.fcb g (λ z. ne (sym z)));
        table = r.table;
      },
    )
