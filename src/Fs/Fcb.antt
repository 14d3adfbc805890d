-- ===== src/Fs/Fcb.antt =====
-- File control blocks of the file system service, src/fs/fcb.c: the table of them, which paths name them, and the
-- counts of their users. A path is the list of its characters without the 0 at the end, a read of an element
-- that is not in memory is `none`, and so is fuel that ran out. A table that becomes shorter stays where it is.
-- Counters are taken not to wrap around.
pub mod Count
pub mod Write
pub mod Tests
use bztsrc_osz.Prelude.{
  ℕ, zero, suc, ◌+◌, ◌-◌, ◌/◌, ◌%◌, ◌==◌, ◌||◌, ◌&&◌, not, Bool, true, false, Option, none, some,
  List, [], ◌∷◌, ◌++◌, ltb, leb, if◌then◌else◌, length, get_elem?, set, take,
}
use bztsrc_osz.Fs.Pipe.{minus_one}

-- FCB_TYPE_*
abbrev pub reg_file : ℕ
reg_file = 0

abbrev pub type_pipe : ℕ
type_pipe = 3

abbrev pub type_union : ℕ
type_union = 5

-- fcb_t. `excl` is FCB_FLAG_EXCL of the flags. `storage` is the first field of each type's data, which for a pipe
-- is its index; the list of a union ends before its 0.
pub record Fcb : Type 0 where
  pub abspath : Option (List ℕ)
  pub nopen : ℕ
  pub ftype : ℕ
  pub excl : Bool
  pub fs : ℕ
  pub mode : ℕ
  pub storage : ℕ
  pub filesize : ℕ
  pub unionlist : Option (List ℕ)

-- The table, which has nfcb elements but after a reallocation that failed.
pub record Fcbs : Type 0 where
  pub nfcb : ℕ
  pub fcb : List Fcb

-- strcmp of two paths finds no difference. It does so only if they are the same, since a path is not empty.
abbrev pub same_path : List ℕ → List ℕ → Bool
same_path [] [] = true
same_path [] (y ∷ ys) = false
same_path (x ∷ xs) [] = false
same_path (x ∷ xs) (y ∷ ys) = (x == y) && same_path xs ys

-- The block has this path.
abbrev pub named : Fcb → List ℕ → Bool
named f path = elim f.abspath [ none ↦ false | some a ↦ same_path a path ]

-- The block is not in use.
abbrev pub is_free : Fcb → Bool
is_free f = elim f.abspath [ none ↦ true | some a ↦ false ]

-- The last character of a path is a slash.
ends_in_slash : List ℕ → Bool
ends_in_slash [] = false
ends_in_slash (c ∷ []) = c == 47
ends_in_slash (c ∷ d ∷ cs) = ends_in_slash (d ∷ cs)

-- The loop of fcb_get, for a path and the same with a slash behind it.
pub find_path : List Fcb → List ℕ → List ℕ → Option ℕ
find_path [] path slashed = none
find_path (f ∷ fs) path slashed =
    let rest = find_path fs path slashed in
    if named f path || named f slashed
    then some 0
    else elim rest [ none ↦ none | some i ↦ some (suc i) ]

-- fcb_get of a path that is there. `memory` says whether there is memory for the path with a slash.
pub fcb_get : Fcbs → List ℕ → Bool → ℕ
fcb_get s [] memory = minus_one
fcb_get s (c ∷ cs) memory =
    let path = c ∷ cs in
    let slashed = if ends_in_slash path || not memory then path else path ++ (47 ∷ []) in
    elim (find_path s.fcb path slashed) [ none ↦ minus_one | some i ↦ i ]

-- The loop of fcb_add: the block of a path, or else the first that is not in use.
pub data Place : Type 0 where
  there unused : ℕ → Place
  nowhere : Place

abbrev pub shift : Place → Place
shift (there i) = there (suc i)
shift (unused i) = unused (suc i)
shift nowhere = nowhere

pub find_place : List Fcb → List ℕ → Place
find_place [] path = nowhere
find_place (f ∷ fs) path =
    let rest = shift (find_place fs path) in
    if named f path
    then there 0
    else if is_free f
    then elim rest [ there i ↦ there i | _ ↦ unused 0 ]
    else rest

-- The fields that fcb_add fills in.
abbrev pub filled : Fcb → Option (List ℕ) → ℕ → Fcb
filled f path ftype = record f {
  abspath = path;
  ftype = ftype;
  fs = if ltb ftype type_pipe then 65535 else f.fs;
}

-- fcb_add. `copy` is what strdup returns, and `fresh` what a new element of the table holds, or `none` when there
-- is no memory for it.
pub fcb_add : Fcbs → List ℕ → ℕ → Option (List ℕ) → Option Fcb → Option (ℕ × Fcbs)
fcb_add s path ftype copy fresh = elim (find_place s.fcb path) [
  | there i ↦ some (i, s)
  | unused i ↦ elim (get_elem? s.fcb i) [
    | none ↦ none
    | some f ↦ some (i, record s { fcb = set s.fcb i (filled f copy ftype) })
  ]
  | nowhere ↦ elim fresh [
    | none ↦ some (minus_one, record { nfcb = s.nfcb + 1; fcb = [] })
    | some f ↦
        some (s.nfcb, record { nfcb = s.nfcb + 1; fcb = s.fcb ++ (filled f copy ftype ∷ []) })
  ]
]

-- The last loop of fcb_del: the number of blocks without the unused ones at the end.
pub trim : List Fcb → ℕ → ℕ
trim fs zero = 0
trim fs (suc i) =
    let rest = trim fs i in
    elim (get_elem? fs i) [ none ↦ suc i | some f ↦ if is_free f then rest else suc i ]

-- The block is cleared, and the unused ones at the end of the table leave it.
abbrev pub cleared : Fcb → Fcb
cleared f = record f {
  abspath = none;
  filesize = 0;
  unionlist = if f.ftype == type_union then none else f.unionlist;
}

pub clear : Fcbs → ℕ → Option Fcbs
clear s i = elim (get_elem? s.fcb i) [
  | none ↦ none
  | some f ↦
      let fs = set s.fcb i (cleared f) in
      let n = trim fs s.nfcb in some (record { nfcb = n; fcb = take n fs })
]

-- The members of a union are released.
pub del_members : (Fcbs → ℕ → Option Fcbs) → ℕ → List ℕ → Fcbs → Option Fcbs
del_members del idx [] s = some s
del_members del idx (i ∷ is) s =
    if i == idx
    then del_members del idx is s
    else elim (del s i) [ none ↦ none | some s' ↦ del_members del idx is s' ]

-- The members that go with a block.
abbrev pub members : Fcb → List ℕ
members f = if f.ftype == type_union then elim f.unionlist [ none ↦ [] | some l ↦ l ] else []

-- fcb_del. The fuel is the depth of unions in unions.
pub fcb_del : ℕ → Fcbs → ℕ → Option Fcbs
fcb_del zero s idx = none
fcb_del (suc fuel) s idx = if leb s.nfcb idx then some s else elim (get_elem? s.fcb idx) [
  | none ↦ none
  | some f ↦
      let f' : Fcb = record f { nopen = f.nopen - 1 } in
      let s' : Fcbs = record s { fcb = set s.fcb idx f' } in
      if is_free f
      then some s
      else if not (f'.nopen == 0)
      then some s'
      else elim (del_members (fcb_del fuel) idx (members f) s') [
        | none ↦ none
        | some s'' ↦ clear s'' idx
      ]
]

-- The `for` loop of fcb_free from block `i` on, `n` rounds at most; the flag is `was`.
pub free_pass : ℕ → ℕ → Fcbs → ℕ → Bool → Option (Fcbs × Bool)
free_pass depth zero s i was = if leb s.nfcb i then some (s, was) else none
free_pass depth (suc n) s i was = if leb s.nfcb i then some (s, was) else elim (get_elem? s.fcb i) [
  | none ↦ none
  | some f ↦
      if f.nopen == 0
      then elim (fcb_del depth s i) [ none ↦ none | some s' ↦ free_pass depth n s' (i + 1) true ]
      else free_pass depth n s (i + 1) was
]

-- fcb_free, with fuel for its `while` loop.
pub fcb_free : ℕ → ℕ → Fcbs → Option Fcbs
fcb_free zero depth s = none
fcb_free (suc fuel) depth s = elim (free_pass depth s.nfcb s 0 false) [
  | none ↦ none
  | some (s', was) ↦ if was then fcb_free fuel depth s' else some s'
]

-- fcb_unionlist_add: a member is added to a list that has `n` places. `fresh` is what the new place holds, or
-- `none` when there is no memory.
pub is_member : List ℕ → ℕ → ℕ → Option Bool
is_member fl f zero = some false
is_member [] f (suc n) = none
is_member (g ∷ fl) f (suc n) = if g == f then some true else is_member fl f n

pub fcb_unionlist_add : List ℕ → ℕ → ℕ → Option ℕ → Option (ℕ × List ℕ)
fcb_unionlist_add fl f n fresh = if f == minus_one then some (n, fl) else elim (is_member fl f n) [
  | none ↦ none
  | some true ↦ some (n, fl)
  | some false ↦ elim fresh [
    | none ↦ some (0, [])
    | some v ↦ some (n + 1, set (fl ++ (v ∷ [])) (n - 1) f)
  ]
]
