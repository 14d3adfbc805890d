-- ===== src/Fs/Taskctx/Open.antt =====
-- taskctx_open of src/fs/taskctx.c.
pub mod Slots
pub mod Users
use bztsrc_osz.Prelude.{
  ℕ, zero, suc, ◌+◌, ◌-◌, ◌/◌, ◌%◌, ◌==◌, ◌||◌, ◌&&◌, not, Bool, true, false, Option, none, some,
  List, [], ◌∷◌, ◌++◌, ltb, leb, if◌then◌else◌, get_elem?, set, ◌>>=◌,
}
use bztsrc_osz.Fs.Pipe.{Pipe, Fs, minus_one, eacces, epipe}
use bztsrc_osz.Fs.Fcb.{Fcb, Fcbs, type_pipe, is_free}
use bztsrc_osz.Fs.Taskctx.{
  OpenFile, Taskctx, Service, seterr, write_fcb, has, with_flag, ebusy, enoent, o_read, o_write,
  o_excl, o_append, o_creat, o_fifo, of_mode_tty,
}

-- The access that was asked for, with what it implies.
abbrev pub full_mode : ℕ → ℕ
full_mode mode =
    let m =
      if not (has mode o_read) && not (has mode o_write) then with_flag mode o_read else mode in
    if has m o_creat || has m o_append then with_flag m o_write else m

-- Some flag of O_AMSK stands in both modes.
abbrev pub shares : ℕ → ℕ → Bool
shares a b =
    (has a o_read && has b o_read)
    || (has a o_write && has b o_write)
    || (has a o_excl && has b o_excl)
    || (has a o_append && has b o_append)

-- What the checks say: an error, or the block to count, the id to store, and the mode.
pub data Checked : Type 0 where
  denied : ℕ → Checked
  granted : Option ℕ → ℕ → ℕ → Checked

-- The check of a block that is a pipe.
pub check_named : Service → ℕ → Fcb → ℕ → Checked
check_named s fid f mode =
    let same : Bool = elim (get_elem? s.pipes.pipe f.storage) [
      | none ↦ false
      | some p ↦ p.fid == fid
    ] in
    if not (f.ftype == type_pipe)
    then granted (some fid) fid mode
    else if leb s.pipes.npipe f.storage || not same
    then denied epipe
    else granted (some fid) f.storage (with_flag mode o_fifo)

pub check_fcb : Service → ℕ → Fcb → ℕ → Checked
check_fcb s fid f mode =
    if is_free f
    then denied enoent
    else if f.excl
    then denied ebusy
    else if not (shares mode f.mode)
        && not ((has mode o_append || has mode o_creat) && has f.mode o_write)
    then denied eacces
    else check_named s fid f mode

pub check_file : Service → ℕ → ℕ → Option Checked
check_file s fid mode =
    if has mode of_mode_tty
    then some (granted none fid mode)
    else if leb s.fcbs.nfcb fid
    then some (denied enoent)
    else elim (get_elem? s.fcbs.fcb fid) [ none ↦ none | some f ↦ some (check_fcb s fid f mode) ]

pub check_pipe : Service → Checked → Checked
check_pipe s (denied e) = denied e
check_pipe s (granted f fid mode) =
    if has mode o_fifo && (fid == minus_one || leb s.pipes.npipe fid)
    then denied epipe
    else granted f fid mode

-- The first place of the list that is not in use.
unfoldable pub free_slot : List OpenFile → Option ℕ
free_slot [] = none
free_slot (of ∷ ofs) =
    let rest = free_slot ofs in
    if of.fid == minus_one then some 0 else elim rest [ none ↦ none | some i ↦ some (suc i) ]

-- The place that is wanted is not in use.
abbrev pub is_wanted : List OpenFile → ℕ → ℕ → Bool
is_wanted ofs n idx =
    not (idx == 0)
    && leb idx n
    && elim (get_elem? ofs (idx - 1)) [ none ↦ false | some of ↦ of.fid == minus_one ]

-- A new place at the end of the list. `fresh` is what it holds, or `none` when there is no memory; the place is
-- none then too.
abbrev pub extend : Taskctx → List OpenFile → Option OpenFile → Taskctx × Option ℕ
extend tc ofs none = (record tc { nopenfiles = tc.nopenfiles + 1; openfiles = none }, none)
extend tc ofs (some of) = (
  record tc { nopenfiles = tc.nopenfiles + 1; openfiles = some (ofs ++ (of ∷ [])) },
  some tc.nopenfiles,
)

-- The place in the list of the context. The list is read at the place that is wanted before it is compared with NULL:
-- the outer `none` is that read without a list.
pub slot : Taskctx → ℕ → Option OpenFile → Option (Taskctx × Option ℕ)
slot tc idx fresh = elim tc.openfiles [
  | none ↦
      if not (idx == 0) && leb idx tc.nopenfiles
      then none
      else some (extend (record tc { nopenfiles = 0 }) [] fresh)
  | some ofs ↦
      if is_wanted ofs tc.nopenfiles idx
      then some (tc, some (idx - 1))
      else elim (free_slot ofs) [ some i ↦ some (tc, some i) | none ↦ some (extend tc ofs fresh) ]
]

-- The open file is written to its place.
pub fill_slot : Taskctx → ℕ → ℕ → ℕ → ℕ → Option Taskctx
fill_slot tc i fid mode offs = elim tc.openfiles [
  | none ↦ none
  | some ofs ↦ elim (get_elem? ofs i) [
    | none ↦ none
    | some of ↦ some (record tc {
      nfiles = tc.nfiles + 1;
      openfiles =
          some (set ofs i (record of { fid = fid; mode = mode; offs = offs; unionidx = 0 }));
    })
  ]
]

-- The block has one more user.
pub count_fcb : Service → Option ℕ → ℕ → Option Service
count_fcb s none mode = some s
count_fcb s (some i) mode = elim (get_elem? s.fcbs.fcb i) [
  | none ↦ none
  | some f ↦ some (
      write_fcb s i (record f {
        nopen = f.nopen + 1;
        excl = if has mode o_excl || has f.mode o_excl then true else f.excl;
      }))
]

-- So has the pipe.
pub count_pipe : Service → ℕ → ℕ → Option Service
count_pipe s fid mode =
    if not (has mode o_fifo) then some s else elim (get_elem? s.pipes.pipe fid) [
      | none ↦ none
      | some p ↦ some (record s {
        pipes = record s.pipes { pipe = set s.pipes.pipe fid (record p { nopen = p.nopen + 1 }) };
      })
    ]

-- What follows the checks. The result is the descriptor.
pub open_slot :
    Service → Taskctx → Option ℕ → ℕ → ℕ → ℕ → ℕ → Option OpenFile → Option (Service × Taskctx × ℕ)
open_slot s tc f fid mode offs idx fresh = slot tc idx fresh >>= λ (tc', place). elim place [
  | none ↦ some (s, tc', 0)
  | some i ↦ do
    tc'' ← fill_slot tc' i fid mode offs
    s1 ← count_fcb s f mode
    s2 ← count_pipe s1 fid mode
    some (s2, tc'', i + 1)
]

-- taskctx_open for a context that is there.
pub taskctx_open :
    Service → Taskctx → ℕ → ℕ → ℕ → ℕ → Option OpenFile → Option (Service × Taskctx × ℕ)
taskctx_open s tc fid mode offs idx fresh = elim (check_file s fid (full_mode mode)) [
  | none ↦ none
  | some c ↦ elim (check_pipe s c) [
    | denied e ↦ some (seterr s e, tc, 0)
    | granted f fid' mode' ↦ open_slot s tc f fid' mode' offs idx fresh
  ]
]
