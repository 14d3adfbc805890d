-- ===== src/Fs/Taskctx.antt =====
-- Task contexts of the file system service, src/fs/taskctx.c: the directories and the open files of a task. A read
-- of memory that is not there is `none`. fcb_flush, which writes out the buffers of a file, is recorded by the
-- number of the file. Counters are taken not to wrap around.
pub mod Open
pub mod Close
pub mod Tests
use bztsrc_osz.Prelude.{
  ℕ, zero, suc, ◌+◌, ◌-◌, ◌/◌, ◌%◌, ◌^◌, ◌==◌, ◌||◌, ◌&&◌, not, Bool, true, false, Option, none,
  some, List, [], ◌∷◌, ◌++◌, ltb, leb, if◌then◌else◌, length, get_elem?, set, take, erase_idx,
  add64, ◌>>=◌,
}
use bztsrc_osz.Fs.Pipe.{Pipe, Fs, minus_one, eacces, epipe, pipe_del}
use bztsrc_osz.Fs.Fcb.{Fcb, Fcbs, reg_file, type_pipe, is_free, fcb_del}

abbrev pub ebusy : ℕ
ebusy = 6

abbrev pub einval : ℕ
einval = 5

abbrev pub enoent : ℕ
enoent = 12

abbrev pub espipe : ℕ
espipe = 25

abbrev pub ebadf : ℕ
ebadf = 27

-- O_* and OF_MODE_TTY
abbrev pub o_read : ℕ
o_read = 1

abbrev pub o_write : ℕ
o_write = 2

abbrev pub o_excl : ℕ
o_excl = 4

abbrev pub o_append : ℕ
o_append = 8

abbrev pub o_creat : ℕ
o_creat = 16

abbrev pub o_fifo : ℕ
o_fifo = 512

abbrev pub of_mode_tty : ℕ
of_mode_tty = 16384

-- A flag is a power of two.
abbrev pub has : ℕ → ℕ → Bool
has mode flag = ((mode / flag) % 2) == 1

abbrev pub with_flag : ℕ → ℕ → ℕ
with_flag mode flag = if has mode flag then mode else mode + flag

abbrev pub seek_cur : ℕ
seek_cur = 1

abbrev pub seek_end : ℕ
seek_end = 2

-- openfiles_t
pub record OpenFile : Type 0 where
  pub fid : ℕ
  pub mode : ℕ
  pub offs : ℕ
  pub unionidx : ℕ
  pub trid : ℕ

-- taskctx_t without the suspended message, which Fs.Pipe has. `openfiles` is `none` for the null pointer.
pub record Taskctx : Type 0 where
  pub pid : ℕ
  pub rootdir : ℕ
  pub workdir : ℕ
  pub workoffs : ℕ
  pub workleft : ℕ
  pub nopenfiles : ℕ
  pub nfiles : ℕ
  pub openfiles : Option (List OpenFile)

-- The state of the service that contexts use. A chain of contexts stands under the last byte of their pids.
pub record Service : Type 0 where
  pub fcbs : Fcbs
  pub pipes : Fs
  pub chain : ℕ → List Taskctx
  pub ntaskctx : ℕ
  pub flushed : List ℕ

abbrev pub seterr : Service → ℕ → Service
seterr s e = record s { pipes = record s.pipes { errno = e } }

abbrev pub write_fcb : Service → ℕ → Fcb → Service
write_fcb s i f = record s { fcbs = record s.fcbs { fcb = set s.fcbs.fcb i f } }

abbrev pub write_chain : Service → ℕ → List Taskctx → Service
write_chain s i c = record s { chain = λ j. if j == i then c else s.chain j }

-- The open file of a descriptor, which counts from 1.
abbrev pub open_file : Taskctx → ℕ → Option OpenFile
open_file tc idx = elim tc.openfiles [ none ↦ none | some ofs ↦ get_elem? ofs (idx - 1) ]

-- An open file is a pipe in use, a terminal, or a file.
pub is_valid : Service → OpenFile → Bool
is_valid s of =
    (has of.mode o_fifo
      && ltb of.fid s.pipes.npipe
      && elim (get_elem? s.pipes.pipe of.fid) [ none ↦ false | some p ↦ ltb 0 p.nopen ])
    || (has of.mode of_mode_tty
        || (ltb of.fid s.fcbs.nfcb
            && elim (get_elem? s.fcbs.fcb of.fid) [ none ↦ false | some f ↦ not (is_free f) ]))

-- taskctx_validfid
pub taskctx_validfid : Service → Taskctx → ℕ → Bool
taskctx_validfid s tc idx = ltb 0 idx && leb idx tc.nopenfiles && elim (open_file tc idx) [
  | none ↦ false
  | some of ↦ not (of.fid == minus_one) && is_valid s of
]

-- The chain from the context of a task on.
pub find_task : List Taskctx → ℕ → Option Taskctx
find_task [] pid = none
find_task (t ∷ ts) pid = let rest = find_task ts pid in if t.pid == pid then some t else rest

-- taskctx_get. `fresh` is what a new context holds, with the chain that its field `next` leads to, or `none` when
-- there is no memory.
pub taskctx_get : Service → ℕ → Option (Taskctx × List Taskctx) → Option (Service × Option Taskctx)
taskctx_get s pid fresh =
    let i = pid % 256 in
    if pid == 0 then some (s, none) else elim (find_task (s.chain i) pid) [
      | some t ↦ some (s, some t)
      | none ↦ elim fresh [
        | none ↦ some (s, none)
        | some (t, next) ↦
            let t' : Taskctx = record t { pid = pid } in
            elim (get_elem? s.fcbs.fcb 0) [
              | none ↦ none
              | some f ↦ some (
                record (write_fcb (write_chain s i (t' ∷ next)) 0
                    (record f { nopen = f.nopen + 2 })) { ntaskctx = s.ntaskctx + 1 },
                some t',
              )
            ]
      ]
    ]

-- The loop of taskctx_del: the place in the chain of the task, or the last place.
pub place_of : List Taskctx → ℕ → ℕ
place_of [] pid = 0
place_of (t ∷ []) pid = 0
place_of (t ∷ u ∷ ts) pid = let rest = place_of (u ∷ ts) pid in if t.pid == pid then 0 else suc rest

abbrev pub del_fcb : ℕ → Service → ℕ → Option Service
del_fcb depth s fid = elim (fcb_del depth s.fcbs fid) [
  | none ↦ none
  | some fs ↦ some (record s { fcbs = fs })
]

-- The files of a context are released.
pub del_files : ℕ → Service → List OpenFile → Option Service
del_files depth s [] = some s
del_files depth s (of ∷ ofs) = elim (del_fcb depth s of.fid) [
  | none ↦ none
  | some s' ↦ del_files depth s' ofs
]

-- What taskctx_del releases with a context.
pub release : ℕ → Service → Taskctx → Option Service
release depth s t = do
  s1 ← del_fcb depth s t.workdir
  s2 ← del_fcb depth s1 t.rootdir
  elim t.openfiles [ none ↦ some s2 | some ofs ↦ del_files depth s2 (take t.nopenfiles ofs) ]

pub taskctx_del : ℕ → Service → ℕ → Option Service
taskctx_del depth s pid =
    let i = pid % 256 in
    let k = place_of (s.chain i) pid in
    elim (get_elem? (s.chain i) k) [
      | none ↦ some s
      | some t ↦
          release depth
            (record (write_chain s i (erase_idx (s.chain i) k)) { ntaskctx = s.ntaskctx - 1 }) t
    ]

-- The new user of a directory, in taskctx_rootdir and taskctx_workdir.
pub use_dir : Service → ℕ → Option Service
use_dir s fid = elim (get_elem? s.fcbs.fcb fid) [
  | none ↦ none
  | some f ↦ some (write_fcb s fid (record f { nopen = f.nopen + 1 }))
]

-- The block may become a directory of a task.
abbrev pub is_dir : Service → ℕ → Bool
is_dir s fid =
    ltb fid s.fcbs.nfcb
    && elim (get_elem? s.fcbs.fcb fid) [ none ↦ false | some f ↦ not (is_free f) ]

pub taskctx_rootdir : ℕ → Service → Taskctx → ℕ → Option (Service × Taskctx)
taskctx_rootdir depth s tc fid = if not (is_dir s fid) then some (s, tc) else do
  s1 ← del_fcb depth s tc.rootdir
  s2 ← use_dir s1 fid
  some (s2, record tc { rootdir = fid })

pub taskctx_workdir : ℕ → Service → Taskctx → ℕ → Option (Service × Taskctx)
taskctx_workdir depth s tc fid = if not (is_dir s fid) then some (s, tc) else do
  s1 ← del_fcb depth s tc.workdir
  s2 ← use_dir s1 fid
  some (s2, record tc { workdir = fid })

-- taskctx_seek by an offset in two's complement.
pub taskctx_seek : Service → Taskctx → ℕ → ℕ → ℕ → Option (Service × Taskctx × Bool)
taskctx_seek s tc idx offs whence =
    let write : OpenFile → Taskctx = λ of. record tc {
      openfiles = elim tc.openfiles [ none ↦ none | some ofs ↦ some (set ofs (idx - 1) of) ];
    } in
    let moved : OpenFile → ℕ → Service × Taskctx × Bool = λ of size.
      (let to =
          if whence == seek_cur
          then add64 of.offs offs
          else if whence == seek_end
          then add64 size offs
          else offs in
        if leb (2 ^ 63) to
        then (seterr s einval, write (record of { offs = 0 }), false)
        else (s, write (record of { offs = to }), true)) in
    if not (taskctx_validfid s tc idx)
    then some (seterr s ebadf, tc, false)
    else elim (open_file tc idx) [
      | none ↦ none
      | some of ↦
          if has of.mode of_mode_tty || has of.mode o_fifo
          then some (seterr s espipe, tc, false)
          else elim (get_elem? s.fcbs.fcb of.fid) [
            | none ↦ none
            | some f ↦
                if not (f.ftype == reg_file)
                then some (seterr s espipe, tc, false)
                else if has of.mode o_append
                then some (seterr s eacces, tc, false)
                else some (moved of f.filesize)
          ]
    ]
