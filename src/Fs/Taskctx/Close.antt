-- ===== src/Fs/Taskctx/Close.antt =====
-- taskctx_close of src/fs/taskctx.c.
pub mod Places
pub mod Users
use bztsrc_osz.Prelude.{
  ℕ, zero, suc, ◌+◌, ◌-◌, ◌/◌, ◌%◌, ◌==◌, ◌||◌, ◌&&◌, not, Bool, true, false, Option, none, some,
  List, [], ◌∷◌, ◌++◌, ltb, leb, if◌then◌else◌, get_elem?, set, take, sub64, ◌>>=◌,
}
use bztsrc_osz.Fs.Pipe.{Pipe, Fs, minus_one, pipe_del}
use bztsrc_osz.Fs.Fcb.{Fcb, Fcbs}
use bztsrc_osz.Fs.Taskctx.{
  OpenFile, Taskctx, Service, write_fcb, has, o_write, o_fifo, of_mode_tty, open_file,
  taskctx_validfid, del_fcb,
}

abbrev pub set_pipe : Service → ℕ → Pipe → Service
set_pipe s i p = record s { pipes = record s.pipes { pipe = set s.pipes.pipe i p } }

-- The pipe of an open file is released; the second result is the id of its block. The pipe is read again, behind
-- the table when that has become shorter. `ok` says whether a shorter table could be had.
pub close_pipe : Service → ℕ → OpenFile → Bool → Option (Service × ℕ)
close_pipe s pid of ok = elim (get_elem? s.pipes.pipe of.fid) [
  | none ↦ none
  | some p ↦
      let fid = if p.fid == 0 then minus_one else p.fid in
      let s' = if p.reader == pid then set_pipe s of.fid (record p { reader = 0 }) else s in
      elim (pipe_del s'.pipes of.fid ok) [
        | none ↦ none
        | some ps ↦ elim (get_elem? ps.pipe of.fid) [
          | none ↦ none
          | some p' ↦ some (
            record s' { pipes = ps },
            if not (p'.fid == 0) && not (fid == minus_one) then fid else of.fid,
          )
        ]
      ]
]

-- The block of an open file is released.
pub close_fcb : ℕ → Service → ℕ → ℕ → Option Service
close_fcb depth s fid mode =
    if has mode of_mode_tty || (fid == minus_one || leb s.fcbs.nfcb fid)
    then some s
    else elim (get_elem? s.fcbs.fcb fid) [
      | none ↦ none
      | some f ↦
          let s' : Service = record s {
            flushed =
                if has mode o_write && not (has mode o_fifo) then fid ∷ s.flushed else s.flushed;
          } in
          del_fcb depth (write_fcb s' fid (record f { excl = false })) fid
    ]

-- The loop at the end: the number of places without the unused ones at the end.
pub trim_files : List OpenFile → ℕ → ℕ
trim_files ofs zero = 0
trim_files ofs (suc i) =
    let rest = trim_files ofs i in
    elim (get_elem? ofs i) [ none ↦ suc i | some of ↦ if of.fid == minus_one then rest else suc i ]

-- The list becomes shorter. `more` says whether it could be had.
pub shrink : Taskctx → List OpenFile → Bool → Taskctx × Bool
shrink tc ofs more =
    let n = trim_files ofs tc.nopenfiles in
    if n == tc.nopenfiles
    then (tc, true)
    else if n == 0
    then (record tc { nopenfiles = 0; openfiles = none }, true)
    else if more
    then (record tc { nopenfiles = n; openfiles = some (take n ofs) }, true)
    else (record tc { nopenfiles = n; openfiles = none }, false)

-- The place of an open file is free again.
pub free_place : Taskctx → ℕ → OpenFile → Bool → Bool → Option (Taskctx × Bool)
free_place tc i of dontfree more = elim tc.openfiles [
  | none ↦ none
  | some ofs ↦
      let ofs' = set ofs i (record of { fid = minus_one }) in
      let tc' : Taskctx = record tc { nfiles = sub64 tc.nfiles 1; openfiles = some ofs' } in
      some (if dontfree then (tc', true) else shrink tc' ofs' more)
]

pub close_at :
    ℕ → Service → Taskctx → ℕ → OpenFile → Bool → Bool → Bool → Option (Service × Taskctx × Bool)
close_at depth s tc i of dontfree ok more = do
  (s1, fid) ← if has of.mode o_fifo then close_pipe s tc.pid of ok else some (s, of.fid)
  s2 ← close_fcb depth s1 fid of.mode
  (tc', r) ← free_place tc i of dontfree more
  some (s2, tc', r)

-- taskctx_close
pub taskctx_close :
    ℕ → Service → Taskctx → ℕ → Bool → Bool → Bool → Option (Service × Taskctx × Bool)
taskctx_close depth s tc idx dontfree ok more =
    if not (taskctx_validfid s tc idx) then some (s, tc, false) else elim (open_file tc idx) [
      | none ↦ none
      | some of ↦ close_at depth s tc (idx - 1) of dontfree ok more
    ]
