-- ===== src/Fs/Taskctx/Close/Users.antt =====
-- What taskctx_close does to the open files of a task, and to the block that one of them counts.
use bztsrc_osz.Prelude.{
  ℕ, suc, ◌+◌, ◌-◌, ◌≤◌, ◌<◌, ◌≡◌, ◌≢◌, refl, sym, ap, ◌∙◌, ◌==◌, Bool, true, false, none, some,
  ◌∷◌, if◌then◌else◌, arith, inl, inr, length, get_elem?, set, length-set, get_elem?-set_self,
  lt_of_get, get_elem?-behind, Option-cases, Bool-cases,
}
use bztsrc_osz.Fs.Pipe.{Pipe, Fs, minus_one, released, pipe_del}
use bztsrc_osz.Fs.Pipe.Table.{IsTable}
use bztsrc_osz.Fs.Pipe.Close.{pipe_del-Closed}
use bztsrc_osz.Fs.Fcb.{Fcb, Fcbs, is_free, fcb_del}
use bztsrc_osz.Fs.Fcb.Count.{fcb_del-counted}
use bztsrc_osz.Fs.Taskctx.{
  OpenFile, Taskctx, Service, has, o_write, o_fifo, of_mode_tty, open_file, is_valid,
  taskctx_validfid,
}
use bztsrc_osz.Fs.Taskctx.Open.Slots.{files, IsCounted}
use bztsrc_osz.Fs.Taskctx.Close.Places.{files_list, list_of, free_place-Freed}
use bztsrc_osz.Fs.Taskctx.Close.{close_pipe, close_fcb, free_place, close_at, taskctx_close}

-- taskctx_close gives a descriptor back: it is not valid any more, and the other files of the task stay open.
pub record Closed (s s' : Service) (tc tc' : Taskctx) (idx fid mode : ℕ) (f : Fcb) : Type 0 where
  pub closed : taskctx_validfid s' tc' idx ≡ false
  pub kept :
      (j : ℕ) (of : OpenFile)
      → j ≢ idx - 1
      → of.fid ≢ minus_one
      → get_elem? (files tc) j ≡ some of
      → get_elem? (files tc') j ≡ some of
  pub counted : IsCounted tc'
  pub block : get_elem? s'.fcbs.fcb fid ≡ some (record f { excl = false; nopen = f.nopen - 1 })
  pub flushed : s'.flushed ≡ (if has mode o_write then fid ∷ s.flushed else s.flushed)

-- What a file needs to be closed here: its block is in the table and has other users, and it is neither a pipe nor a
-- terminal.
pub record Closes (s : Service) (tc : Taskctx) (idx : ℕ) (of : OpenFile) (f : Fcb) : Type 0 where
  pub counted : IsCounted tc
  pub number : (0 < idx) × (idx ≤ tc.nopenfiles)
  pub file : open_file tc idx ≡ some of
  pub open_fid : of.fid ≢ minus_one
  pub table : s.fcbs.nfcb ≡ length s.fcbs.fcb
  pub block : get_elem? s.fcbs.fcb of.fid ≡ some f
  pub used : is_free f ≡ false
  pub others : 1 < f.nopen
  pub no_tty : has of.mode of_mode_tty ≡ false
  pub no_fifo : has of.mode o_fifo ≡ false

-- The state behind the block.
abbrev closed_fcb : Service → ℕ → ℕ → Fcb → Service
closed_fcb s fid mode f =
    let g : Fcb = record f { excl = false } in
    record s {
      fcbs = record s.fcbs {
        fcb = set (set s.fcbs.fcb fid g) fid (record g { nopen = g.nopen - 1 });
      };
      flushed = if has mode o_write then fid ∷ s.flushed else s.flushed;
    }

close_fcb-counted :
    (depth : ℕ) (s : Service) (tc : Taskctx) (idx : ℕ) (of : OpenFile) (f : Fcb)
    → Closes s tc idx of f
    → close_fcb (suc depth) s of.fid of.mode ≡ some (closed_fcb s of.fid of.mode f)
unfolding close_fcb
close_fcb-counted depth s tc idx of f c =
    let g : Fcb = record f { excl = false } in
    let h : of.fid < length s.fcbs.fcb = lt_of_get s.fcbs.fcb of.fid f c.block in
    let fs : Fcbs = record s.fcbs { fcb = set s.fcbs.fcb of.fid g } in
    let run : fcb_del (suc depth) fs of.fid
        ≡ some (record fs { fcb = set fs.fcb of.fid (record g { nopen = g.nopen - 1 }) }) =
      fcb_del-counted depth fs of.fid g (omega (arith, h, c.table))
        (get_elem?-set_self s.fcbs.fcb of.fid g h) c.used c.others in
    ground (arith, c.no_tty, c.no_fifo, c.open_fid, c.block, c.table, h, run)

-- The open file of a descriptor in the list.
open_file-files : (tc : Taskctx) (idx : ℕ) → open_file tc idx ≡ get_elem? (files tc) (idx - 1)
open_file-files tc idx = elim (Option-cases tc.openfiles) [
  | inl e ↦ rw e refl
  | inr (l, e) ↦ rw e refl
]

invalid :
    (s : Service) (tc : Taskctx) (idx : ℕ)
    → ((of : OpenFile) → get_elem? (files tc) (idx - 1) ≡ some of → of.fid ≡ minus_one)
    → taskctx_validfid s tc idx ≡ false
unfolding taskctx_validfid
invalid s tc idx h = elim (Option-cases (open_file tc idx)) [
  | inl e ↦ ground (arith, e)
  | inr (of, e) ↦ ground (arith, e, h of (sym (open_file-files tc idx) ∙ e))
]

valid :
    (s : Service) (tc : Taskctx) (idx : ℕ) (of : OpenFile) (f : Fcb)
    → Closes s tc idx of f
    → taskctx_validfid s tc idx ≡ true
unfolding taskctx_validfid is_valid
valid s tc idx of f c =
    let h : of.fid < length s.fcbs.fcb = lt_of_get s.fcbs.fcb of.fid f c.block in
    ground (arith, c.file, c.number, c.open_fid, c.no_fifo, c.no_tty, c.block, c.table, c.used, h)

close_at-run :
    (depth : ℕ) (s s2 : Service) (tc tc' : Taskctx) (i : ℕ) (of : OpenFile) (dontfree ok : Bool)
    → has of.mode o_fifo ≡ false
    → close_fcb depth s of.fid of.mode ≡ some s2
    → free_place tc i of dontfree true ≡ some (tc', true)
    → close_at depth s tc i of dontfree ok true ≡ some (s2, tc', true)
unfolding close_at
close_at-run depth s s2 tc tc' i of dontfree ok fifo run place = ground (arith, fifo, run, place)

-- taskctx_close of an open file whose block has other users, and with memory for the shorter list: it ends and
-- returns true, the descriptor is not valid any more, the other files of the task stay open under their
-- descriptors, the block has one user less and nobody has it alone, and a file that was open for writing was
-- flushed.
pub taskctx_close-Closed :
    (depth : ℕ) (s : Service) (tc : Taskctx) (idx : ℕ) (of : OpenFile) (f : Fcb)
    (dontfree ok : Bool)
    → Closes s tc idx of f
    → (s' : Service) × (tc' : Taskctx) × (taskctx_close (suc depth) s tc idx dontfree ok true
        ≡ some (s', tc', true))
      × Closed s s' tc tc' idx of.fid of.mode f
unfolding taskctx_close
taskctx_close-Closed depth s tc idx of f dontfree ok c =
    let (l, list) = list_of tc idx of c.file in
    let i : ℕ = idx - 1 in
    let bound : i < length l = omega (arith, c.counted l list, c.number) in
    let (tc', place, d) = free_place-Freed l tc i of dontfree list (c.counted l list) bound in
    let s2 : Service = closed_fcb s of.fid of.mode f in
    let run : close_at (suc depth) s tc i of dontfree ok true ≡ some (s2, tc', true) =
      close_at-run (suc depth) s s2 tc tc' i of dontfree ok c.no_fifo
        (close_fcb-counted depth s tc idx of f c) place in
    let g : Fcb = record f { excl = false } in
    let h : of.fid < length (set s.fcbs.fcb of.fid g) =
      omega (arith, length-set s.fcbs.fcb of.fid g, lt_of_get s.fcbs.fcb of.fid f c.block) in
    (
      s2,
      tc',
      ground (arith, valid s tc idx of f c, c.file, run),
      record {
        closed = invalid s2 tc' idx d.free;
        kept = λ j x ne used g.
            d.kept j x ne used (ap (λ k. get_elem? k j) (sym (files_list tc l list)) ∙ g);
        counted = d.counted;
        block =
            get_elem?-set_self (set s.fcbs.fcb of.fid g) of.fid (record g { nopen = g.nopen - 1 })
              h;
        flushed = refl;
      },
    )

-- pipe_del of the last pipe of a table by its last user leaves no element at its place.
pipe_del-last :
    (s : Fs) (idx : ℕ) (p : Pipe)
    → IsTable s
    → idx + 1 ≡ s.npipe
    → get_elem? s.pipe idx ≡ some p
    → p.nopen ≤ 1
    → (s' : Fs) × (pipe_del s idx true ≡ some s') × (get_elem? s'.pipe idx ≡ none)
pipe_del-last s idx p table last at few =
    let (s', run, c) = pipe_del-Closed s idx p table (omega arith) at (omega arith) in
    (
      s',
      run,
      elim (c.gone few) [
        | inl short ↦ get_elem?-behind s'.pipe idx (omega (arith, c.table))
        | inr there ↦
            let size : s'.npipe ≡ suc idx =
              omega (arith, c.shorter, c.table, lt_of_get s'.pipe idx (released p) there) in
            absurd (c.last few idx (released p) size there refl)
      ],
    )

-- The part of taskctx_close for a pipe, when that is the last of the table and has no other user: the table becomes
-- shorter, and the pipe is read behind its end.
pub close_pipe_behind :
    (s : Service) (pid : ℕ) (of : OpenFile) (p : Pipe)
    → IsTable s.pipes
    → of.fid + 1 ≡ s.pipes.npipe
    → get_elem? s.pipes.pipe of.fid ≡ some p
    → p.nopen ≤ 1
    → close_pipe s pid of true ≡ none
unfolding close_pipe
close_pipe_behind s pid of p table last at few = elim (Bool-cases (p.reader == pid)) [
  | inr other ↦
      let (ps, run, behind) = pipe_del-last s.pipes of.fid p table last at few in
      ground (arith, at, other, run, behind)
  | inl own ↦
      let p' : Pipe = record p { reader = 0 } in
      let fs : Fs = record s.pipes { pipe = set s.pipes.pipe of.fid p' } in
      let there : get_elem? fs.pipe of.fid ≡ some p' =
        get_elem?-set_self s.pipes.pipe of.fid p' (lt_of_get s.pipes.pipe of.fid p at) in
      let (ps, run, behind) =
        pipe_del-last fs of.fid p' (table ∙ sym (length-set s.pipes.pipe of.fid p')) last there
          few in
      ground (arith, at, own, run, behind)
]
