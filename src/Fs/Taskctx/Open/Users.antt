-- ===== src/Fs/Taskctx/Open/Users.antt =====
-- What taskctx_open does to the open files of a task, and to the blocks that they count.
use bztsrc_osz.Prelude.{
  ℕ, ◌+◌, ◌-◌, ◌≤◌, ◌<◌, ◌≡◌, ◌≢◌, refl, sym, ap, ◌∙◌, ◌==◌, ◌||◌, true, false, Option, some, List,
  ltb, leb, if◌then◌else◌, arith, length, get_elem?, set, length-set, get_elem?-set_self,
  get_elem?-set_ne, lt_of_get,
}
use bztsrc_osz.Fs.Pipe.{minus_one}
use bztsrc_osz.Fs.Fcb.{Fcb, type_pipe, is_free}
use bztsrc_osz.Fs.Taskctx.{
  OpenFile, Taskctx, Service, seterr, write_fcb, has, o_fifo, of_mode_tty, enoent, o_excl,
  open_file, is_valid, taskctx_validfid,
}
use bztsrc_osz.Fs.Taskctx.Open.Slots.{files, IsCounted, HasList, get_lt, slot-Slot}
use bztsrc_osz.Fs.Taskctx.Open.{
  full_mode, shares, granted, check_named, check_fcb, check_file, check_pipe, slot, fill_slot,
  count_fcb, count_pipe, open_slot, taskctx_open,
}

-- The context with a file at a place of its list.
abbrev with_file : Taskctx → List OpenFile → ℕ → OpenFile → Taskctx
with_file tc ofs i of = record tc { nfiles = tc.nfiles + 1; openfiles = some (set ofs i of) }

-- The block with one more user.
abbrev pub one_more : Fcb → ℕ → Fcb
one_more f mode = record f {
  nopen = f.nopen + 1;
  excl = if has mode o_excl || has f.mode o_excl then true else f.excl;
}

-- A file is open at descriptor `i + 1`, its block has one more user, and the other open files are where they were.
pub record Opened (s s' : Service) (tc tc' : Taskctx) (i fid mode offs : ℕ) (f : Fcb) : Type 0 where
  pub valid : taskctx_validfid s' tc' (i + 1) ≡ true
  pub file :
      (of : OpenFile) × (open_file tc' (i + 1) ≡ some of)
      × (of.fid ≡ fid)
      × (of.mode ≡ mode)
      × (of.offs ≡ offs)
  pub unused : (of : OpenFile) → get_elem? (files tc) i ≡ some of → of.fid ≡ minus_one
  pub kept :
      (j : ℕ) (of : OpenFile)
      → j ≢ i
      → get_elem? (files tc) j ≡ some of
      → get_elem? (files tc') j ≡ some of
  pub counted : IsCounted tc'
  pub block : get_elem? s'.fcbs.fcb fid ≡ some (one_more f mode)

-- What a file needs to be opened in a mode: it is in the table, nobody has it alone, it allows the access, and it is
-- no pipe.
pub record Opens (s : Service) (fid mode : ℕ) (f : Fcb) : Type 0 where
  pub table : s.fcbs.nfcb ≡ length s.fcbs.fcb
  pub block : get_elem? s.fcbs.fcb fid ≡ some f
  pub used : is_free f ≡ false
  pub free : f.excl ≡ false
  pub allowed : shares mode f.mode ≡ true
  pub no_pipe : (f.ftype == type_pipe) ≡ false
  pub no_tty : has mode of_mode_tty ≡ false
  pub no_fifo : has mode o_fifo ≡ false
  pub number : fid ≢ minus_one

checks_pass :
    (s : Service) (fid mode : ℕ) (f : Fcb)
    → Opens s fid mode f
    → (check_file s fid mode ≡ some (granted (some fid) fid mode))
      × (check_pipe s (granted (some fid) fid mode) ≡ granted (some fid) fid mode)
unfolding check_file check_fcb check_named check_pipe
checks_pass s fid mode f o =
    let inside : leb s.fcbs.nfcb fid ≡ false =
      ground (arith, lt_of_get s.fcbs.fcb fid f o.block, o.table) in
    (rw (o.no_tty, inside, o.block, o.used, o.free, o.allowed, o.no_pipe) refl, rw o.no_fifo refl)

fill_slot-there :
    (tc : Taskctx) (ofs : List OpenFile) (i fid mode offs : ℕ) (of : OpenFile)
    → tc.openfiles ≡ some ofs
    → get_elem? ofs i ≡ some of
    → fill_slot tc i fid mode offs
      ≡ some (with_file tc ofs i (record of { fid = fid; mode = mode; offs = offs; unionidx = 0 }))
unfolding fill_slot
fill_slot-there tc ofs i fid mode offs of e at = ground (arith, e, at)

open_slot-run :
    (s : Service) (tc tc' : Taskctx) (ofs : List OpenFile) (i fid mode offs idx : ℕ) (f : Fcb)
    (fresh of : OpenFile)
    → Opens s fid mode f
    → slot tc idx (some fresh) ≡ some (tc', some i)
    → tc'.openfiles ≡ some ofs
    → get_elem? ofs i ≡ some of
    → open_slot s tc (some fid) fid mode offs idx (some fresh)
      ≡ some (
        write_fcb s fid (one_more f mode),
        with_file tc' ofs i (record of { fid = fid; mode = mode; offs = offs; unionidx = 0 }),
        i + 1,
      )
unfolding open_slot count_fcb count_pipe
open_slot-run s tc tc' ofs i fid mode offs idx f fresh of o placed e at =
    ground (arith, placed, fill_slot-there tc' ofs i fid mode offs of e at, o.block, o.no_fifo)

-- The file that was opened is valid.
opened_valid :
    (s : Service) (tc : Taskctx) (ofs : List OpenFile) (i fid mode : ℕ) (f : Fcb) (of : OpenFile)
    → Opens s fid mode f
    → i < length ofs
    → tc.nopenfiles ≡ length ofs
    → of.fid ≡ fid
    → taskctx_validfid (write_fcb s fid (one_more f mode)) (with_file tc ofs i of) (i + 1) ≡ true
unfolding taskctx_validfid is_valid
opened_valid s tc ofs i fid mode f of o h c e =
    let here : get_elem? (set ofs i of) i ≡ some of = get_elem?-set_self ofs i of h in
    let block : get_elem? (set s.fcbs.fcb fid (one_more f mode)) fid ≡ some (one_more f mode) =
      get_elem?-set_self s.fcbs.fcb fid (one_more f mode) (lt_of_get s.fcbs.fcb fid f o.block) in
    let inside : ltb fid s.fcbs.nfcb ≡ true =
      ground (arith, lt_of_get s.fcbs.fcb fid f o.block, o.table) in
    let few : leb (i + 1) tc.nopenfiles ≡ true = ground (arith, h, c) in
    let known : (fid == minus_one) ≡ false = ground (arith, o.number) in
    let back : i + 1 - 1 ≡ i = omega arith in
    ground (arith, few, back, here, e, known, block, inside, o.used)

-- taskctx_open of a file that may be opened in the mode asked for, by a task that counts its places, asks for none of
-- them when it has no list, and has memory for one more: it ends, and the file is open at the descriptor that is
-- returned.
pub taskctx_open-Opened :
    (s : Service) (tc : Taskctx) (fid mode offs idx : ℕ) (f : Fcb) (fresh : OpenFile)
    → Opens s fid (full_mode mode) f
    → IsCounted tc
    → HasList tc idx
    → (s' : Service) × (tc' : Taskctx) × (i : ℕ) × (taskctx_open s tc fid mode offs idx (some fresh)
        ≡ some (s', tc', i + 1))
      × Opened s s' tc tc' i fid (full_mode mode) offs f
unfolding taskctx_open
taskctx_open-Opened s tc fid mode offs idx f fresh o c list =
    let m : ℕ = full_mode mode in
    let (tc1, i, placed, p) = slot-Slot tc idx fresh c list in
    let (of, at) = get_lt p.list i p.bound in
    let of' : OpenFile = record of { fid = fid; mode = m; offs = offs; unionidx = 0 } in
    let run : open_slot s tc (some fid) fid m offs idx (some fresh)
        ≡ some (write_fcb s fid (one_more f m), with_file tc1 p.list i of', i + 1) =
      open_slot-run s tc tc1 p.list i fid m offs idx f fresh of o placed p.there at in
    let (first, second) = checks_pass s fid m f o in
    let back : i + 1 - 1 ≡ i = omega arith in
    (
      write_fcb s fid (one_more f m),
      with_file tc1 p.list i of',
      i,
      ground (arith, first, second, run),
      record {
        valid = opened_valid s tc1 p.list i fid m f of' o p.bound p.counted refl;
        file = (
          of',
          ap (get_elem? (set p.list i of')) back ∙ get_elem?-set_self p.list i of' p.bound,
          refl,
          refl,
          refl,
        );
        unused = p.unused;
        kept = λ j x ne g. get_elem?-set_ne p.list of' (λ z. ne (sym z)) ∙ p.kept j x g;
        counted = λ l e. p.counted ∙ sym (length-set p.list i of') ∙ ground (arith, e);
        block =
            get_elem?-set_self s.fcbs.fcb fid (one_more f m) (lt_of_get s.fcbs.fcb fid f o.block);
      },
    )

-- taskctx_open of a pipe by its own number, which is how a pipe without a name is opened: the number is taken for
-- that of a block, and without such a block the pipe cannot be opened.
pub taskctx_open-pipe :
    (s : Service) (tc : Taskctx) (fid mode offs idx : ℕ) (fresh : Option OpenFile)
    → has (full_mode mode) o_fifo ≡ true
    → has (full_mode mode) of_mode_tty ≡ false
    → s.fcbs.nfcb ≤ fid
    → taskctx_open s tc fid mode offs idx fresh ≡ some (seterr s enoent, tc, 0)
unfolding taskctx_open check_file check_pipe
taskctx_open-pipe s tc fid mode offs idx fresh fifo tty h =
    let outside : leb s.fcbs.nfcb fid ≡ true = ground (arith, h) in ground (arith, tty, outside)
