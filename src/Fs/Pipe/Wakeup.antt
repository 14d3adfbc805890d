-- ===== src/Fs/Pipe/Wakeup.antt =====
-- A write to a pipe whose reader is suspended: the bytes go straight to the reader, or through the
-- buffer, and the reader is answered.
use Prim.Native.Nat.{min}
use bztsrc_osz.Prelude.{
  ℕ, zero, suc, ◌+◌, ◌^◌, ◌≤◌, ◌<◌, ◌≡◌, ◌≢◌, refl, sym, ap, ◌∙◌, inl, inr, ◌&&◌, true, Option,
  none, some, List, [], ◌∷◌, ◌++◌, leb, add64, length, get_elem?, set, take, drop, arith,
  Bool-cases, drop_all, take_all, length-append, get_elem?-set_self, lt_of_get,
}
use bztsrc_osz.Fs.Pipe.{
  Pipe, Ctx, acked, Fs, minus_one, blocked_reader, ack, is_fresh, copy_to, write_direct,
  write_buffered, write_to, pipe_write,
}
use bztsrc_osz.Fs.Pipe.Stream.{content, IsValid, Taken, pipe_read-Taken}
use bztsrc_osz.Fs.Pipe.Write.{
  IsRealloc, stored_size, grown, grown-content, grown-IsValid, blocked_reader-pid, timed,
  timed-IsValid,
}

set-set : (xs : List Pipe) (i : ℕ) (v w : Pipe) → set (set xs i v) i w ≡ set xs i w
set-set [] i v w = refl
set-set (x ∷ xs) zero v w = refl
set-set (x ∷ xs) (suc i) v w = ap (λ ys. x ∷ ys) (set-set xs i v w)

-- The suspended reader `c` gets as many of the bytes that waited and of the new ones as it asked for,
-- and an answer; the others wait in the pipe.
pub record Delivered (s : Fs) (idx : ℕ) (p : Pipe) (c : Ctx) (bytes : List ℕ) (s' : Fs)
    : Type 0 where
  pub count : ℕ
  pub count_lem : count ≡ min c.size (length (content p ++ bytes))
  pub effects :
      s'.effects
      ≡ acked c.pid s.errno c.serial
        ∷ copy_to c.pid c.ptr (take count (content p ++ bytes))
        ∷ s.effects
  pub after : Pipe
  pub table : s'.pipe ≡ set s.pipe idx after
  pub rest : content after ≡ drop count (content p ++ bytes)
  pub valid : IsValid after

module _ (s : Fs) (idx : ℕ) (p : Pipe) (c : Ctx) (bytes : List ℕ) (v : IsValid p)
    (some_bytes : 0 < length bytes) where
  direct-Delivered :
      c.pid ≡ p.reader
      → length bytes ≤ c.size
      → is_fresh p ≡ true
      → Delivered s idx p c bytes (write_direct s idx (timed s p) c bytes)
  unfolding write_direct ack
  direct-Delivered same fits fresh =
      let e : p.buffer ≡ none = ground arith in
      let nothing : content p ≡ [] = ground (arith, e) in
      record {
        count = length bytes;
        count_lem = rw nothing (omega arith);
        effects = rw (nothing, take_all (length bytes) bytes (omega arith), same) refl;
        after = record (timed s p) { size = minus_one };
        table = refl;
        rest = rw (nothing, drop_all (length bytes) bytes (omega arith)) refl;
        valid = record { filled = λ x ex. cc; empty = λ gone. ((v.empty e).0, inr refl) };
      }

  -- The state with the bytes in the buffer.
  abbrev buffered : List ℕ → Fs
  buffered r = record s { pipe = set s.pipe idx (grown (timed s p) bytes r) }

  ack-Delivered :
      (r : List ℕ) (k : ℕ) (s' : Fs)
      → content (grown (timed s p) bytes r) ≡ content p ++ bytes
      → Taken (buffered r) idx (grown (timed s p) bytes r) c.ptr c.size c.pid k s'
      → Delivered s idx p c bytes (ack s' c)
  unfolding ack
  ack-Delivered r k s' all t =
      let some_left : content (grown (timed s p) bytes r) ≢ [] =
        λ e. absurd (omega (arith, length-append (content p) bytes, ap length (sym all ∙ e))) in
      record {
        count = k;
        count_lem = t.count ∙ ap (λ xs. min c.size (length xs)) all;
        effects = rw (t.same_errno, (t.served some_left).0, all) refl;
        after = t.after;
        table = t.table ∙ set-set s.pipe idx (grown (timed s p) bytes r) t.after;
        rest = t.rest ∙ ap (drop k) all;
        valid = t.valid;
      }

module _ (realloc : Option (List ℕ) → ℕ → Option (List ℕ)) (memory : IsRealloc realloc) where
  buffered-Delivered :
      (s : Fs) (idx : ℕ) (p : Pipe) (c : Ctx) (bytes r : List ℕ)
      → idx < s.npipe
      → get_elem? s.pipe idx ≡ some p
      → IsValid p
      → c.pid ≡ p.reader
      → c.size < 2 ^ 63
      → 0 < length bytes
      → stored_size p + length bytes < minus_one
      → realloc p.buffer (add64 (stored_size p) (length bytes)) ≡ some r
      → (s' : Fs) × (write_buffered realloc s idx (timed s p) (some c) bytes ≡ some (true, s'))
        × Delivered s idx p c bytes s'
  unfolding write_buffered
  buffered-Delivered s idx p c bytes r lo at v same small some_bytes room got =
      let v' : IsValid (timed s p) = timed-IsValid s p v in
      let g : Pipe = grown (timed s p) bytes r in
      let all : content g ≡ content p ++ bytes =
        grown-content realloc memory (timed s p) bytes r v' some_bytes room got in
      let found : get_elem? (set s.pipe idx g) idx ≡ some g =
        get_elem?-set_self s.pipe idx g (lt_of_get s.pipe idx p at) in
      let (k, s', run, t) =
        pipe_read-Taken (buffered s idx p c bytes v some_bytes r) idx g c.ptr c.size c.pid lo found
          (grown-IsValid realloc memory (timed s p) bytes r v' some_bytes room got) (inr (sym same))
          small in
      (ack s' c, ground (arith, got, run), ack-Delivered s idx p c bytes v some_bytes r k s' all t)

  -- When the reader of a valid pipe is suspended in a read of less than 2 ^ 63 bytes, a write of at least one byte
  -- that gets the memory it may need serves the reader with the bytes that waited and the new ones, in order,
  -- up to as many as it asked for, keeps the others, and answers the reader. It does so with the buffer as
  -- without it. The buffer stays below 2 ^ 32 - 1 bytes.
  pub pipe_write-Delivered :
      (s : Fs) (idx : ℕ) (p : Pipe) (c : Ctx) (bytes r : List ℕ)
      → idx < s.npipe
      → get_elem? s.pipe idx ≡ some p
      → IsValid p
      → blocked_reader s p.reader ≡ some c
      → c.size < 2 ^ 63
      → 0 < length bytes
      → stored_size p + length bytes < minus_one
      → realloc p.buffer (add64 (stored_size p) (length bytes)) ≡ some r
      → (s' : Fs) × (pipe_write realloc s idx bytes ≡ some (true, s'))
        × Delivered s idx p c bytes s'
  unfolding pipe_write write_to
  pipe_write-Delivered s idx p c bytes r lo at v waits small some_bytes room got =
      let same : c.pid ≡ p.reader = (blocked_reader-pid s p.reader c waits).0 in
      elim (Bool-cases (leb (length bytes) c.size && is_fresh p)) [
        | inl straight ↦ (
          write_direct s idx (timed s p) c bytes,
          ground (arith, at, waits, straight),
          direct-Delivered s idx p c bytes v some_bytes same (ground arith) (ground arith),
        )
        | inr through ↦
            let (s', run, d) =
              buffered-Delivered s idx p c bytes r lo at v same small some_bytes room got in
            (s', ground (arith, at, waits, through, run), d)
      ]
