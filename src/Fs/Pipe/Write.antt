-- ===== src/Fs/Pipe/Write.antt =====
-- A write to a pipe: the buffer grows, or a reader that waits is served.
use mathlib.Core.Path.{subst}
use mathlib.Core.Option.{some-injective}
use bztsrc_osz.Prelude.{
  ℕ, ◌+◌, ◌%◌, ◌≤◌, ◌<◌, ◌≡◌, ◌≢◌, refl, ap, ◌∙◌, inl, inr, ◌==◌, true, Option, none, some, List,
  [], ◌∷◌, ◌++◌, if◌then◌else◌, add64, length, get_elem?, set, take, arith, Option-cases, drop_all,
  drop-append, length-append,
}
use bztsrc_osz.Fs.Pipe.{
  Pipe, Ctx, Fs, minus_one, find_ctx, blocked_reader, splice, write_buffered, write_to, pipe_write,
}
use bztsrc_osz.Fs.Pipe.Stream.{content, IsValid}

-- What is asked of the memory functions: realloc returns a block of the size asked for, which begins
-- with what the old block held.
pub record IsRealloc (realloc : Option (List ℕ) → ℕ → Option (List ℕ)) : Type 0 where
  pub sized : (o : Option (List ℕ)) (n : ℕ) (r : List ℕ) → realloc o n ≡ some r → length r ≡ n
  pub keeps :
      (d : List ℕ) (n : ℕ) (r : List ℕ)
      → length d ≤ n
      → realloc (some d) n ≡ some r
      → take (length d) r ≡ d

append_nil : (xs : List ℕ) → xs ++ [] ≡ xs
append_nil [] = refl
append_nil (x ∷ xs) = ap (λ ys. x ∷ ys) (append_nil xs)

-- A block that holds the old buffer in front and ends with the bytes.
splice_grown :
    (d r bytes : List ℕ) (k : ℕ)
    → take k r ≡ d
    → length r ≡ k + length bytes
    → splice r k bytes ≡ d ++ bytes
splice_grown d r bytes k e l =
    rw (e, drop_all (k + length bytes) r (omega (arith, l)), append_nil bytes) refl

-- The number of bytes in the buffer: none behind a direct copy.
abbrev pub stored_size : Pipe → ℕ
stored_size p = if p.size == minus_one then 0 else p.size

-- The pipe once the bytes are in the buffer.
abbrev pub grown : Pipe → List ℕ → List ℕ → Pipe
grown p bytes r = record p {
  buffer = some (splice r (stored_size p) bytes);
  size = add64 (stored_size p) (length bytes);
}

module _ (realloc : Option (List ℕ) → ℕ → Option (List ℕ)) (memory : IsRealloc realloc) (p : Pipe)
    (bytes r : List ℕ) (v : IsValid p) (some_bytes : 0 < length bytes)
    (room : stored_size p + length bytes < minus_one)
    (got : realloc p.buffer (add64 (stored_size p) (length bytes)) ≡ some r) where
  new_size : add64 (stored_size p) (length bytes) ≡ stored_size p + length bytes
  new_size = omega (arith, room)

  -- The buffer is what was in it, and the bytes.
  grown_bytes :
      ((d : List ℕ) → p.buffer ≡ some d → splice r (stored_size p) bytes ≡ d ++ bytes)
      × (p.buffer ≡ none → splice r (stored_size p) bytes ≡ bytes)
  grown_bytes =
      let l : length r ≡ stored_size p + length bytes = memory.sized p.buffer _ r got ∙ new_size in
      (
        λ d e.
            (let f = v.filled d e in
              let k : stored_size p ≡ length d = ground (arith, f) in
              splice_grown d r bytes (stored_size p)
                (rw k (
                  memory.keeps d (add64 (stored_size p) (length bytes)) r
                    (omega (arith, k, new_size))
                    (subst (λ o. realloc o (add64 (stored_size p) (length bytes)) ≡ some r) e got)))
                l),
        λ e.
            (let k : stored_size p ≡ 0 = ground (arith, v.empty e) in
              rw k (splice_grown [] r bytes 0 refl (rw (← k) l))),
      )

  pub grown-content : content (grown p bytes r) ≡ content p ++ bytes
  grown-content = elim (Option-cases p.buffer) [
    | inl e ↦
        (let k : p.rd ≡ 0 = ground (arith, v.empty e) in
          rw (grown_bytes.1 e, k) (ground (arith, e)))
    | inr (d, e) ↦
        (let f : (length d ≡ p.size) × (p.rd < p.size) × (p.size < minus_one) = v.filled d e in
          rw (grown_bytes.0 d e) (drop-append p.rd d bytes (omega (arith, f)) ∙ ground (arith, e)))
  ]

  grown_bounds :
      (length (splice r (stored_size p) bytes) ≡ stored_size p + length bytes)
      × (p.rd < stored_size p + length bytes)
  grown_bounds = elim (Option-cases p.buffer) [
    | inl e ↦
        (let k : stored_size p ≡ 0 = ground (arith, v.empty e) in
          (rw (grown_bytes.1 e) (omega (arith, k)), omega (arith, some_bytes, v.empty e)))
    | inr (d, e) ↦
        (let f : (length d ≡ p.size) × (p.rd < p.size) × (p.size < minus_one) = v.filled d e in
          let k : stored_size p ≡ length d = ground (arith, f) in
          (rw (grown_bytes.0 d e) (omega (arith, k, length-append d bytes)), omega (arith, k, f)))
  ]

  pub grown-IsValid : IsValid (grown p bytes r)
  grown-IsValid = record {
    filled = λ x ex.
        rw (← some-injective _ _ ex, new_size)
          (grown_bounds.0, grown_bounds.1, omega (arith, room));
    empty = λ none_left. cc;
  }

-- Who is suspended in a read of the pipe is its reader.
find_ctx-pid : (cs : List Ctx) (pid : ℕ) (c : Ctx) → find_ctx cs pid ≡ some c → c.pid ≡ pid
unfolding find_ctx
find_ctx-pid [] pid c e = cc
find_ctx-pid (x ∷ cs) pid c e = ground (arith, find_ctx-pid cs pid c)

pub blocked_reader-pid :
    (s : Fs) (r : ℕ) (c : Ctx) → blocked_reader s r ≡ some c → (c.pid ≡ r) × (r ≢ 0)
unfolding blocked_reader
blocked_reader-pid s r c e = ground (arith, find_ctx-pid (s.taskctx (r % 256)) r c)

-- The pipe with the time of the write.
abbrev pub timed : Fs → Pipe → Pipe
timed s p = record p { wrtime = s.now }

pub timed-IsValid : (s : Fs) (p : Pipe) → IsValid p → IsValid (timed s p)
timed-IsValid s p v = record { filled = v.filled; empty = v.empty }

module _ (realloc : Option (List ℕ) → ℕ → Option (List ℕ)) (memory : IsRealloc realloc) where
  -- When nobody waits, a write of at least one byte to a valid pipe of the table that gets its memory appends the
  -- bytes to those that wait in the pipe, which stays valid. Of the pipe, only the buffer, its size and the time of
  -- the write change, and nothing else changes in the service. The buffer stays below 2 ^ 32 - 1 bytes.
  pub pipe_write-content :
      (s : Fs) (idx : ℕ) (p : Pipe) (bytes r : List ℕ)
      → idx < s.npipe
      → get_elem? s.pipe idx ≡ some p
      → IsValid p
      → blocked_reader s p.reader ≡ none
      → 0 < length bytes
      → stored_size p + length bytes < minus_one
      → realloc p.buffer (add64 (stored_size p) (length bytes)) ≡ some r
      → (after : Pipe) × (pipe_write realloc s idx bytes
          ≡ some (true, record s { pipe = set s.pipe idx after }))
        × (content after ≡ content p ++ bytes)
        × IsValid after
        × (after ≡ record p { buffer = after.buffer; size = after.size; wrtime = s.now })
  unfolding pipe_write write_to write_buffered
  pipe_write-content s idx p bytes r lo at v alone some_bytes room got =
      let v' : IsValid (timed s p) = timed-IsValid s p v in
      (
        grown (timed s p) bytes r,
        ground (arith, at, alone, got),
        grown-content realloc memory (timed s p) bytes r v' some_bytes room got,
        grown-IsValid realloc memory (timed s p) bytes r v' some_bytes room got,
        refl,
      )
