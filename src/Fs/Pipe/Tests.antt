-- ===== src/Fs/Pipe/Tests.antt =====
-- Runs of the pipes, and the theorems on them at concrete tables.
use mathlib.Core.Option.{some-injective}
use bztsrc_osz.Prelude.{
  ℕ, zero, suc, ◌≤◌, ◌≡◌, refl, ◌==◌, inl, true, false, Bool, Option, none, some, List, [], ◌∷◌,
  ◌++◌, if◌then◌else◌, length, take, set, arith, ap,
}
use bztsrc_osz.Fs.Pipe.{
  Pipe, Ctx, Fs, Effect, copied, acked, pipe_read, pipe_write, write_direct, ack, blocked_reader,
  find_ctx, write_to, write_buffered, read_from, settle, take_out,
}
use bztsrc_osz.Fs.Pipe.Stream.{content, IsValid, Taken, pipe_read-Taken}
use bztsrc_osz.Fs.Pipe.Write.{IsRealloc, pipe_write-content}
use bztsrc_osz.Fs.Pipe.Wakeup.{Delivered, pipe_write-Delivered}

-- A realloc that never fails, and fills new memory with 255.
abbrev resize : List ℕ → ℕ → List ℕ
resize xs zero = []
resize [] (suc n) = 255 ∷ resize [] n
resize (x ∷ xs) (suc n) = x ∷ resize xs n

abbrev old_bytes : Option (List ℕ) → List ℕ
old_bytes none = []
old_bytes (some d) = d

abbrev realloc : Option (List ℕ) → ℕ → Option (List ℕ)
realloc o n = some (resize (old_bytes o) n)

length-resize : (xs : List ℕ) (n : ℕ) → length (resize xs n) ≡ n
length-resize xs zero = refl
length-resize [] (suc n) = ap suc (length-resize [] n)
length-resize (x ∷ xs) (suc n) = ap suc (length-resize xs n)

take-resize : (xs : List ℕ) (n : ℕ) → length xs ≤ n → take (length xs) (resize xs n) ≡ xs
take-resize [] n h = refl
take-resize (x ∷ xs) zero h = absurd (omega arith)
take-resize (x ∷ xs) (suc n) h = ap (λ ys. x ∷ ys) (take-resize xs n (omega arith))

realloc-IsRealloc : IsRealloc realloc
realloc-IsRealloc = record {
  sized = λ o n r e. rw (← some-injective _ _ e) (length-resize (old_bytes o) n);
  keeps = λ d n r h e. rw (← some-injective _ _ e) (take-resize d n h);
}

abbrev empty_pipe : Pipe
empty_pipe = record {
  reader = 0;
  fid = 9;
  nopen = 1;
  rd = 0;
  size = 0;
  buffer = none;
  owner = 1;
  rdtime = 0;
  wrtime = 0;
}

-- Three bytes wait, and one was read before.
abbrev filled_pipe : Pipe
filled_pipe = record empty_pipe {
  nopen = 2;
  rd = 1;
  size = 4;
  buffer = some (10 ∷ 11 ∷ 12 ∷ 13 ∷ []);
}

-- Task 5 waits for two bytes.
abbrev waiting_pipe : Pipe
waiting_pipe = record empty_pipe { reader = 5 }

abbrev reader : Ctx
reader = record { pid = 5; evt = 18; ptr = 4096; size = 2; serial = 77 }

abbrev table : Fs
table = record {
  npipe = 3;
  pipe = empty_pipe ∷ filled_pipe ∷ waiting_pipe ∷ [];
  taskctx = λ b. if b == 5 then reader ∷ [] else [];
  errno = 0;
  now = 60;
  ackdelayed = false;
  effects = [];
}

filled_pipe-IsValid : IsValid filled_pipe
filled_pipe-IsValid = record {
  filled = λ d e. rw (← some-injective _ _ e) (refl, omega arith, omega arith);
  empty = λ e. cc;
}

waiting_pipe-IsValid : IsValid waiting_pipe
waiting_pipe-IsValid = record { filled = λ d e. cc; empty = λ e. (refl, inl refl) }

abbrev effects_of : Option (Bool × Fs) → List Effect
effects_of (some (b, s)) = s.effects
effects_of none = []

-- Two bytes go straight to the reader; of three, one stays in the buffer.
served :
    effects_of (pipe_write realloc table 2 (1 ∷ 2 ∷ []))
    ≡ acked 5 0 77 ∷ copied 5 4096 (1 ∷ 2 ∷ []) ∷ []
unfolding pipe_write write_to blocked_reader find_ctx write_direct ack
served = refl

served_through :
    effects_of (pipe_write realloc table 2 (1 ∷ 2 ∷ 3 ∷ []))
    ≡ acked 5 0 77 ∷ copied 5 4096 (1 ∷ 2 ∷ []) ∷ []
unfolding pipe_write write_to blocked_reader find_ctx write_buffered pipe_read ack read_from settle
    take_out
served_through = refl

pipe_read-Taken_example :
    (k : ℕ) × (s' : Fs) × (pipe_read table 1 4096 2 6 ≡ some (k, s'))
    × Taken table 1 filled_pipe 4096 2 6 k s'
pipe_read-Taken_example =
    pipe_read-Taken table 1 filled_pipe 4096 2 6 (omega arith) refl filled_pipe-IsValid (inl refl)
      (omega arith)

pipe_write-content_example :
    (after : Pipe) × (pipe_write realloc table 1 (14 ∷ [])
      ≡ some (true, record table { pipe = set table.pipe 1 after }))
    × (content after ≡ content filled_pipe ++ (14 ∷ []))
    × IsValid after
    × (after ≡ record filled_pipe { buffer = after.buffer; size = after.size; wrtime = table.now })
unfolding blocked_reader
pipe_write-content_example =
    pipe_write-content realloc realloc-IsRealloc table 1 filled_pipe (14 ∷ []) _ (omega arith) refl
      filled_pipe-IsValid refl (omega arith) (omega arith) refl

pipe_write-Delivered_example :
    (s' : Fs) × (pipe_write realloc table 2 (1 ∷ 2 ∷ 3 ∷ []) ≡ some (true, s'))
    × Delivered table 2 waiting_pipe reader (1 ∷ 2 ∷ 3 ∷ []) s'
unfolding blocked_reader find_ctx
pipe_write-Delivered_example =
    pipe_write-Delivered realloc realloc-IsRealloc table 2 waiting_pipe reader (1 ∷ 2 ∷ 3 ∷ []) _
      (omega arith) refl waiting_pipe-IsValid refl (omega arith) (omega arith) (omega arith) refl
