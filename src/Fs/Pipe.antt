-- ===== src/Fs/Pipe.antt =====
-- Pipes of the file system service, src/fs/pipe.c. A read of freed or missing memory is `none`. The
-- memory functions are parameters: `realloc` for the buffer of a pipe, and for the table of pipes the
-- outcome of its reallocation. What leaves the service, copied bytes and acknowledgements, is a log.
pub mod Stream
pub mod Write
pub mod Wakeup
pub mod Table
pub mod Close
pub mod Tests
use bztsrc_osz.Prelude.{
  ℕ, zero, suc, ◌+◌, ◌%◌, ◌^◌, ◌==◌, ◌&&◌, not, Bool, true, false, Option, none, some, List, [],
  ◌∷◌, ◌++◌, ltb, leb, if◌then◌else◌, add64, sub64, length, get_elem?, set, take, drop,
}

abbrev pub eacces : ℕ
eacces = 7

abbrev pub epipe : ℕ
epipe = 24

abbrev pub sys_fread : ℕ
sys_fread = 18

-- -1U, which is 32 bits wide: as the size of a pipe it says that a writer has served the reader directly.
abbrev pub minus_one : ℕ
minus_one = 0xFFFFFFFF

-- pipe_t
pub record Pipe : Type 0 where
  pub reader : ℕ
  pub fid : ℕ
  pub nopen : ℕ
  pub rd : ℕ
  pub size : ℕ
  -- The field `data`.
  pub buffer : Option (List ℕ)
  pub owner : ℕ
  pub rdtime : ℕ
  pub wrtime : ℕ

-- The fields of taskctx_t that pipes use: the suspended message of a task. `evt` is EVT_FUNC of the
-- event, 0 for no message.
pub record Ctx : Type 0 where
  pub pid : ℕ
  pub evt : ℕ
  pub ptr : ℕ
  pub size : ℕ
  pub serial : ℕ

-- memcpy to an address in shared memory, tskcpy to a task, and the acknowledgement of a message with
-- its errno.
pub data Effect : Type 0 where
  stored : ℕ → List ℕ → Effect
  copied : ℕ → ℕ → List ℕ → Effect
  acked : ℕ → ℕ → ℕ → Effect

pub record Fs : Type 0 where
  -- The table has npipe elements, but none after a reallocation that failed.
  pub npipe : ℕ
  pub pipe : List Pipe
  -- Task contexts by the last byte of their pid.
  pub taskctx : ℕ → List Ctx
  pub errno : ℕ
  pub now : ℕ
  pub ackdelayed : Bool
  -- The latest effect comes first.
  pub effects : List Effect

-- The loop of pipe_add: the first unused slot.
pub unused : List Pipe → Option ℕ
unused [] = none
unused (p ∷ ps) =
    let rest = unused ps in
    if p.nopen == 0 then some 0 else elim rest [ none ↦ none | some i ↦ some (i + 1) ]

-- The fields that pipe_add fills in.
abbrev pub opened : Pipe → ℕ → ℕ → Pipe
opened p fid uid = record p { fid = fid; reader = 0; size = 0; rd = 0; owner = uid }

-- pipe_add for the owner `uid`. `fresh` is what the new element of the table holds, or `none` when there
-- is no memory.
pub pipe_add : Fs → ℕ → ℕ → Option Pipe → Option (ℕ × Fs)
pipe_add s fid uid fresh = elim (unused s.pipe) [
  | some i ↦ elim (get_elem? s.pipe i) [
    | none ↦ none
    | some p ↦ some (i, record s { pipe = set s.pipe i (opened p fid uid) })
  ]
  | none ↦ elim fresh [
    | none ↦ some (minus_one, record s { npipe = s.npipe + 1; pipe = [] })
    | some p ↦
        some (s.npipe, record s { npipe = s.npipe + 1; pipe = s.pipe ++ (opened p fid uid ∷ []) })
  ]
]

-- The loop of pipe_del: the number of pipes without the unused ones at the end.
pub trim : List Pipe → ℕ → ℕ
trim ps zero = 0
trim ps (suc i) =
    let rest = trim ps i in
    elim (get_elem? ps i) [ none ↦ suc i | some p ↦ if p.nopen == 0 then rest else suc i ]

abbrev pub released : Pipe → Pipe
released p = record p { nopen = 0; buffer = none; reader = 0; size = 0; rd = 0 }

-- pipe_del. `ok` says whether the shorter table could be had.
pub pipe_del : Fs → ℕ → Bool → Option Fs
pipe_del s idx ok = if leb s.npipe idx then some s else elim (get_elem? s.pipe idx) [
  | none ↦ none
  | some p ↦
      let left = if ltb 0 p.nopen then sub64 p.nopen 1 else p.nopen in
      let ps = set s.pipe idx (released p) in
      let n = trim ps s.npipe in
      if not (left == 0)
      then some (record s { pipe = set s.pipe idx (record p { nopen = left }) })
      else if n == s.npipe
      then some (record s { pipe = ps })
      else some (record s { npipe = n; pipe = if ok then take n ps else [] })
]

abbrev pub emit : Fs → Effect → Fs
emit s e = record s { effects = e ∷ s.effects }

-- A negative address lies in shared memory.
abbrev pub copy_to : ℕ → ℕ → List ℕ → Effect
copy_to pid ptr bytes = if leb (2 ^ 63) ptr then stored ptr bytes else copied pid ptr bytes

-- The part of pipe_read before the copy: the mark goes, and so does a buffer that was read to its end.
pub settle : Pipe → Pipe
settle p =
    let size = if p.size == minus_one then 0 else p.size in
    let rd = if ltb size p.rd then size else p.rd in
    elim p.buffer [
      | none ↦ record p { size = size; rd = rd }
      | some d ↦
          if rd == size
          then record p { size = 0; rd = 0; buffer = none }
          else record p { size = size; rd = rd }
    ]

-- The part of pipe_read for a buffer with something to read.
pub take_out : Fs → ℕ → Pipe → List ℕ → ℕ → ℕ → ℕ → ℕ × Fs
take_out s idx p d ptr n pid =
    let left = sub64 p.size p.rd in
    if ltb (add64 p.rd n) p.size
    then (
      n,
      emit (record s { pipe = set s.pipe idx (record p { rd = add64 p.rd n; reader = 0 }) })
          (copy_to pid ptr (take n (drop p.rd d))),
    )
    else (
      left,
      emit
          (record s {
            pipe = set s.pipe idx (record p { size = 0; rd = 0; buffer = none; reader = 0 });
          })
          (copy_to pid ptr (take left (drop p.rd d))),
    )

-- lockid, a compare-and-exchange with 0.
abbrev pub lockid : ℕ → ℕ → ℕ
lockid pid r = if r == 0 then pid else r

pub read_from : Fs → ℕ → Pipe → ℕ → ℕ → ℕ → ℕ × Fs
read_from s idx p ptr n pid =
    let p1 : Pipe = record p { reader = lockid pid p.reader } in
    let p2 : Pipe = record (settle p1) { rdtime = s.now } in
    if not (p1.reader == pid)
    then (0, record s { pipe = set s.pipe idx p1; errno = eacces })
    else elim p2.buffer [
      | none ↦ (0, record s { pipe = set s.pipe idx p2; ackdelayed = true })
      | some d ↦ take_out s idx p2 d ptr n pid
    ]

-- pipe_read
pub pipe_read : Fs → ℕ → ℕ → ℕ → ℕ → Option (ℕ × Fs)
pipe_read s idx ptr n pid =
    if leb s.npipe idx
    then some (0, record s { errno = epipe })
    else elim (get_elem? s.pipe idx) [ none ↦ none | some p ↦ some (read_from s idx p ptr n pid) ]

pub find_ctx : List Ctx → ℕ → Option Ctx
find_ctx [] pid = none
find_ctx (c ∷ cs) pid = let rest = find_ctx cs pid in if c.pid == pid then some c else rest

-- The reader of a pipe, if it is suspended in a read.
pub blocked_reader : Fs → ℕ → Option Ctx
blocked_reader s r = if r == 0 then none else elim (find_ctx (s.taskctx (r % 256)) r) [
  | none ↦ none
  | some c ↦ if c.evt == sys_fread then some c else none
]

-- The message of a task is done with.
pub forget : List Ctx → ℕ → List Ctx
forget [] pid = []
forget (c ∷ cs) pid =
    let rest = c ∷ forget cs pid in if c.pid == pid then record c { evt = 0 } ∷ cs else rest

-- At the label `ack`: the answer to the reader.
pub ack : Fs → Ctx → Fs
ack s c = record (emit s (acked c.pid s.errno c.serial)) {
  taskctx = λ b. if b == (c.pid % 256) then forget (s.taskctx b) c.pid else s.taskctx b;
}

-- memcpy into a buffer.
abbrev pub splice : List ℕ → ℕ → List ℕ → List ℕ
splice d at bytes = take at d ++ (bytes ++ drop (at + length bytes) d)

-- A pipe that has nothing buffered, and was not served directly before.
abbrev pub is_fresh : Pipe → Bool
is_fresh p = elim p.buffer [ none ↦ p.size == 0 | some d ↦ false ]

-- The reader's buffer is filled without the pipe's.
pub write_direct : Fs → ℕ → Pipe → Ctx → List ℕ → Fs
write_direct s idx p c bytes =
    ack
      (emit (record s { pipe = set s.pipe idx (record p { size = minus_one }) })
        (copy_to p.reader c.ptr bytes))
      c

module _ (realloc : Option (List ℕ) → ℕ → Option (List ℕ)) where
  pub write_buffered : Fs → ℕ → Pipe → Option Ctx → List ℕ → Option (Bool × Fs)
  write_buffered s idx p tc bytes =
      let size = if p.size == minus_one then 0 else p.size in
      elim (realloc p.buffer (add64 size (length bytes))) [
        | none ↦
            some
              (false, record s { pipe = set s.pipe idx (record p { size = size; buffer = none }) })
        | some d ↦
            let p' : Pipe = record p {
              buffer = some (splice d size bytes);
              size = add64 size (length bytes);
            } in
            let s' : Fs = record s { pipe = set s.pipe idx p' } in
            elim tc [
              | none ↦ some (true, s')
              | some c ↦ elim (pipe_read s' idx c.ptr c.size c.pid) [
                | none ↦ none
                | some (k, s2) ↦ some (true, ack s2 c)
              ]
            ]
      ]

  -- The part of pipe_write behind the look-up of the reader.
  pub write_to : Fs → ℕ → Pipe → Option Ctx → List ℕ → Option (Bool × Fs)
  write_to s idx p none bytes = write_buffered s idx p none bytes
  write_to s idx p (some c) bytes =
      if leb (length bytes) c.size && is_fresh p
      then some (true, write_direct s idx p c bytes)
      else write_buffered s idx p (some c) bytes

  -- pipe_write of the bytes that `ptr` and `size` name.
  pub pipe_write : Fs → ℕ → List ℕ → Option (Bool × Fs)
  pipe_write s idx bytes =
      if leb s.npipe idx
      then some (false, record s { errno = epipe })
      else elim (get_elem? s.pipe idx) [
        | none ↦ none
        | some p ↦
            let p' : Pipe = record p { wrtime = s.now } in
            write_to s idx p' (blocked_reader s p'.reader) bytes
      ]
