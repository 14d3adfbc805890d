-- ===== src/Fs/Fcb/Write.antt =====
-- The write buffers of a file, fcb_write of src/fs/fcb.c. A buffer is its offset and its bytes. `none` is a read or a
-- write of memory that is not there.
pub mod Buffers
pub mod Inside
pub mod Tests
use bztsrc_osz.Prelude.{
  ℕ, zero, suc, ◌+◌, ◌-◌, ◌==◌, ◌||◌, ◌&&◌, not, Bool, true, false, Option, none, some, ◌>>=◌, List,
  [], ◌∷◌, ◌++◌, ltb, leb, if◌then◌else◌, length, take, drop,
}

abbrev pub efault : ℕ
efault = 4

abbrev pub ebadf : ℕ
ebadf = 27

abbrev pub ebusy : ℕ
ebusy = 6

abbrev pub eacces : ℕ
eacces = 7

abbrev pub erofs : ℕ
erofs = 20

-- writebuf_t
pub record Writebuf : Type 0 where
  pub offs : ℕ
  pub data_of : List ℕ

abbrev pub end_offs : Writebuf → ℕ
end_offs w = w.offs + length w.data_of

-- The new bytes cover the buffer.
abbrev pub covered : ℕ → List ℕ → Writebuf → Bool
covered offs bytes w = leb offs w.offs && leb (end_offs w) (offs + length bytes)

-- The first loop, which drops the buffers that are covered. Behind the first one, it goes on from the address that it
-- keeps, which is NULL before it has passed a buffer.
pub sweep : Bool → ℕ → List ℕ → List Writebuf → Option (List Writebuf)
sweep passed offs bytes [] = some []
sweep passed offs bytes (w ∷ ws) =
    let rest = sweep true offs bytes ws in
    if covered offs bytes w then (if passed then rest else none) else rest >>= λ r. some (w ∷ r)

-- What the second loop does: the list begins at the new buffer, a buffer changes, or none does.
pub data Placing : Type 0 where
  begins changes : List Writebuf → Placing
  nowhere : Placing

-- The bytes of a buffer with others written over them from `i` on.
abbrev pub overlay : List ℕ → ℕ → List ℕ → List ℕ
overlay old i bytes = take i old ++ (bytes ++ drop (i + length bytes) old)

-- The second loop; `memory` says whether realloc succeeds. Where the bytes begin in a buffer and end behind it, the source
-- writes behind the end of a block, or loses the bytes of the buffer.
pub place : Bool → ℕ → List ℕ → List Writebuf → Option (Option Placing)
place memory offs bytes [] = some (some nowhere)
place memory offs bytes (w ∷ ws) =
    let e = offs + length bytes in
    let we = end_offs w in
    let new : Writebuf = record { offs = offs; data_of = bytes } in
    let grown : Writebuf = record { offs = offs; data_of = bytes ++ take (we - e) w.data_of } in
    let inside : Writebuf = record {
      offs = w.offs;
      data_of = overlay w.data_of (offs - w.offs) bytes;
    } in
    let further : Option (Option Placing) = place memory offs bytes ws >>= λ o. some (elim o [
      | none ↦ none
      | some p ↦
          some (elim p [ begins r ↦ begins r | changes r ↦ changes (w ∷ r) | nowhere ↦ nowhere ])
    ]) in
    if ltb e w.offs
    then some (some (begins (new ∷ w ∷ ws)))
    else if ltb offs w.offs && (leb w.offs e && ltb e we)
    then some (if memory then some (changes (grown ∷ ws)) else none)
    else if leb w.offs offs && leb e we
    then some (some (changes (inside ∷ ws)))
    else if ltb w.offs offs && (leb offs we && ltb we e)
    then none
    else further

-- What fcb_write asks of a file block, and its buffers.
pub record File : Type 0 where
  pub is_regular : Bool
  pub is_checked : Bool
  pub is_writable : Bool
  pub has_write : Bool
  pub buf : List Writebuf

-- The parts of fcb_write behind its tests: the first two allocations, and the loops. The second result is what it returns.
pub write_buffers : Bool → Bool → File → ℕ → List ℕ → Option (File × Bool)
write_buffers memory more f offs bytes =
    let run = sweep false offs bytes f.buf >>= λ ws. place more offs bytes ws >>= λ o.
    some (elim o [
      | none ↦ (record f { buf = ws }, false)
      | some p ↦ elim p [
        | begins r ↦ (record f { buf = r }, true)
        | changes r ↦ (record f { buf = r }, true)
        | nowhere ↦ (record f { buf = ws }, false)
      ]
    ]) in
    if memory then run else some (f, false)

-- fcb_write of a block that is there, or not: the error number comes with the result.
pub fcb_write : Bool → Bool → Option File → ℕ → List ℕ → Option (Option File × (Bool × Option ℕ))
fcb_write memory more none offs bytes = some (none, (false, some efault))
fcb_write memory more (some f) offs bytes =
    let run =
      write_buffers memory more f offs bytes >>= λ (f', done). some (some f', (done, none)) in
    if not f.is_regular
    then some (some f, (false, some ebadf))
    else if f.is_checked
    then some (some f, (false, some ebusy))
    else if not f.is_writable
    then some (some f, (false, some eacces))
    else if not f.has_write
    then some (some f, (false, some erofs))
    else run
