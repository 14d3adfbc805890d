-- ===== src/Msg/Event.antt =====
-- The word of an event, `evt` of a message: the macros behind msg_t in include/osZ/types.h. The word has the task in its
-- upper 48 bits, then the bit of an answer, that of a buffer, and the function in 14 bits.
pub mod Parts
pub mod Tests
use bztsrc_osz.Prelude.{ℕ, ◌+◌, ◌*◌, ◌/◌, ◌%◌, ◌^◌, Bool, ◌==◌}

-- The parts of the word of an event.
pub record Evt : Type 0 where
  pub task : ℕ
  pub responsed : ℕ
  pub ptrdata : ℕ
  pub func : ℕ

-- EVT_DEST, MSG_RESPONSED and MSG_PTRDATA
abbrev pub evt_dest : ℕ → ℕ
evt_dest t = (t * 2 ^ 16) % 2 ^ 64

abbrev pub msg_responsed : ℕ
msg_responsed = 0x8000

abbrev pub msg_ptrdata : ℕ
msg_ptrdata = 0x4000

-- The word of these parts, which have no bits in common.
unfoldable pub word : Evt → ℕ
word e = evt_dest e.task + e.responsed * msg_responsed + e.ptrdata * msg_ptrdata + e.func

-- EVT_SENDER and EVT_FUNC, and MSG_ISRESP and MSG_ISPTR, which give the bit at its place in the word
abbrev pub evt_sender : ℕ → ℕ
evt_sender m = m / 2 ^ 16

abbrev pub evt_func : ℕ → ℕ
evt_func m = m % 2 ^ 14

abbrev pub msg_isresp : ℕ → ℕ
msg_isresp m = ((m / msg_responsed) % 2) * msg_responsed

abbrev pub msg_isptr : ℕ → ℕ
msg_isptr m = ((m / msg_ptrdata) % 2) * msg_ptrdata

-- The parts that the macros read in a word, the two bits as 0 or 1.
unfoldable pub parts_of : ℕ → Evt
parts_of m = record {
  task = evt_sender m;
  responsed = msg_isresp m / msg_responsed;
  ptrdata = msg_isptr m / msg_ptrdata;
  func = evt_func m;
}
