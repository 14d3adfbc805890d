-- ===== src/Msg.antt =====
-- Messages between tasks, src/core/msg.c: msg_send, msg_recv and msg_notify. Every task has a ring of
-- messages in its own memory, with the header msghdr_t in front of it, and a page table for the ring and for
-- the buffers that come with messages. This file has the ring, and Msg.Post the calls.
pub mod Event
pub mod Post
pub mod Ring
pub mod Receive
pub mod Send
use bztsrc_osz.Prelude.{
  ℕ, zero, suc, ◌+◌, ◌-◌, ◌*◌, ◌/◌, ◌%◌, ◌==◌, ◌||◌, ◌&&◌, not, Bool, true, false, Option, none,
  some, List, [], ◌∷◌, ltb, leb, if◌then◌else◌, add64, sub64,
}
use bztsrc_osz.Sched.State.{Sched, direct, update}
use bztsrc_osz.Sched.Queue.{sched_awake, sched_block}
use bztsrc_osz.Sched.Pick.{sched_pick}
use bztsrc_osz.Security.{Sender, msg_allowed, eperm, evt_ack}

abbrev pub esrch : ℕ
esrch = 3

abbrev pub efault : ℕ
efault = 4

abbrev pub ebusy : ℕ
ebusy = 6

abbrev pub enotshm : ℕ
enotshm = 26

-- MQ_MAX and MQ_BUF: the messages of 64 bytes between the first page and the buffers.
abbrev pub mq_max : ℕ
mq_max = 192

abbrev pub mq_buf : ℕ
mq_buf = 16384

abbrev pub page_size : ℕ
page_size = 4096

abbrev pub slot_size : ℕ
slot_size = 0x200000

-- msg_t, with the parts of `evt`: EVT_SENDER, EVT_FUNC, MSG_PTRDATA and MSG_RESPONSED. The arguments behind
-- the first three are never read here.
pub record Message : Type 0 where
  pub sender : ℕ
  pub func : ℕ
  pub is_ptr : Bool
  pub is_resp : Bool
  pub arg0 : ℕ
  pub arg1 : ℕ
  pub arg2 : ℕ
  pub others : List ℕ
  pub serial : ℕ

-- msghdr_t, the ring, and the page table of the first 2 megabytes of the task.
pub record Mq : Type 0 where
  pub mq_start : ℕ
  pub mq_end : ℕ
  pub mq_serial : ℕ
  pub mq_total : ℕ
  pub mq_bufstart : ℕ
  pub mq_bufend : ℕ
  pub slot : ℕ → Message
  pub pages : ℕ → Option ℕ

-- The index behind a slot.
abbrev pub next_slot : ℕ → ℕ
next_slot i = if leb mq_max (i + 1) then 1 else i + 1

-- The loop of msg_recv for any message.
pub recv_loop : ℕ → Mq → Option (Mq × Message)
recv_loop zero q = none
recv_loop (suc fuel) q =
    let m = q.slot q.mq_start in
    let q' : Mq = record q { mq_start = next_slot q.mq_start } in
    let rest = recv_loop fuel q' in
    if m.is_resp && not (q'.mq_start == q'.mq_end) then rest else some (q', m)

-- Whole pages, from a number of bytes.
abbrev pub round_up : ℕ → ℕ
round_up x = ((x + (page_size - 1)) / page_size) * page_size

-- What follows the loop: the message counts, and its buffer is behind the start of those in use.
abbrev pub taken : Mq → Message → Mq
taken q m = record q {
  mq_total = add64 q.mq_total 1;
  mq_bufstart = if m.is_ptr then round_up (m.arg0 + m.arg1) else q.mq_bufstart;
}

pub recv_any : Mq → Option (Mq × Option Message)
recv_any q = elim (recv_loop mq_max q) [
  | none ↦ none
  | some (q', m) ↦ if m.is_resp then some (q', none) else some (taken q' m, some m)
]

abbrev pub prev_slot : ℕ → ℕ
prev_slot i = if i == 1 then mq_max - 1 else i - 1

-- The loop of msg_recv for an answer, from the end of the ring on: the slot where it stops.
pub find_reply : ℕ → Mq → ℕ → ℕ → Option ℕ
find_reply zero q serial i = none
find_reply (suc fuel) q serial i =
    let i' = prev_slot i in
    let m = q.slot i' in
    let rest = find_reply fuel q serial i' in
    if (m.is_resp || not (m.serial == serial)) && not (i' == q.mq_start) then rest else some i'

-- What follows the loop: the last message leaves the ring, another one is marked.
abbrev pub answered : Mq → ℕ → Mq
answered q i =
    let m = q.slot i in
    let j = prev_slot q.mq_end in
    let q' : Mq = record q { mq_total = add64 q.mq_total 1 } in
    if i == j
    then record q' {
      mq_end = j;
      mq_bufend = if m.is_ptr then (m.arg0 / page_size) * page_size else q.mq_bufend;
    }
    else record q' { slot = update q.slot i (record m { is_resp = true }) }

pub recv_reply : Mq → ℕ → Option (Mq × Option Message)
recv_reply q serial = elim (find_reply mq_max q serial q.mq_end) [
  | none ↦ none
  | some i ↦
      let m = q.slot i in
      if m.is_resp || not (m.serial == serial) then some (q, none) else some (answered q i, some m)
]

-- msg_recv, as far as the ring goes; `none` is fuel that ran out.
pub recv_queue : Mq → ℕ → Option (Mq × Option Message)
recv_queue q serial =
    let any = recv_any q in
    let reply = recv_reply q serial in
    if q.mq_start == q.mq_end then some (q, none) else if serial == 0 then any else reply

-- The indices do not point at the header.
abbrev pub off_header : Mq → Mq
off_header q = record q {
  mq_start = if q.mq_start == 0 then 1 else q.mq_start;
  mq_end = if q.mq_end == 0 then 1 else q.mq_end;
}

-- A slot is claimed at the end of the ring.
abbrev pub advanced : Mq → Mq
advanced q = record q { mq_end = next_slot q.mq_end }

-- The page of a slot.
abbrev pub page_of : ℕ → ℕ
page_of j = (64 * j / page_size + 1) % 512

-- The slot for the next message, once the end has gone on from `j`; `fresh` is the page that pmm_alloc gives
-- when the one of the slot is not there. With an empty ring the slot behind the header is taken instead.
pub settle_slot : Mq → ℕ → ℕ → Mq × ℕ
settle_slot q j fresh = elim (q.pages (page_of j)) [
  | some p ↦ (q, j)
  | none ↦
      if q.mq_start + 1 == q.mq_end
      then (record q { mq_end = 1 }, 1)
      else (record q { pages = update q.pages (page_of j) (some fresh) }, j)
]

-- The next serial number.
abbrev pub next_serial : Mq → ℕ
next_serial q = if leb 65535 q.mq_serial then 1 else q.mq_serial + 1
