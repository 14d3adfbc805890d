-- ===== src/Msg/Post.antt =====
-- msg_send, msg_recv and msg_notify as calls of a task: who may send, the buffer of a message, and who sleeps
-- and wakes. The task that calls is `src`, and its trace buffer is not set. The parameters are what the policy
-- knows of a task, the pids of the services and drivers_ready. A call of msg_send is given the page that
-- pmm_alloc returns when it is called, and the pages of the page table that the sender's buffer is in.
pub mod Queue
pub mod Tests
use bztsrc_osz.Prelude.{
  ℕ, zero, suc, ◌+◌, ◌-◌, ◌*◌, ◌/◌, ◌%◌, ◌==◌, ◌||◌, ◌&&◌, not, Bool, true, false, Option, none,
  some, List, [], ◌∷◌, ltb, leb, if◌then◌else◌, add64, sub64,
}
use bztsrc_osz.Sched.State.{Sched, direct, update}
use bztsrc_osz.Sched.Queue.{sched_awake, sched_block}
use bztsrc_osz.Sched.Pick.{sched_pick}
use bztsrc_osz.Security.{Sender, msg_allowed, eperm, evt_ack, service, drv}
use bztsrc_osz.Vmm.{text_address, buf_address, sdyn_address, ldyn_address}
use bztsrc_osz.Msg.{
  Message, Mq, mq_max, mq_buf, page_size, slot_size, next_slot, round_up, recv_queue, off_header,
  advanced, settle_slot, page_of, next_serial, esrch, efault, ebusy, enotshm,
}

-- The loop over the pages of a buffer: `n` pages from `i` on become those of the sender from `j` on. The
-- second result is linkmem.
pub map_pages : ℕ → (ℕ → Option ℕ) → (ℕ → ℕ) → ℕ → ℕ → ℕ → (ℕ → Option ℕ) × ℕ
map_pages zero pages from i j linkmem = (pages, linkmem)
map_pages (suc n) pages from i j linkmem =
    map_pages n (update pages i (some (from j))) from (i + 1) (j + 1)
      (elim (pages i) [ none ↦ linkmem | some p ↦ sub64 linkmem 1 ])

-- What becomes of the buffer of a message: an error, or the queue, linkmem and the address for the receiver.
pub data Attached : Type 0 where
  refused : ℕ → Mq → Attached
  attached : Mq → ℕ → ℕ → Attached

-- The bounds of the buffers in the queue of the receiver.
abbrev pub with_bounds : Mq → Mq
with_bounds q = record q {
  mq_bufstart = if ltb q.mq_bufstart mq_buf then mq_buf else q.mq_bufstart;
  mq_bufend = if ltb q.mq_bufend mq_buf then mq_buf else q.mq_bufend;
}

-- The pages of a buffer of `b` bytes at `a` are mapped behind the buffers in use, or from MQ_BUF on.
pub map_buffer : Mq → (ℕ → ℕ) → ℕ → ℕ → ℕ → Attached
map_buffer q from a b linkmem =
    let i0 = (if ltb (q.mq_bufend + b) slot_size then q.mq_bufend else mq_buf) / page_size in
    let i = if ltb i0 2 then 2 else i0 in
    let j = (a / page_size) % 512 in
    let k = ((a + b + (page_size - 1)) / page_size) % 512 in
    let a' = i * page_size + a % page_size in
    let (pages, linkmem') = map_pages (k - j) q.pages from i j (add64 linkmem (sub64 k j)) in
    attached (record q { mq_bufend = round_up (a' + b); pages = pages }) linkmem' a'

-- The part of msg_send for a message with a buffer. One in shared memory is left where it is.
pub attach : Mq → (ℕ → ℕ) → ℕ → ℕ → ℕ → Attached
attach q from a b linkmem =
    let q' = with_bounds q in
    if ltb a text_address || ((leb buf_address a && ltb a sdyn_address) || leb ldyn_address a)
    then refused efault q
    else if leb buf_address a
    then attached q linkmem a
    else if ltb (slot_size / 2) b
        || (ltb slot_size (q'.mq_bufend + b) && ltb q'.mq_bufstart (mq_buf + b))
    then refused enotshm q'
    else map_buffer q' from a b linkmem

-- The destination of an event: a task, or a service, whose number is negative in the source.
pub data Dest : Type 0 where
  task srv : ℕ → Dest

-- The destination as a number of 64 bits, for the policy.
abbrev pub dest_number : Dest → ℕ
dest_number (task p) = p
dest_number (srv n) = service n

-- The pid of a destination.
abbrev pub resolve : (ℕ → ℕ) → Dest → Option ℕ
resolve services (task p) = some p
resolve services (srv n) = if ltb n 8 && not (services n == 0) then some (services n) else none

-- What the calls read and write: the scheduler, the queue of a task, the first of the tasks that wait to
-- send to a task (and behind a task, the next of those), and linkmem of a task.
pub record Tasks : Type 0 where
  pub sched : Sched
  pub mq : ℕ → Mq
  pub blksend : ℕ → ℕ
  pub linkmem : ℕ → ℕ

abbrev pub seterr : Tasks → ℕ → Tasks
seterr s e = record s { sched = record s.sched { errno = e } }

abbrev pub write_mq : Tasks → ℕ → Mq → Tasks
write_mq s p q = record s { mq = update s.mq p q }

-- The copy of a message to its slot, with the serial number of the sender's own message or a new one, and
-- the end of msg_send: the receiver wakes, and the result names the message.
pub deliver : Tasks → ℕ → ℕ → Mq → ℕ → Message → ℕ → Tasks × ℕ
deliver s src dst q j m serial =
    let n = next_serial q in
    let k = src * 65536 + n in
    let q' : Mq = record q {
      mq_serial = n;
      slot =
          update q.slot j (record m {
            sender = src;
            is_resp = false;
            serial = if serial == 0 then k else serial;
          });
    } in
    (record (write_mq s dst q') { sched = sched_awake s.sched (direct dst) }, k)

-- The part of msg_send behind the claim of slot `j`.
pub fill_slot : Tasks → ℕ → ℕ → Mq → ℕ → Message → (ℕ → ℕ) → ℕ → Tasks × ℕ
fill_slot s src dst q j m from serial =
    if m.is_ptr
    then elim (attach q from m.arg0 m.arg1 (s.linkmem dst)) [
      | refused e q' ↦ (seterr (write_mq s dst q') e, 0)
      | attached q' linkmem a ↦
          deliver (record s { linkmem = update s.linkmem dst linkmem }) src dst q' j
            (record m { arg0 = a }) serial
    ]
    else deliver s src dst q j m serial

module _ (drivers_ready : Sched → Sched) where
  -- The queue is full: the sender sleeps until the receiver takes a message. A task that sends to itself gets
  -- an error.
  pub wait_to_send : Tasks → ℕ → ℕ → Option (Tasks × ℕ)
  wait_to_send s src dst =
      let s' : Tasks = record s {
        blksend = update (update s.blksend src (s.blksend dst)) dst src;
      } in
      if src == dst
      then some (seterr s ebusy, 0)
      else elim (sched_pick drivers_ready 2 (sched_block s'.sched (direct src))) [
        | none ↦ none
        | some sched ↦ some (record s' { sched = sched }, 0)
      ]

  -- The part of msg_send for the queue `q0` of the receiver.
  pub enqueue_in : Tasks → ℕ → ℕ → Mq → Message → (ℕ → ℕ) → ℕ → ℕ → Option (Tasks × ℕ)
  enqueue_in s src dst q0 m from fresh serial =
      let q = advanced q0 in
      let (q', j) = settle_slot q q0.mq_end fresh in
      if q.mq_end == q.mq_start
      then wait_to_send (write_mq s dst q) src dst
      else some (fill_slot s src dst q' j m from serial)

  pub enqueue : Tasks → ℕ → ℕ → Message → (ℕ → ℕ) → ℕ → ℕ → Option (Tasks × ℕ)
  enqueue s src dst m from fresh serial =
      enqueue_in s src dst (off_header (s.mq dst)) m from fresh serial

  module _ (who : ℕ → Sender) (services : ℕ → ℕ) where
    -- Only the file system service may send to a driver, and not the event 0.
    abbrev pub driver_refuses : Tasks → ℕ → ℕ → ℕ → Bool
    driver_refuses s src dst func =
        ((s.sched.tcb dst).priority == drv) && (not (src == services 1) || (func == 0))

    -- msg_send, behind dispatch: a message to the core itself, whose number is 0, is not sent.
    pub msg_send : Tasks → ℕ → Dest → Message → (ℕ → ℕ) → ℕ → ℕ → Option (Tasks × ℕ)
    msg_send s src to m from fresh serial =
        let (allowed, e) = msg_allowed services (who src) (dest_number to) m.func s.sched.errno in
        if dest_number to == 0
        then some (s, 0)
        else if not allowed
        then some (seterr s e, 0)
        else elim (resolve services to) [
          | none ↦ some (seterr s esrch, 0)
          | some dst ↦
              if not (s.sched.tcb dst).magic
              then some (seterr s esrch, 0)
              else if driver_refuses s src dst m.func
              then some (seterr s eperm, 0)
              else enqueue (seterr s 0) src dst m from fresh serial
        ]

-- The first task that waits to send wakes when the receiver calls.
pub wake_sender : Tasks → ℕ → Tasks
wake_sender s p =
    let w = s.blksend p in
    if w == 0
    then s
    else if (s.sched.tcb w).magic && not (p == w)
    then record s {
      blksend = update (update s.blksend p (s.blksend w)) w 0;
      sched = sched_awake s.sched (direct w);
    }
    else record s { blksend = update s.blksend p 0 }

-- The error number comes with an answer.
abbrev pub answer_errno : Tasks → Option Message → Tasks
answer_errno s none = s
answer_errno s (some m) = if m.func == evt_ack then seterr s m.arg2 else s

-- msg_recv; `none` is fuel that ran out. The idle task has no queue.
pub msg_recv : Tasks → ℕ → ℕ → Option (Tasks × Option Message)
msg_recv s p serial =
    if p == s.sched.idle then some (s, none) else elim (recv_queue (s.mq p) serial) [
      | none ↦ none
      | some (q, m) ↦ some (wake_sender (answer_errno (write_mq s p q) m) p, m)
    ]

-- msg_notify: a message of the core, which is delivered whether or not there is room.
pub msg_notify : Tasks → ℕ → ℕ → ℕ → ℕ → Tasks
msg_notify s p func a fresh =
    let q0 = off_header (s.mq p) in
    let n = next_serial q0 in
    let (q, j) = settle_slot (advanced (record q0 { mq_serial = n })) q0.mq_end fresh in
    let m : Message = record {
      sender = 0;
      func = func;
      is_ptr = false;
      is_resp = false;
      arg0 = a;
      arg1 = s.sched.clock_ticks;
      arg2 = (q.slot j).arg2;
      others = (q.slot j).others;
      serial = n;
    } in
    if (p == 0) || not (s.sched.tcb p).magic
    then s
    else record (write_mq s p (record q { slot = update q.slot j m })) {
      sched = sched_awake s.sched (direct p);
    }
