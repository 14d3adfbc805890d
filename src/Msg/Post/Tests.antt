-- ===== src/Msg/Post/Tests.antt =====
-- Messages sent and received, and the theorems on the queue at concrete states.
use bztsrc_osz.Prelude.{
  ℕ, ◌+◌, ◌*◌, ◌≡◌, refl, ◌==◌, true, false, Option, none, some, List, [], ◌∷◌, map, if◌then◌else◌,
  arith,
}
use bztsrc_osz.Sched.State.{Sched, Tcb, Ccb, running}
use bztsrc_osz.Msg.{Message, Mq, next_slot, next_serial, recv_queue}
use bztsrc_osz.Msg.Ring.{pending, IsValid}
use bztsrc_osz.Msg.Receive.{Received, first_open, recv_queue-Received}
use bztsrc_osz.Msg.Post.{Tasks, Dest, task, srv, enqueue, msg_send, msg_recv, msg_notify}
use bztsrc_osz.Msg.Post.Queue.{Sent, enqueue-Sent}

-- Tasks 5 and 6 run on one core; 6 waits for messages.
abbrev tcb_of : ℕ → Tcb
tcb_of a = record {
  magic = true;
  priority = 4;
  state = running;
  cpuid = 0;
  prev = if a == 6 then 5 else 0;
  next = if a == 5 then 6 else 0;
  blktime = 0;
  blkcnt = 0;
  alarmusec = 0;
  memroot = a;
}

abbrev core : Ccb
core = record {
  id = 0;
  current = 5;
  hd_timerq = 0;
  hd_blocked = 0;
  hd_active = λ i. if i == 4 then 5 else 0;
  cr_active = λ i. if i == 4 then 6 else 0;
  sched_ticks = 0;
  sched_delta = 0;
  flags = 0;
  hasactivetask = true;
}

abbrev two_tasks : Sched
two_tasks = record {
  tcb = tcb_of;
  ccb = λ c. core;
  numcores = 1;
  self = 0;
  idle = 1;
  tmpmap1 = 0;
  tcbalarm = 0;
  clock_ticks = 100;
  quantum = 10;
  runlevel = 3;
  errno = 0;
  woken = λ c. false;
  memmap = 5;
  timer = none;
}

abbrev note : ℕ → Message
note k = record {
  sender = 0;
  func = k;
  is_ptr = false;
  is_resp = false;
  arg0 = 0;
  arg1 = 0;
  arg2 = 0;
  others = [];
  serial = k;
}

-- Messages 1 and 2 wait; the first was answered.
abbrev two_notes : Mq
two_notes = record {
  mq_start = 1;
  mq_end = 3;
  mq_serial = 2;
  mq_total = 0;
  mq_bufstart = 0;
  mq_bufend = 0;
  slot = λ i. record (note i) { is_resp = i == 1 };
  pages = λ i. some i;
}

-- The end of the ring is one slot behind its start.
abbrev full_ring : Mq
full_ring = record two_notes { mq_start = 3; mq_end = 2 }

abbrev with_queue : Mq → Tasks
with_queue q = record { sched = two_tasks; mq = λ p. q; blksend = λ p. 0; linkmem = λ p. 0 }

abbrev funcs : Mq → List ℕ
funcs q = map (λ m. m.func) (pending q)

abbrev funcs_of : ℕ → Option (Tasks × ℕ) → List ℕ
funcs_of p none = []
funcs_of p (some (s, k)) = funcs (s.mq p)

abbrev errno_of : Option (Tasks × ℕ) → ℕ
errno_of none = 0
errno_of (some (s, k)) = s.sched.errno

abbrev taken_of : Option (Tasks × Option Message) → List ℕ
taken_of (some (s, some m)) = m.func ∷ funcs (s.mq 6)
taken_of _ = []

-- Task 5 sends to task 6, and the core notifies it.
send_runs :
    (funcs_of 6 (enqueue (λ s. s) (with_queue two_notes) 5 6 (note 7) (λ i. i) 0 0)
      ≡ 1 ∷ 2 ∷ 7 ∷ [])
    × (funcs_of 6 (some (msg_notify (with_queue two_notes) 6 8 0 0, 0)) ≡ 1 ∷ 2 ∷ 8 ∷ [])
unfolding msg_notify enqueue bztsrc_osz.Msg.Post.enqueue_in bztsrc_osz.Msg.Post.fill_slot
    bztsrc_osz.Msg.Post.deliver bztsrc_osz.Msg.Ring.window bztsrc_osz.Msg.settle_slot
send_runs = (refl, refl)

-- Task 6 takes the first message that is not answered, or the answer with a serial number.
recv_runs :
    (taken_of (msg_recv (with_queue two_notes) 6 0) ≡ 2 ∷ [])
    × (taken_of (msg_recv (with_queue two_notes) 6 2) ≡ 2 ∷ 1 ∷ [])
    × (taken_of (msg_recv (with_queue two_notes) 6 4) ≡ [])
unfolding msg_recv recv_queue bztsrc_osz.Msg.recv_any bztsrc_osz.Msg.recv_loop
    bztsrc_osz.Msg.Ring.window bztsrc_osz.Msg.Post.wake_sender bztsrc_osz.Msg.recv_reply
    bztsrc_osz.Msg.find_reply
recv_runs = (refl, refl, refl)

two_notes-IsValid : IsValid two_notes
two_notes-IsValid = record { start = (omega arith, omega arith); end = (omega arith, omega arith) }

full_ring-IsValid : IsValid full_ring
full_ring-IsValid = record { start = (omega arith, omega arith); end = (omega arith, omega arith) }

recv_queue-Received_example :
    (q' : Mq) × (r : Option Message) × (recv_queue two_notes 0 ≡ some (q', r))
    × IsValid q'
    × Received (first_open (pending two_notes)) r (pending q')
recv_queue-Received_example = recv_queue-Received two_notes two_notes-IsValid

enqueue-Sent_example :
    (s' : Tasks) × (enqueue (λ s. s) (with_queue two_notes) 5 6 (note 7) (λ i. i) 0 0
      ≡ some (s', 5 * 65536 + next_serial two_notes))
    × Sent (with_queue two_notes) s' 5 6 (note 7) 0
enqueue-Sent_example =
    enqueue-Sent (λ s. s) (with_queue two_notes) 5 6 (note 7) (λ i. i) 0 0 1 two_notes-IsValid
      (omega arith) refl refl
