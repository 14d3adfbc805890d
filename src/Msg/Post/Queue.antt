-- ===== src/Msg/Post/Queue.antt =====
-- msg_send as seen by the queue of the receiver.
use bztsrc_osz.Prelude.{
  ℕ, ◌+◌, ◌*◌, ◌≡◌, ◌≢◌, refl, ap, ◌∙◌, ◌==◌, true, false, some, [], ◌∷◌, ◌++◌, if◌then◌else◌,
  arith, ==_iff,
}
use bztsrc_osz.Sched.State.{Sched, direct, update}
use bztsrc_osz.Sched.Queue.{sched_awake, sched_block}
use bztsrc_osz.Sched.Pick.Level.{sched_pick_ends}
use bztsrc_osz.Msg.{Message, Mq, next_slot, advanced, page_of, next_serial}
use bztsrc_osz.Msg.Ring.{pending, IsValid}
use bztsrc_osz.Msg.Send.{
  filled, HasRoom, filled-pending, filled-IsValid, advanced-pending, off_header-same,
  settle_slot-present,
}
use bztsrc_osz.Msg.Post.{Tasks, write_mq, deliver, fill_slot, wait_to_send, enqueue_in, enqueue}

-- The message as it stands in the queue.
abbrev pub sent : Tasks → ℕ → ℕ → Message → ℕ → Message
sent s src dst m serial = record m {
  sender = src;
  is_resp = false;
  serial = if serial == 0 then src * 65536 + next_serial (s.mq dst) else serial;
}

-- What a send of `m` leaves: the message at the end of the queue of the receiver, which stays valid, and every
-- other queue as it was.
pub record Sent (s s' : Tasks) (src dst : ℕ) (m : Message) (serial : ℕ) : Type 0 where
  pub queue : pending (s'.mq dst) ≡ pending (s.mq dst) ++ (sent s src dst m serial ∷ [])
  pub valid : IsValid (s'.mq dst)
  pub others : (p : ℕ) → p ≢ dst → s'.mq p ≡ s.mq p
  pub waiting : s'.blksend ≡ s.blksend

enqueue_valid :
    (drivers_ready : Sched → Sched) (s : Tasks) (src dst : ℕ) (m : Message) (from : ℕ → ℕ)
    (fresh serial : ℕ)
    → IsValid (s.mq dst)
    → enqueue drivers_ready s src dst m from fresh serial
      ≡ enqueue_in drivers_ready s src dst (s.mq dst) m from fresh serial
unfolding enqueue
enqueue_valid dr s src dst m from fresh serial v =
    ap (λ q. enqueue_in dr s src dst q m from fresh serial) (off_header-same (s.mq dst) v)

-- enqueue for a valid queue with room.
enqueue_room :
    (drivers_ready : Sched → Sched) (s : Tasks) (src dst : ℕ) (m : Message) (from : ℕ → ℕ)
    (fresh serial p : ℕ)
    → IsValid (s.mq dst)
    → HasRoom (s.mq dst)
    → (s.mq dst).pages (page_of (s.mq dst).mq_end) ≡ some p
    → enqueue drivers_ready s src dst m from fresh serial
      ≡ some (fill_slot s src dst (advanced (s.mq dst)) (s.mq dst).mq_end m from serial)
unfolding enqueue_in
enqueue_room dr s src dst m from fresh serial p v room there =
    let free : (next_slot (s.mq dst).mq_end == (s.mq dst).mq_start) ≡ false =
      ground (arith, room) in
    enqueue_valid dr s src dst m from fresh serial v
    ∙ rw (settle_slot-present (advanced (s.mq dst)) (s.mq dst).mq_end fresh p there, free) refl

fill_slot_scalar :
    (s : Tasks) (src dst : ℕ) (q : Mq) (j : ℕ) (m : Message) (from : ℕ → ℕ) (serial : ℕ)
    → m.is_ptr ≡ false
    → fill_slot s src dst q j m from serial ≡ deliver s src dst q j m serial
unfolding fill_slot
fill_slot_scalar s src dst q j m from serial scalar = ground (arith, scalar)

-- The part of msg_send behind its checks, for a message without a buffer and a valid queue with room whose next
-- page is there: it ends, puts the message behind those that wait in the queue of the receiver, which stays
-- valid, and changes no other queue and nothing of the tasks that wait to send. The result names the message.
pub enqueue-Sent :
    (drivers_ready : Sched → Sched) (s : Tasks) (src dst : ℕ) (m : Message) (from : ℕ → ℕ)
    (fresh serial p : ℕ)
    → IsValid (s.mq dst)
    → HasRoom (s.mq dst)
    → (s.mq dst).pages (page_of (s.mq dst).mq_end) ≡ some p
    → m.is_ptr ≡ false
    → (s' : Tasks) × (enqueue drivers_ready s src dst m from fresh serial
        ≡ some (s', src * 65536 + next_serial (s.mq dst)))
      × Sent s s' src dst m serial
unfolding deliver
enqueue-Sent dr s src dst m from fresh serial p v room there scalar =
    let here : (dst == dst) ≡ true = (==_iff dst dst).1 refl in
    let q' : Mq = filled (s.mq dst) (sent s src dst m serial) in
    (
      record (write_mq s dst q') { sched = sched_awake s.sched (direct dst) },
      enqueue_room dr s src dst m from fresh serial p v room there
          ∙ ap some (
              fill_slot_scalar s src dst (advanced (s.mq dst)) (s.mq dst).mq_end m from serial
                scalar),
      record {
        queue = rw here (filled-pending (s.mq dst) (sent s src dst m serial) v room);
        valid = rw here (filled-IsValid (s.mq dst) (sent s src dst m serial) v);
        others = λ x ne. ground (arith, ne);
        waiting = refl;
      },
    )

-- The part of msg_send behind its checks, for a valid queue that is full, with the page of the slot there, and a
-- sender that is not the receiver: it ends, the sender is the first to wait for the receiver, and the queue,
-- whose end has gone on to its start, is empty: every message that waited is lost.
pub enqueue_full :
    (drivers_ready : Sched → Sched) (s : Tasks) (src dst : ℕ) (m : Message) (from : ℕ → ℕ)
    (fresh serial p : ℕ)
    → IsValid (s.mq dst)
    → next_slot (s.mq dst).mq_end ≡ (s.mq dst).mq_start
    → (s.mq dst).pages (page_of (s.mq dst).mq_end) ≡ some p
    → src ≢ dst
    → (s' : Tasks) × (enqueue drivers_ready s src dst m from fresh serial ≡ some (s', 0))
      × (pending (s'.mq dst) ≡ [])
      × (s'.blksend dst ≡ src)
unfolding enqueue_in wait_to_send
enqueue_full dr s src dst m from fresh serial p v full there ne =
    let here : (dst == dst) ≡ true = (==_iff dst dst).1 refl in
    let other : (src == dst) ≡ false = ground (arith, ne) in
    let (sched, run) = sched_pick_ends dr (sched_block s.sched (direct src)) in
    let over : (next_slot (s.mq dst).mq_end == (s.mq dst).mq_start) ≡ true = ground (arith, full) in
    let nothing : pending (advanced (s.mq dst)) ≡ [] = advanced-pending (s.mq dst) full in
    (
      record (write_mq s dst (advanced (s.mq dst))) {
        sched = sched;
        blksend = update (update s.blksend src (s.blksend dst)) dst src;
      },
      enqueue_valid dr s src dst m from fresh serial v
          ∙ rw
              (
                settle_slot-present (advanced (s.mq dst)) (s.mq dst).mq_end fresh p there,
                over,
                other,
                run,
              )
              refl,
      rw here nothing,
      rw here refl,
    )
