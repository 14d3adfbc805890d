-- ===== src/Msg/Send.antt =====
-- A message that is sent, against the list of the messages that wait.
use bztsrc_osz.Prelude.{
  ℕ, suc, ◌-◌, ◌<◌, ◌≡◌, ◌≢◌, refl, sym, ap, ◌∙◌, ◌==◌, false, some, [], ◌∷◌, ◌++◌, arith,
}
use bztsrc_osz.Sched.State.{update}
use bztsrc_osz.Msg.{
  Message, Mq, mq_max, next_slot, off_header, advanced, settle_slot, page_of, next_serial,
}
use bztsrc_osz.Msg.Ring.{
  place, window, count, pending, IsValid, next-InRing, count_bound, window-snoc, window-update,
}

-- The ring with a message written to the slot at its end, as deliver leaves it.
abbrev pub filled : Mq → Message → Mq
filled q m = record (advanced q) { mq_serial = next_serial q; slot = update q.slot q.mq_end m }

-- There is room for one more message.
abbrev pub HasRoom : Mq → Type 0
HasRoom q = next_slot q.mq_end ≢ q.mq_start

room_count :
    (q : Mq) (m : Message)
    → IsValid q
    → HasRoom q
    → (count (filled q m) ≡ suc (count q)) × (suc (count q) < mq_max - 1)
room_count q m v room = (ground (arith, v.start, v.end), ground (arith, v.start, v.end))

pub filled-IsValid : (q : Mq) (m : Message) → IsValid q → IsValid (filled q m)
filled-IsValid q m v = record { start = v.start; end = next-InRing q.mq_end v.end }

-- Claiming a slot of a full ring makes it look empty.
pub advanced-pending : (q : Mq) → next_slot q.mq_end ≡ q.mq_start → pending (advanced q) ≡ []
unfolding window
advanced-pending q full =
    let none_left : count (advanced q) ≡ 0 = ground (arith, full) in rw none_left refl

pub filled-pending :
    (q : Mq) (m : Message) → IsValid q → HasRoom q → pending (filled q m) ≡ pending q ++ (m ∷ [])
filled-pending q m v room =
    let (up, few) = room_count q m v room in
    let at : place q.mq_start (count q) ≡ q.mq_end = (count_bound q v).1 in
    let g : ℕ → Message = update q.slot (place q.mq_start (count q)) m in
    let e : window g q.mq_start (suc (count q))
        ≡ window g q.mq_start (count q) ++ (g (place q.mq_start (count q)) ∷ []) =
      window-snoc g q.mq_start (count q) v.start (omega (arith, few)) in
    let old : window g q.mq_start (count q) ≡ pending q =
      window-update q.slot q.mq_start (count q) m v.start (omega (arith, few)) in
    let new : g (place q.mq_start (count q)) ≡ m = ground arith in
    ap (λ k. window (update q.slot k m) q.mq_start (count (filled q m))) (sym at)
    ∙ ap (window g q.mq_start) up
    ∙ e
    ∙ rw (old, new) refl

not_zero : (i : ℕ) → 0 < i → (i == 0) ≡ false
not_zero i h = ground arith

-- Indices in the ring stay as they are.
pub off_header-same : (q : Mq) → IsValid q → off_header q ≡ q
off_header-same q v = rw (not_zero q.mq_start v.start.0, not_zero q.mq_end v.end.0) refl

-- With the page of the slot there, the slot is the one at the end.
pub settle_slot-present :
    (q : Mq) (j fresh p : ℕ) → q.pages (page_of j) ≡ some p → settle_slot q j fresh ≡ (q, j)
unfolding settle_slot
settle_slot-present q j fresh p e = rw (e, settle_slot) refl
