-- ===== src/Msg/Receive.antt =====
-- A receive of any message, against the list of the messages that wait.
use mathlib.Core.Path.{subst}
use bztsrc_osz.Prelude.{
  Bool-cases, ℕ, zero, suc, ◌-◌, ◌<◌, ◌≡◌, refl, sym, ◌∙◌, ◌==◌, true, false, Option, none, some,
  List, [], ◌∷◌, if◌then◌else◌, arith, inl, inr, ℕ_discrete, ==_iff,
}
use bztsrc_osz.Msg.{Message, Mq, mq_max, next_slot, recv_loop, taken, recv_any, recv_queue}
use bztsrc_osz.Msg.Ring.{window, count, pending, IsValid, next-InRing, count_bound}

-- The first message that was not answered already, and those behind it.
abbrev pub first_open : List Message → Option (Message × List Message)
first_open [] = none
first_open (m ∷ ms) = let rest = first_open ms in if m.is_resp then rest else some (m, ms)

-- The ring behind its first message.
abbrev pub shifted : Mq → Mq
shifted q = record q { mq_start = next_slot q.mq_start }

shifted-IsValid : (q : Mq) → IsValid q → IsValid (shifted q)
shifted-IsValid q v = record { start = next-InRing q.mq_start v.start; end = v.end }

shifted-count : (q : Mq) (n : ℕ) → IsValid q → count q ≡ suc n → count (shifted q) ≡ n
shifted-count q n v e = ground arith

count_zero : (q : Mq) → IsValid q → count q ≡ 0 → q.mq_start ≡ q.mq_end
count_zero q v e = ground arith

count_same : (q : Mq) → q.mq_start ≡ q.mq_end → count q ≡ 0
count_same q e = ground arith

pending-shifted :
    (q : Mq) (n : ℕ)
    → IsValid q
    → count q ≡ suc n
    → pending q ≡ q.slot q.mq_start ∷ pending (shifted q)
unfolding window
pending-shifted q n v e = rw (e, shifted-count q n v e) refl

pending_none : (q : Mq) → count q ≡ 0 → pending q ≡ []
unfolding window
pending_none q e = rw e refl

-- What the loop leaves: the first open message and the ring behind it, or an empty ring.
Stopped : Option (Message × List Message) → Message → List Message → Type 0
Stopped none m ms = (m.is_resp ≡ true) × (ms ≡ [])
Stopped (some (x, rest)) m ms = (m ≡ x) × (m.is_resp ≡ false) × (ms ≡ rest)

all_answered :
    (m : Message) (xs rest : List Message)
    → m.is_resp ≡ true
    → xs ≡ m ∷ rest
    → rest ≡ []
    → first_open xs ≡ none
all_answered m xs rest h e z = rw (e, z) (ground (arith, h))

first_waits :
    (m : Message) (xs rest : List Message)
    → m.is_resp ≡ false
    → xs ≡ m ∷ rest
    → first_open xs ≡ some (m, rest)
first_waits m xs rest h e = rw e (ground (arith, h))

recv_loop-Stopped :
    (fuel n : ℕ) (q : Mq)
    → IsValid q
    → count q ≡ suc n
    → n < fuel
    → (q' : Mq) × (m : Message) × (recv_loop fuel q ≡ some (q', m))
      × IsValid q'
      × Stopped (first_open (pending q)) m (pending q')
unfolding recv_loop Stopped
recv_loop-Stopped zero n q v e h = absurd (omega arith)
recv_loop-Stopped (suc fuel) n q v e h =
    let m : Message = q.slot q.mq_start in
    let ps : pending q ≡ m ∷ pending (shifted q) = pending-shifted q n v e in
    let left : count (shifted q) ≡ n = shifted-count q n v e in
    elim (Bool-cases m.is_resp) [
      | inr waits ↦ (
        shifted q,
        m,
        rw waits refl,
        shifted-IsValid q v,
        subst (λ o. Stopped o m (pending (shifted q)))
            (sym (first_waits m (pending q) (pending (shifted q)) waits ps)) (refl, waits, refl),
      )
      | inl answered ↦ elim (ℕ_discrete n 0) [
        | yes last ↦
            let at_end : next_slot q.mq_start ≡ q.mq_end =
              count_zero (shifted q) (shifted-IsValid q v) (left ∙ last) in
            let nothing : pending (shifted q) ≡ [] = pending_none (shifted q) (left ∙ last) in
            (
              shifted q,
              m,
              rw (answered, (==_iff (next_slot q.mq_start) q.mq_end).1 at_end) refl,
              shifted-IsValid q v,
              subst (λ o. Stopped o m (pending (shifted q)))
                  (sym (all_answered m (pending q) (pending (shifted q)) answered ps nothing))
                  (answered, nothing),
            )
        | no no_more ↦
            let up : n ≡ suc (n - 1) = omega arith in
            let (q', m', run, v', stop) =
              recv_loop-Stopped fuel (n - 1) (shifted q) (shifted-IsValid q v) (left ∙ up)
                (omega arith) in
            let apart : (next_slot q.mq_start == q.mq_end) ≡ false =
              ground (arith, count_same (shifted q), left, no_more) in
            (q', m', rw (answered, apart) run, v', rw (ps, answered) stop)
      ]
    ]

-- What a receive says of the messages that wait: the first open one is returned, and leaves with those before
-- it; without one none is returned, and all leave.
abbrev pub Received : Option (Message × List Message) → Option Message → List Message → Type 0
Received none r ms = (r ≡ none) × (ms ≡ [])
Received (some (m, rest)) r ms = (r ≡ some m) × (ms ≡ rest)

Stopped-Received :
    (o : Option (Message × List Message)) (m : Message) (ms : List Message)
    → Stopped o m ms
    → Received o (if m.is_resp then none else some m) ms
unfolding Stopped
Stopped-Received none m ms s = rw s.0 (refl, s.1)
Stopped-Received (some (x, rest)) m ms s = (ground (arith, s.1, s.0), s.2)

-- The counters of the header are not in the way.
closed : Mq → Message → Mq
closed q m = if m.is_resp then q else taken q m

closed-pending :
    (q : Mq) (m : Message) → IsValid q → (pending (closed q m) ≡ pending q) × IsValid (closed q m)
unfolding closed
closed-pending q m v = elim (Bool-cases m.is_resp) [
  | inl answered ↦ rw answered (refl, v)
  | inr waits ↦ rw waits (refl, record { start = v.start; end = v.end })
]

recv_any-Received :
    (n : ℕ) (q : Mq)
    → IsValid q
    → count q ≡ suc n
    → (q' : Mq) × (r : Option Message) × (recv_any q ≡ some (q', r))
      × IsValid q'
      × Received (first_open (pending q)) r (pending q')
unfolding recv_any closed
recv_any-Received n q v e =
    let (q', m, run, v', stop) =
      recv_loop-Stopped mq_max n q v e (omega (arith, count_bound q v, e)) in
    let k : (pending (closed q' m) ≡ pending q') × IsValid (closed q' m) = closed-pending q' m v' in
    (
      closed q' m,
      if m.is_resp then none else some m,
      ground (arith, run),
      k.1,
      rw k.0 (Stopped-Received (first_open (pending q)) m (pending q') stop),
    )

-- A receive of any message takes the oldest message that was not answered out of a valid ring, with the
-- answered ones before it, and leaves the others in order. It returns none when there is none, and then the
-- ring is empty. It always ends, and the ring stays valid.
pub recv_queue-Received :
    (q : Mq)
    → IsValid q
    → (q' : Mq) × (r : Option Message) × (recv_queue q 0 ≡ some (q', r))
      × IsValid q'
      × Received (first_open (pending q)) r (pending q')
unfolding recv_queue
recv_queue-Received q v = elim (ℕ_discrete q.mq_start q.mq_end) [
  | yes same ↦
      let nothing : pending q ≡ [] = pending_none q (count_same q same) in
      (q, none, rw ((==_iff q.mq_start q.mq_end).1 same) refl, v, rw nothing (refl, refl))
  | no apart ↦
      let some_left : count q ≡ suc (count q - 1) = ground (arith, count_zero q v) in
      let (q', r, run, v', out) = recv_any-Received (count q - 1) q v some_left in
      (q', r, ground (arith, run, apart), v', out)
]
