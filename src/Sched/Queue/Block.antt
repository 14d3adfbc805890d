-- ===== src/Sched/Queue/Block.antt =====
-- A task enters the active queue (sched_add), or goes from there to the blocked queue (sched_block).
use mathlib.Core.Path.{subst}
use bztsrc_osz.Prelude.{
  ==_iff, ℕ, ◌≡◌, ◌≢◌, refl, sym, ◌∙◌, inl, inr, ◌==◌, true, false, List, ◌∷◌, arith, ℕ_discrete,
}
use bztsrc_osz.Sched.State.{Sched, Tcb, direct, running, blocked, update, write, write_ccb, is_bad}
use bztsrc_osz.Sched.Queue.{sched_add, sched_remove, sched_block, push_blocked, set_prev_of}
use bztsrc_osz.Sched.Queue.Chain.{has, Chain, has_apart, beq_false, Chain-head, Chain-frame}
use bztsrc_osz.Sched.Queue.Push.{not-has-zero, not-has-erase, Pushed}
use bztsrc_osz.Sched.Queue.Links.{
  SameButLinks, set_prev_of-prev, set_prev_of-next, set_prev_of-SameButLinks, sched_remove-Removed,
}
use bztsrc_osz.Sched.Queue.Queues.{Queues, without, in_front, sched_remove-Queues}
use bztsrc_osz.Sched.Queue.Front.{IsOutside, active_front, waiting_front}

-- A task outside a chain is not its head.
head_other :
    (t : ℕ → Tcb) (h p : ℕ) (xs : List ℕ) → Chain t 0 h xs → has p xs ≡ false → p ≢ 0 → h ≢ p
head_other t h p xs c o nz e = elim (Chain-head t 0 h xs c) [
  | inl z ↦ nz (sym e ∙ z)
  | inr i ↦ has_apart h p xs i o e
]

module _ (s : Sched) (p : ℕ) where
  abbrev core : ℕ
  core = (s.tcb p).cpuid

  abbrev level : ℕ
  level = (s.tcb p).priority

  abbrev head : ℕ
  head = (s.ccb core).hd_active level

  -- The state of sched_add before the link of the old head is set.
  abbrev added : Sched
  added =
      write_ccb (write s (direct p) (record (s.tcb p) { state = running; prev = 0; next = head }))
        core (record (s.ccb core) { hd_active = update (s.ccb core).hd_active level p })

  sched_add-valid :
      is_bad s (s.tcb p) ≡ false → sched_add s (direct p) ≡ set_prev_of added head (direct p)
  unfolding sched_add
  sched_add-valid good = rw good refl

  added-Pushed : head ≢ p → Pushed s.tcb (set_prev_of added head (direct p)).tcb p head
  added-Pushed ne = record {
    next_p = ground (arith, set_prev_of-next added head p p);
    prev_p = ground (arith, set_prev_of-prev added head p p);
    next_of = λ a na. ground (arith, set_prev_of-next added head p a);
    prev_of = λ a na. ground (arith, set_prev_of-prev added head p a);
  }

  -- A valid call of sched_add puts a task that is in no queue in front of the active queue of its
  -- priority, as a running one, and leaves the other active queues and the blocked queue.
  pub sched_add-Queues :
      (act : ℕ → List ℕ) (blk : List ℕ)
      → is_bad s (s.tcb p) ≡ false
      → Queues s core act blk
      → IsOutside act blk p
      → Queues (sched_add s (direct p)) core (in_front act level p) blk
        × (((sched_add s (direct p)).tcb p).state ≡ running)
  sched_add-Queues act blk good q out =
      let ne : head ≢ p =
        head_other s.tcb head p (act level) (q.active level) (out.not_active level) out.not_null in
      let k : SameButLinks added (set_prev_of added head (direct p)) =
        set_prev_of-SameButLinks added head p in
      rw (sched_add-valid good) (
        active_front s (set_prev_of added head (direct p)) core act blk p q out level
            (added-Pushed ne) (λ i. ground (arith, k.ccbs core)) (ground (arith, k.ccbs core)),
        ground (arith, k.state p),
      )

module _ (s : Sched) (c p : ℕ) where
  abbrev waiting_head : ℕ
  waiting_head = (s.ccb c).hd_blocked

  abbrev pushed : Sched
  pushed = write s (direct p) (record (s.tcb p) { next = waiting_head; prev = 0 })

  abbrev linked : Sched
  linked = set_prev_of pushed waiting_head (direct p)

  linked-Pushed : waiting_head ≢ p → Pushed s.tcb linked.tcb p waiting_head
  linked-Pushed ne = record {
    next_p = ground (arith, set_prev_of-next pushed waiting_head p p);
    prev_p = ground (arith, set_prev_of-prev pushed waiting_head p p);
    next_of = λ a na. ground (arith, set_prev_of-next pushed waiting_head p a);
    prev_of = λ a na. ground (arith, set_prev_of-prev pushed waiting_head p a);
  }

  -- A task that is in no queue goes to the head of the blocked queue.
  pub push_blocked-Queues :
      (act : ℕ → List ℕ) (blk : List ℕ)
      → Queues s c act blk
      → IsOutside act blk p
      → Queues (push_blocked s c (direct p)) c act (p ∷ blk)
        × ((a : ℕ) → ((push_blocked s c (direct p)).tcb a).state ≡ (s.tcb a).state)
  unfolding push_blocked
  push_blocked-Queues act blk q out =
      let ne : waiting_head ≢ p =
        head_other s.tcb waiting_head p blk q.waiting out.not_waiting out.not_null in
      let k : SameButLinks pushed linked = set_prev_of-SameButLinks pushed waiting_head p in
      (
        waiting_front s (write_ccb linked c (record (linked.ccb c) { hd_blocked = p })) c act blk p
            q out (linked-Pushed ne) (λ i. ground (arith, k.ccbs c)) (ground (arith, k.ccbs c)),
        λ a. ground (arith, k.state a),
      )

-- The order of the other tasks does not matter to the links, so neither does any change of their other
-- fields.
pub Queues-frame :
    (s s' : Sched) (c : ℕ) (act : ℕ → List ℕ) (blk : List ℕ)
    → ((a : ℕ) → ((s'.tcb a).next ≡ (s.tcb a).next) × ((s'.tcb a).prev ≡ (s.tcb a).prev))
    → s'.ccb c ≡ s.ccb c
    → Queues s c act blk
    → Queues s' c act blk
Queues-frame s s' c act blk same k q = record {
  active = λ i.
      rw k
        (Chain-frame s.tcb s'.tcb 0 ((s.ccb c).hd_active i) (act i) (λ a m. same a) (q.active i));
  waiting = rw k (Chain-frame s.tcb s'.tcb 0 (s.ccb c).hd_blocked blk (λ a m. same a) q.waiting);
  distinct = q.distinct;
  distinct_waiting = q.distinct_waiting;
  apart = q.apart;
  apart_waiting = q.apart_waiting;
}

-- A task that left its queue is in none.
without-IsOutside :
    (s : Sched) (c : ℕ) (act : ℕ → List ℕ) (blk : List ℕ) (n p : ℕ)
    → Queues s c act blk
    → has p (act n) ≡ true
    → IsOutside (without act n p) blk p
without-IsOutside s c act blk n p q inside = record {
  not_active = λ i. elim (ℕ_discrete i n) [
    | yes same ↦ rw ((==_iff i n).1 same) (not-has-erase p (act n) (q.distinct n))
    | no ne ↦ rw (beq_false i n ne) (q.apart n i p inside (λ e. ne (sym e)))
  ];
  not_waiting = q.apart_waiting n p inside;
  not_null =
      has_apart p 0 (act n) inside
        (not-has-zero s.tcb 0 ((s.ccb c).hd_active n) (act n) (q.active n));
}

-- The state of sched_block once the task is marked.
abbrev pub marked : Sched → ℕ → Sched
marked s p = write s (direct p) (record (s.tcb p) { state = blocked; blktime = s.clock_ticks })

pub sched_block-valid :
    (s : Sched) (p : ℕ)
    → is_bad s (s.tcb p) ≡ false
    → (s.tcb p).state ≡ running
    → sched_block s (direct p)
      ≡ push_blocked (sched_remove (marked s p) (direct p)) (s.tcb p).cpuid (direct p)
unfolding sched_block
sched_block-valid s p good runs = rw (good, runs) refl

-- sched_remove-Queues for a core and a level given by their numbers.
remove_at :
    (s : Sched) (act : ℕ → List ℕ) (blk : List ℕ) (p c n : ℕ)
    → is_bad s (s.tcb p) ≡ false
    → (s.tcb p).cpuid ≡ c
    → (s.tcb p).priority ≡ n
    → Queues s c act blk
    → has p (act n) ≡ true
    → Queues (sched_remove s (direct p)) c (without act n p) blk
remove_at s act blk p c n good ec en =
    subst
      (λ k.
        Queues s k act blk
        → has p (act n) ≡ true
        → Queues (sched_remove s (direct p)) k (without act n p) blk)
      ec
      (subst
        (λ m.
          Queues s (s.tcb p).cpuid act blk
          → has p (act m) ≡ true
          → Queues (sched_remove s (direct p)) (s.tcb p).cpuid (without act m p) blk)
        en (λ q i. sched_remove-Queues s act blk p good q i))

marked-removed :
    (s : Sched) (p : ℕ) (act : ℕ → List ℕ) (blk : List ℕ)
    → is_bad s (s.tcb p) ≡ false
    → Queues s (s.tcb p).cpuid act blk
    → has p (act (s.tcb p).priority) ≡ true
    → Queues
        (sched_remove (marked s p) (direct p))
        (s.tcb p).cpuid
        (without act (s.tcb p).priority p)
        blk
      × (((sched_remove (marked s p) (direct p)).tcb p).state ≡ blocked)
marked-removed s p act blk good q inside =
    let here : (p == p) ≡ true = (==_iff p p).1 refl in
    let ok : is_bad (marked s p) ((marked s p).tcb p) ≡ false = ground (arith, here) in
    (
      remove_at (marked s p) act blk p (s.tcb p).cpuid (s.tcb p).priority ok (ground (arith, here))
          (ground (arith, here))
          (Queues-frame s (marked s p) (s.tcb p).cpuid act blk (λ a. ground arith) refl q) inside,
      ground (arith, (sched_remove-Removed (marked s p) p ok).state p),
    )

-- A valid call of sched_block for a running task takes it out of the active queue of its priority to the
-- head of the blocked queue of its core, as a blocked one, and leaves the order of the other active and
-- blocked tasks.
pub sched_block-Queues :
    (s : Sched) (p : ℕ) (act : ℕ → List ℕ) (blk : List ℕ)
    → is_bad s (s.tcb p) ≡ false
    → (s.tcb p).state ≡ running
    → Queues s (s.tcb p).cpuid act blk
    → has p (act (s.tcb p).priority) ≡ true
    → Queues (sched_block s (direct p)) (s.tcb p).cpuid (without act (s.tcb p).priority p) (p ∷ blk)
      × (((sched_block s (direct p)).tcb p).state ≡ blocked)
sched_block-Queues s p act blk good runs q inside =
    let m : Queues (sched_remove (marked s p) (direct p)) (s.tcb p).cpuid
          (without act (s.tcb p).priority p) blk
        × (((sched_remove (marked s p) (direct p)).tcb p).state ≡ blocked) =
      marked-removed s p act blk good q inside in
    let r : Queues (push_blocked (sched_remove (marked s p) (direct p)) (s.tcb p).cpuid (direct p))
          (s.tcb p).cpuid (without act (s.tcb p).priority p) (p ∷ blk)
        × ((a : ℕ)
            → ((push_blocked (sched_remove (marked s p) (direct p)) (s.tcb p).cpuid (direct p)).tcb
                a).state
              ≡ ((sched_remove (marked s p) (direct p)).tcb a).state) =
      push_blocked-Queues (sched_remove (marked s p) (direct p)) (s.tcb p).cpuid p
        (without act (s.tcb p).priority p) blk m.0
        (without-IsOutside s (s.tcb p).cpuid act blk (s.tcb p).priority p q inside) in
    rw (sched_block-valid s p good runs) (r.0, r.1 p ∙ m.1)
