-- ===== src/Sched/Queue/Core.antt =====
-- All queues of a core, the timer queue with them, under sched_add, sched_remove and sched_block. The timer queue is
-- linked by `next` alone: sched_delay does not keep the `prev` links of its tasks.
use mathlib.Core.Path.{subst}
use mathlib.Core.Bool.{false≢true}
use bztsrc_osz.Prelude.{
  ==_iff, ℕ, ◌≡◌, ◌≢◌, refl, sym, ◌∙◌, ◌==◌, Bool, true, false, List, [], ◌∷◌, arith,
}
use bztsrc_osz.Sched.State.{Sched, Tcb, direct, running, blocked, is_bad}
use bztsrc_osz.Sched.Queue.{sched_add, sched_remove, sched_block, push_blocked, set_prev_of}
use bztsrc_osz.Sched.Queue.Chain.{has, has_apart, beq_false}
use bztsrc_osz.Sched.Queue.Push.{not-has-zero, has-erase, Unlinked-other}
use bztsrc_osz.Sched.Queue.Links.{Removed, sched_remove-Removed}
use bztsrc_osz.Sched.Queue.Queues.{Queues, without, in_front, outside, sched_remove-Queues}
use bztsrc_osz.Sched.Queue.Front.{IsOutside}
use bztsrc_osz.Sched.Queue.Block.{
  marked, Queues-frame, sched_block-valid, sched_add-Queues, sched_block-Queues,
}

-- From `h` on the `next` links lead through the tasks of the list to 0.
abbrev pub Nexts : (ℕ → Tcb) → ℕ → List ℕ → Type 0
Nexts t h [] = h ≡ 0
Nexts t h (x ∷ xs) = (h ≡ x) × (x ≢ 0) × Nexts t (t x).next xs

Nexts-frame :
    (t t' : ℕ → Tcb) (h : ℕ) (xs : List ℕ)
    → ((a : ℕ) → has a xs ≡ true → (t' a).next ≡ (t a).next)
    → Nexts t h xs
    → Nexts t' h xs
Nexts-frame t t' h [] same c = c
Nexts-frame t t' h (x ∷ xs) same c =
    let rest : Nexts t' (t x).next xs =
      Nexts-frame t t' (t x).next xs (λ a i. same a (ground arith)) c.2 in
    (c.0, c.1, rw (same x (ground arith)) rest)

-- A task that is in another queue is not the head.
Nexts-head : (t : ℕ → Tcb) (h p : ℕ) (xs : List ℕ) → Nexts t h xs → p ≢ 0 → has p xs ≡ false → h ≢ p
Nexts-head t h p [] c nz o e = nz (sym e ∙ c)
Nexts-head t h p (x ∷ xs) c nz o e = has_apart x p (x ∷ xs) (ground arith) o (sym c.0 ∙ e)

-- Core `c` has the active queues `act`, the blocked queue `blk` and the timer queue `tq`; no task is in two places.
pub record CoreQueues (s : Sched) (c : ℕ) (act : ℕ → List ℕ) (blk tq : List ℕ) : Type 0 where
  pub queues : Queues s c act blk
  pub timer : Nexts s.tcb (s.ccb c).hd_timerq tq
  pub apart_active : (i a : ℕ) → has a tq ≡ true → has a (act i) ≡ false
  pub apart_blocked : (a : ℕ) → has a tq ≡ true → has a blk ≡ false

-- A task of another queue is not in the timer queue.
not_in_timer :
    (p : ℕ) (xs tq : List ℕ)
    → (has p tq ≡ true → has p xs ≡ false)
    → has p xs ≡ true
    → has p tq ≡ false
not_in_timer p xs tq apart i = go (has p tq) apart
  where
    go : (b : Bool) → (b ≡ true → has p xs ≡ false) → b ≡ false
    go true h = absurd (false≢true (sym (h refl) ∙ i))
    go false h = refl

module _ (s : Sched) (act : ℕ → List ℕ) (blk tq : List ℕ) (p : ℕ) where
  abbrev core : ℕ
  core = (s.tcb p).cpuid

  abbrev level : ℕ
  level = (s.tcb p).priority

  -- A task of the active queue is no head of the timer queue.
  head_differs :
      CoreQueues s core act blk tq → has p (act level) ≡ true → (s.ccb core).hd_timerq ≢ p
  head_differs q inside =
      let zero_out : has 0 (act level) ≡ false =
        not-has-zero s.tcb 0 ((s.ccb core).hd_active level) (act level) (q.queues.active level) in
      Nexts-head s.tcb (s.ccb core).hd_timerq p tq q.timer
        (has_apart p 0 (act level) inside zero_out)
        (not_in_timer p (act level) tq (q.apart_active level p) inside)

  without_apart :
      CoreQueues s core act blk tq
      → (i a : ℕ) → has a tq ≡ true
      → has a (without act level p i) ≡ false
  without_apart q i a m = ground (
    arith,
    q.apart_active i a m,
    q.apart_active level a m,
    has-erase a p (act level) (q.apart_active level a m),
  )

  -- A valid call of sched_remove takes a task out of the active queue of its priority, and leaves the
  -- order of the other tasks and every other queue of the core, the timer queue too, as they were. Before and after
  -- it no task is in two queues of the core.
  pub sched_remove-CoreQueues :
      is_bad s (s.tcb p) ≡ false
      → CoreQueues s core act blk tq
      → has p (act level) ≡ true
      → CoreQueues (sched_remove s (direct p)) core (without act level p) blk tq
  sched_remove-CoreQueues good q inside =
      let r : Removed s (sched_remove s (direct p)) p core = sched_remove-Removed s p good in
      record {
        queues = sched_remove-Queues s act blk p good q.queues inside;
        timer =
            rw (r.timer, beq_false (s.ccb core).hd_timerq p (head_differs q inside))
              (Nexts-frame s.tcb (sched_remove s (direct p)).tcb (s.ccb core).hd_timerq tq
                (λ a m.
                  (outside s act blk p q.queues inside (sched_remove s (direct p)) r a
                    (q.apart_active level a m)).0)
                q.timer);
        apart_active = without_apart q;
        apart_blocked = q.apart_blocked;
      }

  sched_add-next :
      (a : ℕ)
      → is_bad s (s.tcb p) ≡ false
      → a ≢ p
      → ((sched_add s (direct p)).tcb a).next ≡ (s.tcb a).next
  unfolding sched_add set_prev_of
  sched_add-next a good ne = rw good (ground arith)

  sched_add-timer :
      is_bad s (s.tcb p) ≡ false
      → ((sched_add s (direct p)).ccb core).hd_timerq ≡ (s.ccb core).hd_timerq
  unfolding sched_add set_prev_of
  sched_add-timer good = rw good (ground arith)

  -- A valid call of sched_add puts a task that is in no queue of the core in front of the active queue of its
  -- priority, as a running one, and leaves every other queue of the core, the timer queue too, as it was. Before and
  -- after it no task is in two queues of the core.
  pub sched_add-CoreQueues :
      is_bad s (s.tcb p) ≡ false
      → CoreQueues s core act blk tq
      → IsOutside act blk p
      → has p tq ≡ false
      → CoreQueues (sched_add s (direct p)) core (in_front act level p) blk tq
        × (((sched_add s (direct p)).tcb p).state ≡ running)
  sched_add-CoreQueues good q out off =
      let (queues, state) = sched_add-Queues s p act blk good q.queues out in
      (
        record {
          queues = queues;
          timer = rw (sched_add-timer good) (
              Nexts-frame s.tcb (sched_add s (direct p)).tcb (s.ccb core).hd_timerq tq
                (λ a m. sched_add-next a good (has_apart a p tq m off)) q.timer);
          apart_active = λ i a m. ground (
            arith,
            q.apart_active i a m,
            q.apart_active level a m,
            beq_false a p (has_apart a p tq m off),
          );
          apart_blocked = q.apart_blocked;
        },
        state,
      )

-- push_blocked changes no link to the next task but that of its own.
push_blocked-next :
    (s : Sched) (c p a : ℕ) → a ≢ p → ((push_blocked s c (direct p)).tcb a).next ≡ (s.tcb a).next
unfolding push_blocked set_prev_of
push_blocked-next s c p a ne = ground arith

push_blocked-timer :
    (s : Sched) (c p : ℕ) → ((push_blocked s c (direct p)).ccb c).hd_timerq ≡ (s.ccb c).hd_timerq
unfolding push_blocked set_prev_of
push_blocked-timer s c p = ground arith

-- The timer queue under the parts of sched_block.
block_timer :
    (s : Sched) (act : ℕ → List ℕ) (blk tq : List ℕ) (p : ℕ)
    → is_bad s (s.tcb p) ≡ false
    → CoreQueues s (s.tcb p).cpuid act blk tq
    → has p (act (s.tcb p).priority) ≡ true
    → let s1 = sched_remove (marked s p) (direct p) in
      Nexts
        (push_blocked s1 (s.tcb p).cpuid (direct p)).tcb
        ((push_blocked s1 (s.tcb p).cpuid (direct p)).ccb (s.tcb p).cpuid).hd_timerq
        tq
block_timer s act blk tq p good q inside =
    let c : ℕ = (s.tcb p).cpuid in
    let n : ℕ = (s.tcb p).priority in
    let here : (p == p) ≡ true = (==_iff p p).1 refl in
    let ok : is_bad (marked s p) ((marked s p).tcb p) ≡ false = ground (arith, here) in
    let s1 : Sched = sched_remove (marked s p) (direct p) in
    let same : ((marked s p).tcb p).cpuid ≡ c = ground (arith, here) in
    let r : Removed (marked s p) s1 p c =
      subst (λ k. Removed (marked s p) s1 p k) same (sched_remove-Removed (marked s p) p ok) in
    let k : Queues (marked s p) c act blk =
      Queues-frame s (marked s p) c act blk (λ a. ground arith) refl q.queues in
    let links : (a : ℕ) → has a tq ≡ true → (s1.tcb a).next ≡ (s.tcb a).next = λ a m.
      let o : has a (act n) ≡ false = q.apart_active n a m in
      let ne : a ≢ p = λ e. has_apart p a (act n) inside o (sym e) in
      (r.links a ne).0
      ∙ (Unlinked-other (marked s p).tcb r.mid ((s.ccb c).hd_active n) p a (act n) r.unlinked
          (k.active n) inside o).0
      ∙ ground (arith, beq_false a p ne) in
    let head : (s1.ccb c).hd_timerq ≡ (s.ccb c).hd_timerq =
      r.timer
      ∙ ground (arith, beq_false (s.ccb c).hd_timerq p (head_differs s act blk tq p q inside)) in
    let off : has p tq ≡ false = not_in_timer p (act n) tq (q.apart_active n p) inside in
    rw (push_blocked-timer s1 c p, head)
      (Nexts-frame s.tcb (push_blocked s1 c (direct p)).tcb (s.ccb c).hd_timerq tq
        (λ a m. push_blocked-next s1 c p a (has_apart a p tq m off) ∙ links a m) q.timer)

-- A valid call of sched_block for a running task takes it out of the active queue of its priority to the
-- head of the blocked queue of its core, as a blocked one, and leaves the order of all other tasks of the active
-- queues, the blocked queue and the timer queue of the core. Before and after it no task is in two of these.
pub sched_block-CoreQueues :
    (s : Sched) (p : ℕ) (act : ℕ → List ℕ) (blk tq : List ℕ)
    → is_bad s (s.tcb p) ≡ false
    → (s.tcb p).state ≡ running
    → CoreQueues s (s.tcb p).cpuid act blk tq
    → has p (act (s.tcb p).priority) ≡ true
    → CoreQueues
        (sched_block s (direct p))
        (s.tcb p).cpuid
        (without act (s.tcb p).priority p)
        (p ∷ blk)
        tq
      × (((sched_block s (direct p)).tcb p).state ≡ blocked)
sched_block-CoreQueues s p act blk tq good runs q inside =
    let (queues, state) = sched_block-Queues s p act blk good runs q.queues inside in
    let off : has p tq ≡ false =
      not_in_timer p (act (s.tcb p).priority) tq (q.apart_active (s.tcb p).priority p) inside in
    (
      record {
        queues = queues;
        timer = rw (sched_block-valid s p good runs) (block_timer s act blk tq p good q inside);
        apart_active = without_apart s act blk tq p q;
        apart_blocked =
            λ a m. ground (arith, q.apart_blocked a m, beq_false a p (has_apart a p tq m off));
      },
      state,
    )
