-- ===== src/Sched/Queue/Front.antt =====
-- A task put in front of a queue: sched_add, and the blocked queue of sched_block.
use mathlib.Core.Path.{subst}
use mathlib.Core.Bool.{false≢true}
use bztsrc_osz.Prelude.{
  ==_iff, Bool-cases, ℕ, ◌≡◌, ◌≢◌, refl, sym, ◌∙◌, inl, inr, ◌==◌, true, false, List, ◌∷◌,
  if◌then◌else◌, arith, ℕ_discrete,
}
use bztsrc_osz.Sched.State.{Sched, Tcb}
use bztsrc_osz.Sched.Queue.Chain.{has, Chain, has_apart, beq_false, Chain-head, Chain-frame}
use bztsrc_osz.Sched.Queue.Push.{not-has-zero, Pushed, Chain-push, Pushed-other}
use bztsrc_osz.Sched.Queue.Queues.{Queues, in_front}

-- Task `p` is in no queue, and is no null pid.
pub record IsOutside (act : ℕ → List ℕ) (blk : List ℕ) (p : ℕ) : Type 0 where
  pub not_active : (i : ℕ) → has p (act i) ≡ false
  pub not_waiting : has p blk ≡ false
  pub not_null : p ≢ 0

-- The tasks of a chain are not the head of another one that holds none of them.
chain_apart :
    (t : ℕ → Tcb) (h k a : ℕ) (xs ys : List ℕ)
    → Chain t 0 h xs
    → Chain t 0 k ys
    → has a ys ≡ true
    → has a xs ≡ false
    → a ≢ h
chain_apart t h k a xs ys c d m o e = elim (Chain-head t 0 h xs c) [
  | inl z ↦ has_apart a 0 ys m (not-has-zero t 0 k ys d) (e ∙ z)
  | inr i ↦ has_apart h a xs i o (sym e)
]

module _ (s s' : Sched) (c : ℕ) (act : ℕ → List ℕ) (blk : List ℕ) (p : ℕ) (q : Queues s c act blk)
    (out : IsOutside act blk p) where
  module _ (n : ℕ) (u : Pushed s.tcb s'.tcb p ((s.ccb c).hd_active n))
      (heads : (i : ℕ) → (s'.ccb c).hd_active i ≡ (if i == n then p else (s.ccb c).hd_active i))
      (wait : (s'.ccb c).hd_blocked ≡ (s.ccb c).hd_blocked) where
    abbrev hd : ℕ
    hd = (s.ccb c).hd_active n

    queue : (i : ℕ) → Chain s'.tcb 0 ((s'.ccb c).hd_active i) (in_front act n p i)
    queue i = elim (ℕ_discrete i n) [
      | yes same ↦
          subst (λ k. Chain s'.tcb 0 ((s'.ccb c).hd_active k) (in_front act n p k)) (sym same)
            (rw (heads n, (==_iff n n).1 refl)
              (Chain-push s.tcb s'.tcb hd p (act n) u (q.active n) (out.not_active n) out.not_null
                (q.distinct n)))
      | no ne ↦
          rw (heads i, beq_false i n ne)
            (Chain-frame s.tcb s'.tcb 0 ((s.ccb c).hd_active i) (act i)
              (λ a m.
                Pushed-other s.tcb s'.tcb hd p a u (has_apart a p (act i) m (out.not_active i)) (
                  chain_apart s.tcb hd ((s.ccb c).hd_active i) a (act n) (act i) (q.active n)
                    (q.active i) m (q.apart i n a m ne)))
              (q.active i))
    ]

    -- No task of the blocked queue is in an active queue.
    not_active_of : (a : ℕ) → has a blk ≡ true → has a (act n) ≡ false
    not_active_of a m = elim (Bool-cases (has a (act n))) [
      | inl both ↦ absurd (false≢true (sym (q.apart_waiting n a both) ∙ m))
      | inr o ↦ o
    ]

    blocked_queue : Chain s'.tcb 0 (s'.ccb c).hd_blocked blk
    blocked_queue = rw wait (
        Chain-frame s.tcb s'.tcb 0 (s.ccb c).hd_blocked blk
          (λ a m. Pushed-other s.tcb s'.tcb hd p a u (has_apart a p blk m out.not_waiting) (
            chain_apart s.tcb hd (s.ccb c).hd_blocked a (act n) blk (q.active n) q.waiting m
              (not_active_of a m)))
          q.waiting)

    pub active_front : Queues s' c (in_front act n p) blk
    active_front = record {
      active = queue;
      waiting = blocked_queue;
      distinct = λ i. elim (Bool-cases (i == n)) [
        | inl at ↦ rw at (out.not_active n, q.distinct n)
        | inr off ↦ rw off (q.distinct i)
      ];
      distinct_waiting = q.distinct_waiting;
      apart = λ i j a h ne. ground (
        arith,
        out.not_active i,
        out.not_active j,
        out.not_active n,
        q.apart i j a,
        q.apart n j a,
        q.apart i n a,
      );
      apart_waiting =
          λ i a h. ground (arith, out.not_waiting, q.apart_waiting i a, q.apart_waiting n a);
    }

  module _ (u : Pushed s.tcb s'.tcb p (s.ccb c).hd_blocked)
      (heads : (i : ℕ) → (s'.ccb c).hd_active i ≡ (s.ccb c).hd_active i)
      (wait : (s'.ccb c).hd_blocked ≡ p) where
    pub waiting_front : Queues s' c act (p ∷ blk)
    waiting_front = record {
      active = λ i. rw (heads i) (
          Chain-frame s.tcb s'.tcb 0 ((s.ccb c).hd_active i) (act i)
            (λ a m.
              Pushed-other s.tcb s'.tcb (s.ccb c).hd_blocked p a u
                (has_apart a p (act i) m (out.not_active i))
                (chain_apart s.tcb (s.ccb c).hd_blocked ((s.ccb c).hd_active i) a blk (act i)
                  q.waiting (q.active i) m (q.apart_waiting i a m)))
            (q.active i));
      waiting = rw wait (
          Chain-push s.tcb s'.tcb (s.ccb c).hd_blocked p blk u q.waiting out.not_waiting
            out.not_null q.distinct_waiting);
      distinct = q.distinct;
      distinct_waiting = (out.not_waiting, q.distinct_waiting);
      apart = q.apart;
      apart_waiting = λ i a h. ground (arith, out.not_active i, q.apart_waiting i a h);
    }
