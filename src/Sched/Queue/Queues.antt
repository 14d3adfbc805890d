-- ===== src/Sched/Queue/Queues.antt =====
-- The active queues and the blocked queue of a core as lists of pids, and what the operations of the
-- scheduler do to them. The timer queue is not among them: sched_delay does not keep its `prev` links.
use mathlib.Core.Path.{subst}
use mathlib.Core.Bool.{false≢true}
use bztsrc_osz.Prelude.{
  ==_iff, Bool-cases, ℕ, ◌≡◌, ◌≢◌, refl, sym, ◌∙◌, inl, inr, ◌==◌, true, false, List, ◌∷◌,
  if◌then◌else◌, arith, ℕ_discrete,
}
use bztsrc_osz.Sched.State.{Sched, direct, update, is_bad}
use bztsrc_osz.Sched.Queue.{sched_remove}
use bztsrc_osz.Sched.Queue.Chain.{
  has, erase, Distinct, Chain, has_apart, beq_false, Chain-head, Chain-frame, Chain-erase,
}
use bztsrc_osz.Sched.Queue.Push.{
  not-has-zero, not-has-erase, has-erase, erase-Distinct, Unlinked-other,
}
use bztsrc_osz.Sched.Queue.Links.{Removed, sched_remove-Removed}

-- Core `c` has the active queues `act` and the blocked queue `blk`; no task is in two places.
pub record Queues (s : Sched) (c : ℕ) (act : ℕ → List ℕ) (blk : List ℕ) : Type 0 where
  pub active : (i : ℕ) → Chain s.tcb 0 ((s.ccb c).hd_active i) (act i)
  pub waiting : Chain s.tcb 0 (s.ccb c).hd_blocked blk
  pub distinct : (i : ℕ) → Distinct (act i)
  pub distinct_waiting : Distinct blk
  pub apart : (i j a : ℕ) → has a (act i) ≡ true → i ≢ j → has a (act j) ≡ false
  pub apart_waiting : (i a : ℕ) → has a (act i) ≡ true → has a blk ≡ false

-- Task `p` has left the active queue `n`.
abbrev pub without : (ℕ → List ℕ) → ℕ → ℕ → ℕ → List ℕ
without act n p = update act n (erase p (act n))

-- Task `p` is at the head of the active queue `n`.
abbrev pub in_front : (ℕ → List ℕ) → ℕ → ℕ → ℕ → List ℕ
in_front act n p = update act n (p ∷ act n)

pub has-without :
    (act : ℕ → List ℕ) (n p i a : ℕ) → has a (without act n p i) ≡ true → has a (act i) ≡ true
has-without act n p i a h = ground (arith, has-erase a p (act n))

module _ (s : Sched) (act : ℕ → List ℕ) (blk : List ℕ) (p : ℕ) where
  abbrev core : ℕ
  core = (s.tcb p).cpuid

  abbrev level : ℕ
  level = (s.tcb p).priority

  module _ (q : Queues s core act blk) (inside : has p (act level) ≡ true) (s' : Sched)
      (r : Removed s s' p core) where
    -- The chains of the tasks that are in no queue of the level stay.
    pub outside :
        (a : ℕ)
        → has a (act level) ≡ false
        → ((s'.tcb a).next ≡ (s.tcb a).next) × ((s'.tcb a).prev ≡ (s.tcb a).prev)
    outside a o =
        let ne : a ≢ p = λ e. has_apart p a (act level) inside o (sym e) in
        let m : ((s'.tcb a).next ≡ (r.mid a).next) × ((s'.tcb a).prev ≡ (r.mid a).prev) =
          r.links a ne in
        let k : ((r.mid a).next ≡ (s.tcb a).next) × ((r.mid a).prev ≡ (s.tcb a).prev) =
          Unlinked-other s.tcb r.mid ((s.ccb core).hd_active level) p a (act level) r.unlinked
            (q.active level) inside o in
        (m.0 ∙ k.0, m.1 ∙ k.1)

    left : Chain s'.tcb 0 ((s'.ccb core).hd_active level) (erase p (act level))
    left =
        let zero_out : has 0 (act level) ≡ false =
          not-has-zero s.tcb 0 ((s.ccb core).hd_active level) (act level) (q.active level) in
        let c : Chain r.mid 0
            (if (s.ccb core).hd_active level == p
              then (s.tcb p).next
              else (s.ccb core).hd_active level)
            (erase p (act level)) =
          Chain-erase s.tcb r.mid 0 ((s.ccb core).hd_active level) p (act level) r.unlinked
            (q.active level) inside (q.distinct level) zero_out in
        let head : (s'.ccb core).hd_active level ≡ (
            if (s.ccb core).hd_active level == p
            then (s.tcb p).next
            else (s.ccb core).hd_active level) =
          ground (arith, r.active level) in
        rw head (
          Chain-frame r.mid s'.tcb 0 _ (erase p (act level))
            (λ a i. r.links a (
              has_apart a p (erase p (act level)) i
                (not-has-erase p (act level) (q.distinct level))))
            c)

    other : (i : ℕ) → i ≢ level → Chain s'.tcb 0 ((s'.ccb core).hd_active i) (act i)
    other i ne =
        rw (r.active i, beq_false i level ne)
          (Chain-frame s.tcb s'.tcb 0 ((s.ccb core).hd_active i) (act i)
            (λ a m. outside a (q.apart i level a m ne)) (q.active i))

    queue : (i : ℕ) → Chain s'.tcb 0 ((s'.ccb core).hd_active i) (without act level p i)
    queue i = elim (ℕ_discrete i level) [
      | yes same ↦
          subst (λ k. Chain s'.tcb 0 ((s'.ccb core).hd_active k) (without act level p k)) (sym same)
            (rw ((==_iff level level).1 refl) left)
      | no ne ↦ rw (beq_false i level ne) (other i ne)
    ]

    head_apart : (s.ccb core).hd_blocked ≢ p
    head_apart e =
        let out : has p blk ≡ false = q.apart_waiting level p inside in
        let zero_out : has 0 (act level) ≡ false =
          not-has-zero s.tcb 0 ((s.ccb core).hd_active level) (act level) (q.active level) in
        elim (Chain-head s.tcb 0 (s.ccb core).hd_blocked blk q.waiting) [
          | inl z ↦ has_apart p 0 (act level) inside zero_out (sym e ∙ z)
          | inr m ↦ has_apart (s.ccb core).hd_blocked p blk m out e
        ]

    not_active : (a : ℕ) → has a blk ≡ true → has a (act level) ≡ false
    not_active a m = elim (Bool-cases (has a (act level))) [
      | inl both ↦ absurd (false≢true (sym (q.apart_waiting level a both) ∙ m))
      | inr out ↦ out
    ]

    blocked_queue : Chain s'.tcb 0 (s'.ccb core).hd_blocked blk
    blocked_queue =
        rw (r.waiting, beq_false (s.ccb core).hd_blocked p head_apart)
          (Chain-frame s.tcb s'.tcb 0 (s.ccb core).hd_blocked blk
            (λ a m. outside a (not_active a m)) q.waiting)

    Removed-Queues : Queues s' core (without act level p) blk
    Removed-Queues = record {
      active = queue;
      waiting = blocked_queue;
      distinct = λ i. elim (Bool-cases (i == level)) [
        | inl at ↦ rw at (erase-Distinct p (act level) (q.distinct level))
        | inr off ↦ rw off (q.distinct i)
      ];
      distinct_waiting = q.distinct_waiting;
      apart = λ i j a h ne.
          let o : has a (act j) ≡ false = q.apart i j a (has-without act level p i a h) ne in
          ground (arith, o, has-erase a p (act level));
      apart_waiting = λ i a h. q.apart_waiting i a (has-without act level p i a h);
    }

  -- A valid call of sched_remove takes a task out of the active queue of its priority, and leaves the
  -- order of the other active and blocked tasks.
  pub sched_remove-Queues :
      is_bad s (s.tcb p) ≡ false
      → Queues s core act blk
      → has p (act level) ≡ true
      → Queues (sched_remove s (direct p)) core (without act level p) blk
  sched_remove-Queues good q inside =
      Removed-Queues q inside (sched_remove s (direct p)) (sched_remove-Removed s p good)
