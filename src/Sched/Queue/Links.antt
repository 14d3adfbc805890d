-- ===== src/Sched/Queue/Links.antt =====
-- What the list operations of the scheduler do to the links and to the queue heads, for a task whose
-- control block is not mapped in a window.
use bztsrc_osz.Prelude.{ℕ, ◌≡◌, ◌≢◌, ◌==◌, ◌&&◌, not, false, if◌then◌else◌, arith}
use bztsrc_osz.Sched.State.{Sched, Tcb, Ccb, direct, write_ccb, is_bad}
use bztsrc_osz.Sched.Queue.{
  set_prev_of, link_prev, link_next, unlink, drop_active, drop_blocked, drop_timer, sched_remove,
}
use bztsrc_osz.Sched.Queue.Chain.{Unlinked}

-- A change of links: everything but the links of the tasks stays.
pub record SameButLinks (s s' : Sched) : Type 0 where
  pub ccbs : (c : ℕ) → s'.ccb c ≡ s.ccb c
  pub cores : s'.numcores ≡ s.numcores
  pub core : s'.self ≡ s.self
  pub alarm : s'.tcbalarm ≡ s.tcbalarm
  pub priority : (a : ℕ) → (s'.tcb a).priority ≡ (s.tcb a).priority
  pub state : (a : ℕ) → (s'.tcb a).state ≡ (s.tcb a).state
  pub cpuid : (a : ℕ) → (s'.tcb a).cpuid ≡ (s.tcb a).cpuid
  pub magic : (a : ℕ) → (s'.tcb a).magic ≡ (s.tcb a).magic

unlink-SameButLinks : (s : Sched) (p : ℕ) → SameButLinks s (unlink s (direct p))
unfolding unlink link_prev link_next
unlink-SameButLinks s p = record {
  ccbs = λ c. ground arith;
  cores = ground arith;
  core = ground arith;
  alarm = ground arith;
  priority = λ a. ground arith;
  state = λ a. ground arith;
  cpuid = λ a. ground arith;
  magic = λ a. ground arith;
}

pub unlink-Unlinked : (s : Sched) (p : ℕ) → Unlinked s.tcb (unlink s (direct p)).tcb p
unfolding unlink link_prev link_next
unlink-Unlinked s p = record { next_of = λ a. ground arith; prev_of = λ a. ground arith }

-- The link to the new first task of a queue.
pub set_prev_of-prev :
    (s : Sched) (q p a : ℕ)
    → ((set_prev_of s q (direct p)).tcb a).prev
      ≡ (if not (q == 0) && (a == q) then p else (s.tcb a).prev)
unfolding set_prev_of
set_prev_of-prev s q p a = ground arith

pub set_prev_of-next :
    (s : Sched) (q p a : ℕ) → ((set_prev_of s q (direct p)).tcb a).next ≡ (s.tcb a).next
unfolding set_prev_of
set_prev_of-next s q p a = ground arith

pub set_prev_of-SameButLinks : (s : Sched) (q p : ℕ) → SameButLinks s (set_prev_of s q (direct p))
unfolding set_prev_of
set_prev_of-SameButLinks s q p = record {
  ccbs = λ c. ground arith;
  cores = ground arith;
  core = ground arith;
  alarm = ground arith;
  priority = λ a. ground arith;
  state = λ a. ground arith;
  cpuid = λ a. ground arith;
  magic = λ a. ground arith;
}

-- What sched_remove does for task `p` of core `c`: `mid` are the control blocks once its neighbours are
-- linked, and then its own links are cleared.
pub record Removed (s s' : Sched) (p c : ℕ) : Type 0 where
  pub mid : ℕ → Tcb
  pub unlinked : Unlinked s.tcb mid p
  pub links : (a : ℕ) → a ≢ p → ((s'.tcb a).next ≡ (mid a).next) × ((s'.tcb a).prev ≡ (mid a).prev)
  pub cleared : ((s'.tcb p).next ≡ 0) × ((s'.tcb p).prev ≡ 0)
  pub active :
      (i : ℕ)
      → (s'.ccb c).hd_active i ≡ (
          if (i == (s.tcb p).priority) && ((s.ccb c).hd_active i == p)
          then (s.tcb p).next
          else (s.ccb c).hd_active i)
  pub waiting :
      (s'.ccb c).hd_blocked
      ≡ (if (s.ccb c).hd_blocked == p then (s.tcb p).next else (s.ccb c).hd_blocked)
  pub timer :
      (s'.ccb c).hd_timerq
      ≡ (if (s.ccb c).hd_timerq == p then (s.tcb p).next else (s.ccb c).hd_timerq)
  pub cores : s'.numcores ≡ s.numcores
  pub priority : (a : ℕ) → (s'.tcb a).priority ≡ (s.tcb a).priority
  pub state : (a : ℕ) → (s'.tcb a).state ≡ (s.tcb a).state
  pub cpuid : (a : ℕ) → (s'.tcb a).cpuid ≡ (s.tcb a).cpuid
  pub magic : (a : ℕ) → (s'.tcb a).magic ≡ (s.tcb a).magic

drop_timer-heads :
    (s : Sched) (c p n i : ℕ)
    → (((drop_timer s c p n).ccb c).hd_active i ≡ (s.ccb c).hd_active i)
      × (((drop_timer s c p n).ccb c).hd_blocked ≡ (s.ccb c).hd_blocked)
unfolding drop_timer
drop_timer-heads s c p n i = ground arith

drop_timer-timer :
    (s : Sched) (c p n : ℕ)
    → ((drop_timer s c p n).ccb c).hd_timerq
      ≡ (if (s.ccb c).hd_timerq == p then n else (s.ccb c).hd_timerq)
unfolding drop_timer
drop_timer-timer s c p n = ground arith

drop_timer-tcb : (s : Sched) (c p n a : ℕ) → (drop_timer s c p n).tcb a ≡ s.tcb a
unfolding drop_timer
drop_timer-tcb s c p n a = ground arith

drop_timer-numcores : (s : Sched) (c p n : ℕ) → (drop_timer s c p n).numcores ≡ s.numcores
unfolding drop_timer
drop_timer-numcores s c p n = ground arith

drop_heads :
    (k : Ccb) (p : ℕ) (b : Tcb) (i : ℕ)
    → ((drop_blocked (drop_active k p b) p b).hd_active i
        ≡ (if (i == b.priority) && (k.hd_active i == p) then b.next else k.hd_active i))
      × ((drop_blocked (drop_active k p b) p b).hd_blocked
          ≡ (if k.hd_blocked == p then b.next else k.hd_blocked))
      × ((drop_blocked (drop_active k p b) p b).hd_timerq ≡ k.hd_timerq)
unfolding drop_active
drop_heads k p b i = ground arith

pub sched_remove-Removed :
    (s : Sched) (p : ℕ)
    → is_bad s (s.tcb p) ≡ false
    → Removed s (sched_remove s (direct p)) p (s.tcb p).cpuid
unfolding sched_remove
sched_remove-Removed s p good =
    let b : Tcb = s.tcb p in
    let c : ℕ = b.cpuid in
    let s0 : Sched = write_ccb s c (drop_blocked (drop_active (s.ccb c) p b) p b) in
    let s1 : Sched = drop_timer s0 c p b.next in
    let s2 : Sched = unlink s1 (direct p) in
    let k : SameButLinks s1 s2 = unlink-SameButLinks s1 p in
    let u : Unlinked s1.tcb s2.tcb p = unlink-Unlinked s1 p in
    let same : (a : ℕ) → s1.tcb a ≡ s.tcb a = drop_timer-tcb s0 c p b.next in
    rw good (record {
      mid = s2.tcb;
      unlinked = record {
        next_of = λ a. ground (arith, u.next_of a, same a, same p);
        prev_of = λ a. ground (arith, u.prev_of a, same a, same p);
      };
      links = λ a ne. ground arith;
      cleared = ground arith;
      active = λ i.
          ground (arith, k.ccbs c, drop_timer-heads s0 c p b.next i, drop_heads (s.ccb c) p b i);
      waiting =
          ground (arith, k.ccbs c, drop_timer-heads s0 c p b.next 0, drop_heads (s.ccb c) p b 0);
      timer = ground (arith, k.ccbs c, drop_timer-timer s0 c p b.next, drop_heads (s.ccb c) p b 0);
      cores = ground (arith, k.cores, drop_timer-numcores s0 c p b.next);
      priority = λ a. ground (arith, k.priority a, k.priority p, same a, same p);
      state = λ a. ground (arith, k.state a, k.state p, same a, same p);
      cpuid = λ a. ground (arith, k.cpuid a, k.cpuid p, same a, same p);
      magic = λ a. ground (arith, k.magic a, k.magic p, same a, same p);
    })
