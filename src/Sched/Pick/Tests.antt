-- ===== src/Sched/Pick/Tests.antt =====
-- A run of the scheduler's choice, and the theorem on it at a concrete state.
use bztsrc_osz.Prelude.{ℕ, ◌≡◌, refl, ◌==◌, true, false, Option, none, some, if◌then◌else◌}
use bztsrc_osz.Sched.State.{Sched, Tcb, Ccb, running, pri_idle}
use bztsrc_osz.Sched.Pick.{Round, search_loop, sched_pick}
use bztsrc_osz.Sched.Pick.Level.{level, or_else, first_level, hits, busy, search_loop-level}

-- Tasks 5 and 6 are in the queue of priority 4, whose round is over.
abbrev task : ℕ → Tcb
task a = record {
  magic = true;
  priority = 4;
  state = running;
  cpuid = 0;
  prev = if a == 6 then 5 else 0;
  next = if a == 5 then 6 else 0;
  blktime = 0;
  blkcnt = 0;
  alarmusec = 0;
  memroot = a;
}

abbrev core : Ccb
core = record {
  id = 0;
  current = 6;
  hd_timerq = 0;
  hd_blocked = 0;
  hd_active = λ i. if i == 4 then 5 else 0;
  cr_active = λ i. 0;
  sched_ticks = 0;
  sched_delta = 0;
  flags = 0;
  hasactivetask = true;
}

abbrev round_over : Sched
round_over = record {
  tcb = task;
  ccb = λ c. core;
  numcores = 1;
  self = 0;
  idle = 1;
  tmpmap1 = 0;
  tcbalarm = 0;
  clock_ticks = 100;
  quantum = 10;
  runlevel = 3;
  errno = 0;
  woken = λ c. false;
  memmap = 6;
  timer = none;
}

abbrev current_of : Option Sched → ℕ
current_of (some s) = (s.ccb 0).current
current_of none = 0

abbrev timer_of : Option Sched → Option ℕ
timer_of (some s) = s.timer
timer_of none = none

-- The first task of the queue runs for a quantum; one round is not enough to find it.
pick_first :
    (current_of (sched_pick (λ s. s) 2 round_over) ≡ 5)
    × (timer_of (sched_pick (λ s. s) 2 round_over) ≡ some 10)
    × (sched_pick (λ s. s) 1 round_over ≡ none)
unfolding sched_pick
pick_first = (refl, refl, refl)

search_loop-level_example :
    (r : Round) × (search_loop 2 round_over ≡ some r)
    × (level r
        ≡ or_else
            (first_level (hits round_over) pri_idle 0)
            (first_level (busy round_over) pri_idle 0))
search_loop-level_example = search_loop-level round_over
