-- ===== src/Sched/Queue/Tests.antt =====
-- Runs of the queue operations, and the theorems on them at concrete states.
use bztsrc_osz.Prelude.{
  Bool-cases, ℕ, ◌≡◌, refl, inl, inr, ◌==◌, true, false, none, List, [], ◌∷◌, if◌then◌else◌, arith,
}
use bztsrc_osz.Sched.State.{Sched, Tcb, Ccb, direct, running, blocked}
use bztsrc_osz.Sched.Queue.{
  sched_add, sched_remove, sched_block, sched_awake, push_blocked, set_prev_of, unlink, link_next,
  link_prev, drop_timer, drop_active, awake_sleeping, awake_timer, wake_core,
}
use bztsrc_osz.Sched.Queue.Queues.{Queues, without, in_front}
use bztsrc_osz.Sched.Queue.Front.{IsOutside}
use bztsrc_osz.Sched.Queue.Core.{
  CoreQueues, sched_remove-CoreQueues, sched_add-CoreQueues, sched_block-CoreQueues,
}

-- Tasks 5 and 6 are in the active queue of priority 4, task 7 is blocked, task 9 waits for its alarm, and task 8 is in no
-- queue.
abbrev task : ℕ → Tcb
task a = record {
  magic = true;
  priority = 4;
  state = if a == 7 then blocked else running;
  cpuid = 0;
  prev = if a == 6 then 5 else 0;
  next = if a == 5 then 6 else 0;
  blktime = 0;
  blkcnt = 0;
  alarmusec = 0;
  memroot = 0;
}

abbrev core : Ccb
core = record {
  id = 0;
  current = 5;
  hd_timerq = 9;
  hd_blocked = 7;
  hd_active = λ i. if i == 4 then 5 else 0;
  cr_active = λ i. if i == 4 then 6 else 0;
  sched_ticks = 0;
  sched_delta = 0;
  flags = 0;
  hasactivetask = true;
}

abbrev two_tasks : Sched
two_tasks = record {
  tcb = task;
  ccb = λ c. core;
  numcores = 1;
  self = 0;
  idle = 1;
  tmpmap1 = 0;
  tcbalarm = 0;
  clock_ticks = 100;
  quantum = 10;
  runlevel = 3;
  errno = 0;
  woken = λ c. false;
  memmap = 0;
  timer = none;
}

abbrev active : ℕ → List ℕ
active i = if i == 4 then 5 ∷ 6 ∷ [] else []

two_tasks-Queues : Queues two_tasks 0 active (7 ∷ [])
two_tasks-Queues = record {
  active = λ i. elim (Bool-cases (i == 4)) [
    | inl at ↦ rw at (refl, omega arith, refl, (refl, omega arith, refl, refl))
    | inr off ↦ rw off refl
  ];
  waiting = (refl, omega arith, refl, refl);
  distinct =
      λ i. elim (Bool-cases (i == 4)) [ inl at ↦ rw at (refl, (refl, tt)) | inr off ↦ rw off tt ];
  distinct_waiting = (refl, tt);
  apart = λ i j a h ne. ground arith;
  apart_waiting = λ i a h. ground arith;
}

new_task-IsOutside : IsOutside active (7 ∷ []) 8
new_task-IsOutside = record {
  not_active = λ i. ground arith;
  not_waiting = refl;
  not_null = omega arith;
}

-- The blocked task is marked with the time, and leaves the current task to its successor.
block_six :
    (((sched_block two_tasks (direct 6)).tcb 6).blktime ≡ 100)
    × (((sched_block two_tasks (direct 6)).tcb 7).prev ≡ 6)
    × (((sched_block two_tasks (direct 6)).ccb 0).cr_active 4 ≡ 0)
unfolding sched_block sched_remove push_blocked set_prev_of unlink link_next link_prev drop_timer
    drop_active
block_six = (refl, refl, refl)

-- The woken task is the next to run.
awake_seven :
    (((sched_awake two_tasks (direct 7)).ccb 0).hd_active 4 ≡ 7)
    × (((sched_awake two_tasks (direct 7)).ccb 0).cr_active 4 ≡ 7)
    × (((sched_awake two_tasks (direct 7)).ccb 0).hd_blocked ≡ 0)
    × (((sched_awake two_tasks (direct 7)).tcb 7).blkcnt ≡ 100)
unfolding sched_awake awake_sleeping wake_core sched_add unlink link_next link_prev awake_timer
    set_prev_of
awake_seven = (refl, refl, refl, refl)

two_tasks-CoreQueues : CoreQueues two_tasks 0 active (7 ∷ []) (9 ∷ [])
two_tasks-CoreQueues = record {
  queues = two_tasks-Queues;
  timer = (refl, omega arith, refl);
  apart_active = λ i a m. ground arith;
  apart_blocked = λ a m. ground arith;
}

sched_remove-CoreQueues_example :
    CoreQueues (sched_remove two_tasks (direct 6)) 0 (without active 4 6) (7 ∷ []) (9 ∷ [])
sched_remove-CoreQueues_example =
    sched_remove-CoreQueues two_tasks active (7 ∷ []) (9 ∷ []) 6 refl two_tasks-CoreQueues refl

sched_add-CoreQueues_example :
    CoreQueues (sched_add two_tasks (direct 8)) 0 (in_front active 4 8) (7 ∷ []) (9 ∷ [])
    × (((sched_add two_tasks (direct 8)).tcb 8).state ≡ running)
sched_add-CoreQueues_example =
    sched_add-CoreQueues two_tasks active (7 ∷ []) (9 ∷ []) 8 refl two_tasks-CoreQueues
      new_task-IsOutside refl

sched_block-CoreQueues_example :
    CoreQueues (sched_block two_tasks (direct 6)) 0 (without active 4 6) (6 ∷ 7 ∷ []) (9 ∷ [])
    × (((sched_block two_tasks (direct 6)).tcb 6).state ≡ blocked)
sched_block-CoreQueues_example =
    sched_block-CoreQueues two_tasks 6 active (7 ∷ []) (9 ∷ []) refl refl two_tasks-CoreQueues refl
