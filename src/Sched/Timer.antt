-- ===== src/Sched/Timer.antt =====
-- The timer queue and the move to another core: sched_delay and sched_migrate. The walk down the queue
-- takes fuel, and `none` is fuel that ran out.
use bztsrc_osz.Prelude.{
  ℕ, zero, suc, ◌==◌, ◌||◌, not, Option, none, some, ltb, leb, if◌then◌else◌, add64, sub64,
}
use bztsrc_osz.Sched.State.{
  Sched, Ptr, in_tmpmap1, hybernd, blocked, running, is_running, page, block, write, write_ccb,
  is_bad,
}
use bztsrc_osz.Sched.Queue.{sched_add, sched_remove, push_blocked}

-- The loop of sched_delay: the first task whose alarm is later, and the one before it, 0 for none.
pub find_slot : ℕ → Sched → Ptr → ℕ → ℕ → Option (Sched × ℕ × ℕ)
find_slot zero s t next prev = none
find_slot (suc fuel) s t next prev =
    let s' : Sched = record s { tmpmap1 = next } in
    let rest = find_slot fuel s' t (block s' in_tmpmap1).next next in
    if next == 0
    then some (s, next, prev)
    else if ltb (block s' t).alarmusec (block s' in_tmpmap1).alarmusec
    then some (s', next, prev)
    else rest

-- What follows the loop: the task is linked between the two.
pub link_between : Sched → ℕ → Ptr → ℕ → ℕ → Sched
link_between s c t next prev =
    let s1 = write s t (record (block s t) { next = next }) in
    let s2 : Sched = record s1 { tmpmap1 = prev } in
    let s3 : Sched = record s1 { tcbalarm = page s1 t } in
    if prev == 0
    then write_ccb s3 c (record (s3.ccb c) { hd_timerq = page s3 t })
    else write s2 in_tmpmap1 (record (block s2 in_tmpmap1) { next = page s2 t })

-- The clock of an empty timer queue begins at 0.
abbrev pub start_clock : Sched → ℕ → Sched
start_clock s c =
    if (s.ccb c).hd_timerq == 0 then write_ccb s c (record (s.ccb c) { sched_ticks = 0 }) else s

-- sched_delay
pub sched_delay : ℕ → Sched → Ptr → ℕ → Option Sched
unfolding find_slot link_between
sched_delay fuel s t usec =
    let b = block s t in
    let c = b.cpuid in
    let s1 = start_clock (sched_remove (write s t (record b { state = blocked })) t) c in
    let s2 = write s1 t (record (block s1 t) { alarmusec = add64 (s1.ccb c).sched_ticks usec }) in
    if is_bad s b || not (is_running b.state)
    then some s
    else elim (find_slot fuel s2 t (s2.ccb c).hd_timerq 0) [
      | none ↦ none
      | some (s3, next, prev) ↦ some (link_between s3 c t next prev)
    ]

-- The queues of the new core: `usec` is the clock of the old one.
pub enter_core : ℕ → Sched → Ptr → ℕ → Option Sched
enter_core fuel s t usec =
    let b = block s t in
    elim b.state [
      | hybernd ↦ some s
      | blocked ↦
          if b.alarmusec == 0
          then some (push_blocked s b.cpuid t)
          else sched_delay fuel (write s t (record b { state = running })) t
              (sub64 b.alarmusec usec)
      | running ↦ some (sched_add s t)
    ]

-- sched_migrate
pub sched_migrate : ℕ → Sched → Ptr → ℕ → Option Sched
unfolding enter_core
sched_migrate fuel s t cpuid =
    let b = block s t in
    let s1 = sched_remove s t in
    let s2 = write s1 t (record (block s1 t) { cpuid = cpuid }) in
    if is_bad s b || leb s.numcores cpuid
    then some s
    else enter_core fuel s2 t (s.ccb b.cpuid).sched_ticks
