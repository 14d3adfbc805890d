-- ===== src/Sched/Queue.antt =====
-- Insertion into and removal from the task queues: sched_add, sched_remove, sched_block, sched_awake and
-- sched_hybernate. A pointer is read again after each mapping, as in the source.
pub mod Chain
pub mod Push
pub mod Links
pub mod Queues
pub mod Front
pub mod Block
pub mod Core
pub mod Tests
use bztsrc_osz.Prelude.{ℕ, ◌==◌, ◌||◌, ◌&&◌, not, Bool, true, false, if◌then◌else◌, add64, sub64}
use bztsrc_osz.Sched.State.{
  Sched, Tcb, Ccb, Ptr, direct, in_tmpmap1, in_tcbalarm, TaskState, hybernd, blocked, running,
  is_running, page, block, update, write, write_ccb, is_bad,
}

abbrev pub einval : ℕ
einval = 5

-- `mapped->prev = tcb->pid`, with page `q` mapped in LDYN_tmpmap1, if there is one.
pub set_prev_of : Sched → ℕ → Ptr → Sched
set_prev_of s q t =
    if q == 0
    then s
    else (let s' : Sched = record s { tmpmap1 = q } in
        write s' in_tmpmap1 (record (block s' in_tmpmap1) { prev = page s' t }))

-- sched_add: the task goes to the head of the active queue of its priority.
pub sched_add : Sched → Ptr → Sched
sched_add s t =
    let b = block s t in
    let k = s.ccb b.cpuid in
    let head = k.hd_active b.priority in
    if is_bad s b
    then record s { errno = einval }
    else set_prev_of
        (write_ccb (write s t (record b { state = running; prev = 0; next = head })) b.cpuid
          (record k { hd_active = update k.hd_active b.priority (page s t) }))
        head t

-- The predecessor is linked to the successor.
pub link_prev : Sched → Ptr → Sched
link_prev s t =
    let q = (block s t).prev in
    if q == 0
    then s
    else (let s' : Sched = record s { tmpmap1 = q } in
        write s' in_tmpmap1 (record (block s' in_tmpmap1) { next = (block s' t).next }))

-- The successor is linked to the predecessor.
pub link_next : Sched → Ptr → Sched
link_next s t =
    let q = (block s t).next in
    if q == 0
    then s
    else (let s' : Sched = record s { tmpmap1 = q } in
        write s' in_tmpmap1 (record (block s' in_tmpmap1) { prev = (block s' t).prev }))

pub unlink : Sched → Ptr → Sched
unlink s t = link_next (link_prev s t) t

-- The queue heads that the task stands at go on to the next task.
pub drop_active : Ccb → ℕ → Tcb → Ccb
drop_active k p b = record k {
  hd_active =
      if k.hd_active b.priority == p then update k.hd_active b.priority b.next else k.hd_active;
  cr_active =
      if k.cr_active b.priority == p then update k.cr_active b.priority b.next else k.cr_active;
}

abbrev pub drop_blocked : Ccb → ℕ → Tcb → Ccb
drop_blocked k p b = if k.hd_blocked == p then record k { hd_blocked = b.next } else k

-- At the head of the timer queue the next task is mapped in LDYN_tcbalarm as well.
pub drop_timer : Sched → ℕ → ℕ → ℕ → Sched
drop_timer s c p next =
    if (s.ccb c).hd_timerq == p
    then (let s' : Sched = write_ccb s c (record (s.ccb c) { hd_timerq = next }) in
        if next == 0 then s' else record s' { tcbalarm = next })
    else s

-- sched_remove
pub sched_remove : Sched → Ptr → Sched
sched_remove s t =
    let b = block s t in
    let p = page s t in
    let s1 =
      drop_timer (write_ccb s b.cpuid (drop_blocked (drop_active (s.ccb b.cpuid) p b) p b)) b.cpuid
        p b.next in
    let s2 = unlink s1 t in
    if is_bad s b then s else write s2 t (record (block s2 t) { prev = 0; next = 0 })

-- The task goes to the head of the blocked queue of core `c`.
pub push_blocked : Sched → ℕ → Ptr → Sched
push_blocked s c t =
    let head = (s.ccb c).hd_blocked in
    let s1 = set_prev_of (write s t (record (block s t) { next = head; prev = 0 })) head t in
    write_ccb s1 c (record (s1.ccb c) { hd_blocked = page s1 t })

-- sched_block: from the active queue to the blocked queue.
pub sched_block : Sched → Ptr → Sched
sched_block s t =
    let b = block s t in
    let s1 = write s t (record b { state = blocked; blktime = s.clock_ticks }) in
    if is_bad s b || not (is_running b.state) then s else push_blocked (sched_remove s1 t) b.cpuid t

abbrev pub wake_state : TaskState → TaskState
wake_state hybernd = blocked
wake_state blocked = blocked
wake_state running = running

-- At the head of the timer queue the alarm is cleared too, before the window moves on.
pub awake_timer : Sched → ℕ → Ptr → Sched
awake_timer s c t =
    if (s.ccb c).hd_timerq == page s t
    then drop_timer (write s t (record (block s t) { alarmusec = 0 })) c (page s t) (block s t).next
    else s

-- platform_awakecpu, if another core is idle.
pub wake_core : Sched → ℕ → Sched
wake_core s c =
    let k = s.ccb c in
    if not (k.id == (s.ccb s.self).id) && k.current == s.idle
    then record s { woken = update s.woken k.id true }
    else s

-- The part of sched_awake for a task that does not run.
pub awake_sleeping : Sched → Ptr → Sched
awake_sleeping s t =
    let b = block s t in
    let c = b.cpuid in
    let s1 = write s t (record b {
      state = wake_state b.state;
      blkcnt = add64 b.blkcnt (sub64 s.clock_ticks b.blktime);
      blktime = 0;
    }) in
    let s2 = write_ccb s1 c (drop_blocked (s1.ccb c) (page s1 t) (block s1 t)) in
    wake_core (sched_add (unlink (awake_timer s2 c t) t) t) c

-- sched_awake: from the blocked queue or the timer queue to the active queue, as the next to run.
pub sched_awake : Sched → Ptr → Sched
sched_awake s t =
    let b = block s t in
    let c = b.cpuid in
    let s1 = if is_running b.state then s else awake_sleeping s t in
    if is_bad s b
    then s
    else write_ccb s1 c (record (s1.ccb c) {
      cr_active = update (s1.ccb c).cr_active (block s1 t).priority (page s1 t);
      hasactivetask = true;
    })

-- sched_hybernate
pub sched_hybernate : Sched → Ptr → Sched
sched_hybernate s t =
    let b = block s t in
    if is_bad s b
    then s
    else elim b.state [ blocked ↦ write s t (record b { state = hybernd }) | _ ↦ s ]
