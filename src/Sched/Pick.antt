-- ===== src/Sched/Pick.antt =====
-- The choice of the next task: sched_pick and sched_intr, on the core that runs the code. The two calls
-- out of the scheduler, drivers_ready (drivers.c) and the test INTR_SCHEDREMAINDER of the platform, are
-- parameters. The loop takes fuel, and `none` is fuel that ran out.
pub mod Level
pub mod Tests
use bztsrc_osz.Prelude.{
  ℕ, zero, suc, ◌+◌, ◌==◌, ◌||◌, ◌&&◌, not, Bool, true, false, Option, none, some, ltb, leb,
  if◌then◌else◌, add64, sub64,
}
use bztsrc_osz.Sched.State.{
  Sched, Ccb, Ptr, direct, in_tmpmap1, in_tcbalarm, page, block, update, write_ccb, pri_drv,
  pri_srv, pri_idle,
}
use bztsrc_osz.Sched.Queue.{sched_awake}

abbrev pub runlvl_coop : ℕ
runlvl_coop = 2

abbrev pub runlvl_norm : ℕ
runlvl_norm = 3

-- The control block of the core that runs.
abbrev pub here : Sched → Ccb
here s = s.ccb s.self

abbrev pub write_here : Sched → Ccb → Sched
write_here s k = write_ccb s s.self k

-- One round over the priorities ends at a priority with a current task, or at the idle one, and then it
-- says whether a queue was not empty.
pub data Round : Type 0 where
  found : ℕ → Sched → Round
  ended : Bool → Sched → Round

-- The task at the head of the timer queue is due, and has priority `i`.
abbrev pub is_due : Sched → ℕ → Bool
is_due s i =
    not ((here s).hd_timerq == 0)
    && (i == (block s in_tcbalarm).priority)
    && leb (block s in_tcbalarm).alarmusec (here s).sched_ticks

-- The `for` loop of sched_pick: `left` priorities from `i` on.
pub scan : ℕ → ℕ → Bool → Sched → Round
scan zero i nonempty s = ended nonempty s
scan (suc left) i nonempty s =
    let head = (here s).hd_active i in
    let s' = write_here s (record (here s) { cr_active = update (here s).cr_active i head }) in
    let skip = scan left (i + 1) nonempty s in
    let restart = scan left (i + 1) true s' in
    if is_due s i
    then found i (sched_awake s in_tcbalarm)
    else if head == 0
    then skip
    else if (here s).cr_active i == 0
    then restart
    else found i s

-- The `do` loop around it.
pub search_loop : ℕ → Sched → Option Round
search_loop zero s = none
search_loop (suc fuel) s = elim (scan pri_idle 0 false s) [
  | found i s' ↦ some (found i s')
  | ended true s' ↦ search_loop fuel s'
  | ended false s' ↦ some (ended false s')
]

-- At the label `found`: the current task of the priority is taken, and the next one becomes current.
pub take_current : Sched → ℕ → Sched × Ptr
take_current s i =
    let s1 : Sched = record s { tmpmap1 = (here s).cr_active i } in
    (
      write_here s1 (record (here s1) {
        cr_active = update (here s1).cr_active i (block s1 in_tmpmap1).next;
      }),
      in_tmpmap1,
    )

module _ (drivers_ready : Sched → Sched) where
  -- No task in the active queues: the idle queue, and then the idle task.
  pub pick_idle : Sched → Sched × Ptr
  unfolding take_current
  pick_idle s =
      let s1 =
        if (here s).cr_active pri_idle == 0
        then write_here s (record (here s) {
          cr_active = update (here s).cr_active pri_idle ((here s).hd_active pri_idle);
        })
        else s in
      let s2 = if s1.runlevel == runlvl_coop then drivers_ready s1 else s1 in
      if (here s1).hd_active pri_idle == 0
      then if (s1.runlevel == runlvl_coop) && ((here s2).id == 0)
        then take_current s2 pri_srv
        else (write_here s2 (record (here s2) { hasactivetask = false }), direct s2.idle)
      else take_current s1 pri_idle

  abbrev choose : Round → Sched × Ptr
  choose (found i s) = take_current s i
  choose (ended _ s) = pick_idle s

  -- The ticks until the next interrupt: the head of the timer queue, if it may interrupt the task, and
  -- at most a quantum for a task that may be interrupted.
  pub next_delta : Sched → Ptr → Bool → ℕ
  next_delta s t is_idle =
      let b = block s t in
      let a = block s in_tcbalarm in
      let alarm =
        if not ((here s).hd_timerq == 0) && (ltb pri_drv b.priority || leb a.priority b.priority)
        then sub64 a.alarmusec (here s).sched_ticks
        else 0 in
      if ltb pri_drv b.priority && not is_idle && ((alarm == 0) || ltb s.quantum alarm)
      then s.quantum
      else alarm

  abbrev is_idle_ptr : Ptr → Bool
  is_idle_ptr (direct p) = true
  is_idle_ptr in_tmpmap1 = false
  is_idle_ptr in_tcbalarm = false

  -- The switch to another task.
  pub switch_to : Sched → Ptr → Sched
  unfolding next_delta
  switch_to s t =
      let s1 : Sched = record (write_here s (record (here s) { current = page s t; flags = 1 })) {
        memmap = (block s t).memroot;
      } in
      let delta = next_delta s1 t (is_idle_ptr t) in
      let s2 = write_here s1 (record (here s1) { sched_delta = delta }) in
      if (here s).current == page s t
      then s
      else if s1.runlevel == runlvl_norm
      then record s2 { timer = if delta == 0 then none else some delta }
      else s1

  -- sched_pick
  pub sched_pick : ℕ → Sched → Option Sched
  unfolding scan search_loop pick_idle switch_to
  sched_pick fuel s = elim (search_loop fuel s) [
    | none ↦ none
    | some r ↦ let (s', t) = choose r in some (switch_to s' t)
  ]

  -- sched_intr; `remainder` says that the platform's timer has more to wait.
  pub sched_intr : ℕ → Bool → Sched → Option Sched
  unfolding sched_pick
  sched_intr fuel remainder s =
      if remainder
      then some s
      else sched_pick fuel (
          write_here s
            (record (here s) { sched_ticks = add64 (here s).sched_ticks (here s).sched_delta }))
