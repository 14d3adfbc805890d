-- ===== src/Sched/State.antt =====
-- What src/core/sched.c reads and writes: task control blocks (task.h), CPU control blocks (ccb.h), and
-- the two windows through which the scheduler maps control blocks, LDYN_tmpmap1 and LDYN_tcbalarm. A pid
-- is the number of the physical page that holds the task's control block, so a queue is a chain of pids.
use bztsrc_osz.Prelude.{ℕ, ◌==◌, ◌||◌, not, ltb, leb, Bool, Option, if◌then◌else◌}

abbrev pub pri_drv : ℕ
pri_drv = 2

abbrev pub pri_srv : ℕ
pri_srv = 3

abbrev pub pri_idle : ℕ
pri_idle = 7

-- TCB_STATE_HYBERND, TCB_STATE_BLOCKED, TCB_STATE_RUNNING
pub data TaskState : Type 0 where
  hybernd blocked running : TaskState

abbrev pub is_running : TaskState → Bool
is_running running = Bool.true
is_running blocked = Bool.false
is_running hybernd = Bool.false

-- The fields of tcb_t that the scheduler uses; `magic` says that it is a control block.
pub record Tcb : Type 0 where
  pub magic : Bool
  pub priority : ℕ
  pub state : TaskState
  pub cpuid : ℕ
  pub prev : ℕ
  pub next : ℕ
  pub blktime : ℕ
  pub blkcnt : ℕ
  pub alarmusec : ℕ
  pub memroot : ℕ

-- The fields of ccb_t that the scheduler uses.
pub record Ccb : Type 0 where
  pub id : ℕ
  pub current : ℕ
  pub hd_timerq : ℕ
  pub hd_blocked : ℕ
  pub hd_active : ℕ → ℕ
  pub cr_active : ℕ → ℕ
  pub sched_ticks : ℕ
  pub sched_delta : ℕ
  pub flags : ℕ
  pub hasactivetask : Bool

pub record Sched : Type 0 where
  -- Control blocks by pid, and by number of the core.
  pub tcb : ℕ → Tcb
  pub ccb : ℕ → Ccb
  pub numcores : ℕ
  -- The core that runs the code, and the pid of the idle task.
  pub self : ℕ
  pub idle : ℕ
  -- The pages that are mapped in the windows.
  pub tmpmap1 : ℕ
  pub tcbalarm : ℕ
  pub clock_ticks : ℕ
  pub quantum : ℕ
  pub runlevel : ℕ
  pub errno : ℕ
  -- The cores that were woken, the active memory map, and the timer, if it is enabled.
  pub woken : ℕ → Bool
  pub memmap : ℕ
  pub timer : Option ℕ

-- A pointer to a control block: at an address of its own, or in a window.
pub data Ptr : Type 0 where
  direct : ℕ → Ptr
  in_tmpmap1 in_tcbalarm : Ptr

-- The page, and so the pid, that a pointer shows now.
abbrev pub page : Sched → Ptr → ℕ
page s (direct p) = p
page s in_tmpmap1 = s.tmpmap1
page s in_tcbalarm = s.tcbalarm

abbrev pub block : Sched → Ptr → Tcb
block s t = s.tcb (page s t)

abbrev pub update {ℓ} : {A : Type ℓ} → (ℕ → A) → ℕ → A → ℕ → A
update f k v j = if j == k then v else f j

-- A write through a pointer.
abbrev pub write : Sched → Ptr → Tcb → Sched
write s t b = record s { tcb = update s.tcb (page s t) b }

abbrev pub write_ccb : Sched → ℕ → Ccb → Sched
write_ccb s c k = record s { ccb = update s.ccb c k }

-- The check of the parameters that every operation begins with.
abbrev pub is_bad : Sched → Tcb → Bool
is_bad s b = not b.magic || (ltb pri_idle b.priority || leb s.numcores b.cpuid)
