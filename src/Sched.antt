-- ===== src/Sched.antt =====
-- The scheduler, src/core/sched.c. The state and the step functions stand in the children.
pub mod State
pub mod Queue
pub mod Timer
pub mod Pick
