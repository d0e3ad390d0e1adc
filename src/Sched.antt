-- ===== src/Sched.antt =====
-- scheduling/: processes, their descriptor tables and the scheduler.
pub mod Process
pub mod Fd
pub mod Scheduler
pub mod Calls
pub mod UserMemory
pub mod Files
mod Tests
