-- ===== src/Threads.antt =====
-- The kernel's thread layer, code/threads.
pub mod LinkedList
pub mod Scheduler
pub mod Lock
pub mod SynchList
pub mod Semaphore
pub mod Philosophers
mod Tests
