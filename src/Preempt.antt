-- ===== src/Preempt.antt =====
-- A2-Preemptive-Threads: the thread library with wait queues, locks and condition variables.
pub mod Slots
pub mod State
pub mod WaitQueues
pub mod Threads
pub mod Switch
pub mod Sync
pub mod Wakeups
pub mod Scheduling
pub mod Resumed
pub mod RoundRobin
pub mod Sleeping
pub mod Locks
pub mod Exits
pub mod Creation
pub mod Kills
pub mod Waiting
pub mod Aborts
mod Examples
