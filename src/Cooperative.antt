-- ===== src/Cooperative.antt =====
-- A1-Cooperative-Threads/thread.c: the first version of the thread library, without interrupts and wait queues.
pub mod State
pub mod Threads
pub mod Scheduling
pub mod Yields
pub mod Ends
pub mod Creation
mod Examples
