-- ===== src/Memory.antt =====
-- A3-Virtual-Memory: the page table, the frames of memory, the swap file and the policies that choose what to evict.
pub mod State
pub mod Swap
pub mod Policies
pub mod Lists
pub mod TwoQueues
pub mod Rings
pub mod Insertion
pub mod Deletion
pub mod Queues
pub mod QueueMoves
pub mod Managed
pub mod References
pub mod Victims
pub mod Eviction
pub mod PageTable
pub mod Cleared
pub mod Clock
pub mod ClockEvict
pub mod SwapSpace
pub mod SwapPages
pub mod Turns
pub mod Translation
pub mod FirstReference
mod Examples
pub mod Simulator
pub mod Replay
mod ListExamples
