-- ===== src/Tracking.antt =====
-- A3-Virtual-Memory/malloc369.c: an allocator that counts what it hands out.
pub mod Allocator
pub mod Accounts
pub mod Allocation
pub mod Release
pub mod Leaks
pub mod Misses
mod Examples
