-- ===== src/Fs.antt =====
-- A4-File-System: the file system on a disk image, and its formatting.
pub mod State
pub mod Lookup
pub mod Create
pub mod Unlink
pub mod Truncate
pub mod Access
pub mod Format
pub mod Dentries
pub mod Entering
pub mod Creation
pub mod Growth
pub mod Extension
pub mod Misses
pub mod Reclaim
pub mod RootLoss
pub mod Stamps
pub mod Agree
pub mod Counts
pub mod Formatted
pub mod RoundTrip
mod Examples
