-- ===== src/Ait.antt =====
-- The address indirection table with its buffer of 4096-byte blocks: src/general/ait.cpp and
-- src/general/ait.h.
pub mod Entry
pub mod Controller
pub mod Transfer
pub mod Lsq
pub mod Lmemq
pub mod Tick
pub mod Progress
pub mod Evict
pub mod Subrequests
pub mod Accept
mod Tests
