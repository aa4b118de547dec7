-- ===== src/Rmw.antt =====
-- src/general/rmw.h and src/general/rmw.cpp: the read-modify-write buffer of 256-byte blocks between
-- the memory controller and the AIT.
pub mod Entry
pub mod Controller
pub mod Transfer
pub mod Combine
pub mod Lsq
pub mod Tick
pub mod Safety
pub mod Run
pub mod Progress
pub mod Patch
mod Tests
