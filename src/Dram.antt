-- ===== src/Dram.antt =====
-- src/general/dram.h, ddr4.h, ddr4.cpp, dram_memory.h and `dram_mapping` of mapping.h: the DDR4
-- memory, as a tree of nodes with their timing, and the controller that schedules its commands.
pub mod Ddr4
pub mod Node
pub mod Tables
pub mod Tree
pub mod Request
pub mod Controller
pub mod Mapping
pub mod Rows
pub mod Schedule
pub mod Continues
pub mod Pending
pub mod Untimed
pub mod Forward
pub mod Memory
pub mod Shape
pub mod Nodes
pub mod Clocks
pub mod Path
pub mod Constraint
pub mod Timing
mod Tests
pub mod Issue
