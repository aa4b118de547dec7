-- ===== src/Lib.antt =====
-- VANS is a simulator of non-volatile memory systems, stepped by clock ticks. Requests of 64-byte
-- cache lines enter the integrated memory controller (src/general/imc.cpp), which queues reads
-- and writes; it sends them to the read-modify-write buffer (src/general/rmw.cpp), a table of 256-byte
-- blocks that combines writes and serves reads; that one asks the address indirection table
-- (src/general/ait.cpp), a table of 4096-byte blocks with wear leveling, over the NV media
-- (src/general/nv_media.h, a memory of fixed latency). Each component answers `issue_request` with a
-- triple (src/general/common.h) and may be told by a callback when a request is served. The DDR4
-- memory (src/general/dram_memory.h, dram.h, ddr4.cpp) schedules DRAM commands under their timing
-- rules; systems (src/general/rmc.h, nvram_system.h) send a request to one of several components by its
-- address. Beside these stands a CXL memory (src/cxl) that a host reaches by commands. Requests
-- come from a trace (src/general/trace.cpp).
--
-- Parts and files:
--   Base          shared names; Base/Outcome: results of code that may throw; Base/Bits: 64-bit words.
--   Common        src/general/common.h, and the block addresses and powers of two of
--                 src/general/utils.h.
--   Counter       the counters of src/general/utils.h, named by a data type.
--   Mapping       src/general/mapping.h, the mappings over components.
--   Component     src/general/controller.h, drain and pending over the tree of components.
--                 Proofs: Walk.
--   RequestQueue  src/general/request_queue.h.
--   Buffer        src/general/buffer.h; Buffer/Lru: the scan for the entry to evict of rmw and ait.
--   StaticMemory  src/general/static_memory.h.
--   NextLevel     the components below a controller (src/general/component.h), as a record of the calls
--                 with a contract that the controllers' theorems take; NextLevel/Static fills it.
--   Rmw           src/general/rmw.h and rmw.cpp: Entry, Controller (state and requests of a transfer),
--                 Transfer (one function for each `trans(type, state)`), Combine, Lsq
--                 (check_and_evict, tick_lsq_read, tick_lsq_write), Tick. Proofs: Safety, Progress,
--                 Patch, Run.
--   Imc           src/general/imc.h and imc.cpp. Proofs: Flush, Retry, Tick, Starve.
--   Ait           src/general/ait.h and ait.cpp: Entry, Controller, Transfer, Lsq, Lmemq, Tick.
--                 Proofs: Evict, Accept, Progress, Subrequests.
--   Chain         the memory controller over the RMW buffer, and the RMW buffer over the AIT.
--   Dram          Ddr4: the tables of src/general/ddr4.h and ddr4.cpp (Rules: the timing rules; Tables:
--                 prerequisites and transitions); Node, Tree: the nodes of src/general/dram.h with
--                 decode, check and update; Request, Controller, Memory: src/general/dram_memory.h
--                 and ddr4_system.h; Mapping: dram_mapping of src/general/mapping.h. Proofs about
--                 the timing: Shape, Nodes, Clocks, Path, Timing, Constraint, Untimed; about the
--                 controller: Rows, Schedule, Issue, Continues, Pending, Forward; about the memory:
--                 Memory/Banks and Memory/Run.
--   System        src/general/rmc.h and nvram_system.h. Proofs: Dispatch.
--   Trace         get_dram_trace_request of src/general/trace.cpp. Proofs: Number, Line, File.
--   Cxl           src/cxl and src/general/cxl_system.h: Memory, Protocol, Endpoints, System. Proofs:
--                 Session, System.
--   Tests, and a module Tests in each part: concrete inputs.
--
-- How the code is modelled: a method is a function from the state to the next state, with the thrown
-- `runtime_error` and `out_of_range` as the values of `Error`; no exception is caught in the code, so
-- the state at a throw is not kept. Numbers are natural numbers with the wrap-around of 64 bits
-- written out (add64, sub64, mul64). A hash table is an association list. A callback is a name; the
-- calls of callbacks are logged in the state, the last one first, and the caller's reaction is a call
-- of its own (`next_level_read_callback`).
--
-- Bounds and fuel: the loop `while (!wpq.empty())` of flush_wpq is given a number of rounds; one more
-- than the queue holds is enough where a component that is not full issues what it is given, since
-- each round then takes a request off. Theorems about clocks take a horizon, with each sum of a clock
-- up to it and a latency below `clk_invalid`. The walks of the DRAM go down its tree, and
-- need no fuel. The loop of the trace reader is given a number of rounds; one more than the file has
-- lines is enough, unless it ends in a comment without a newline, where no number is.
--
-- Not modelled: `tick` down the tree of components, in which a controller also changes the components
-- below before they tick; the mocks of src/cxl/mocks other than the memory, run_trace, which measures and prints,
-- configuration and construction, counters' printing, and the gem5 bindings. The local memory of the
-- AIT is a parameter, as the components below each controller are; the DRAM is not joined to it.
pub mod Base
pub mod Common
pub mod Mapping
pub mod RequestQueue
pub mod Buffer
pub mod Counter
pub mod StaticMemory
pub mod Component
pub mod NextLevel
pub mod Rmw
pub mod Imc
pub mod Ait
pub mod Dram
pub mod Chain
pub mod System
pub mod Cxl
pub mod Trace
pub mod Tests
