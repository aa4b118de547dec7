-- ===== src/Cxl.antt =====
-- src/cxl: the memory commands of the CXL protocol, from the host's call to the response that it
-- receives.
pub mod Memory
pub mod Protocol
pub mod Endpoints
pub mod Session
pub mod System
mod Tests
