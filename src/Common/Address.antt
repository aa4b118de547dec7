-- ===== src/Common/Address.antt =====
-- src/general/utils.h, namespaces rmw and ait: 256-byte and 4096-byte blocks. The arithmetic of each
-- function is written as the code has it; the lemmas say what it is as arithmetic.
pub mod Rmw
pub mod Ait
