-- ===== src/Harness.antt =====
-- tools/exe-harness/harness.js, lines 36-552: the machine around the Z80 CPU.
pub mod Memory
pub mod Ports
pub mod Loader
pub mod Blocks
mod Tests
