-- ===== src/Nic.antt =====
-- tools/exe-harness/rtl8019-model.js: the model of the RTL8019AS/DP8390 network card.
pub mod Types
pub mod Prom
pub mod Receive
pub mod Dma
pub mod Clock
pub mod Transmit
pub mod Control
pub mod Faults
pub mod Regs
pub mod Build
pub mod Run
mod Tests
