-- ===== src/Peers.antt =====
-- tools/exe-harness/net-builders.js, lines 442-1018: the responders that keep a state between frames.
pub mod Session
pub mod Http
pub mod Posted
pub mod Chunks
pub mod Reliable
pub mod Stream
pub mod Store
pub mod Tcp
pub mod Ftp
pub mod Responders
pub mod Dispatch
mod Tests
