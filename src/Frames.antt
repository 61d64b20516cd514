-- ===== src/Frames.antt =====
-- tools/exe-harness/net-builders.js, lines 1-281: the frames that the simulated peers read and build.
pub mod Checksum
pub mod Udp
pub mod Arp
pub mod Dns
pub mod Dhcp
pub mod Ntp
pub mod Icmp
pub mod Tftp
pub mod Tcp
mod Tests
