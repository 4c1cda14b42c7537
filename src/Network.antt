-- ===== src/Network.antt =====
-- src/kernel/io/network/internet.c and udp.c: the headers of packets and their checksums.
pub mod Bytes
pub mod Checksum
pub mod Ip
pub mod Udp
mod Tests
