-- ===== src/Tcp.antt =====
-- src/kernel/io/network/tcp.c: sequence numbers, the receive and transmit windows, the header's
-- options. Bytes are numbers; a `uint32_t` sequence number is a number below `2 ^ 32`.
pub mod Sequence
pub mod Receive
pub mod Transmit
pub mod Header
pub mod Options
pub mod Handshake
