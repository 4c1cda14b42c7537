-- ===== src/Printk.antt =====
-- src/kernel/main/printk.c: formatted output and input. A character is its number, below 128; what
-- stands behind a string is the terminator, 0.
pub mod Number
pub mod Format
pub mod Print
pub mod Scan
pub mod Exchange
mod Tests
