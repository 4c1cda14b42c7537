-- ===== src/Printk/Exchange.antt =====
-- What output writes, input reads back.
pub mod Address
pub mod Decimal
