-- ===== src/Util.antt =====
-- util.c: the texts that the client takes apart and prints.
pub mod Split
pub mod Words
pub mod Scan
pub mod Joined
pub mod Last
pub mod Digits
pub mod Decimal
