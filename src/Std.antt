-- ===== src/Std.antt =====
-- What the program uses of Rust's standard library: UTF-8 and the decimal print of a `u64`.
pub mod Utf8
pub mod Decimal
pub mod HashMap
pub mod BTreeSet
