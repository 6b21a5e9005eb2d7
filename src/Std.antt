-- ===== src/Std.antt =====
-- The kernel's standard library, shared/std. A `char*` is the list of the bytes from it to the
-- end of its object, and the outcome `none` is a read or write outside it.
pub mod Text
pub mod Hex
pub mod Compare
pub mod Format
pub mod Mem
