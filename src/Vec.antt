-- ===== src/Vec.antt =====
-- src/utl_vec.h and src/utl_vec.c: the extensible array.
pub mod Slots
pub mod Defs
pub mod Growth
pub mod Array
pub mod Insert
pub mod Sorted
pub mod Gap
pub mod Remove
pub mod Range
pub mod Stack
pub mod Buf
pub mod Que
pub mod Iter
pub mod Swap
pub mod New
pub mod Hash
pub mod Arb
mod Tests
