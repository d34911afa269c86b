-- ===== src/Mem.antt =====
-- src/utl_mem.c: the memory pool and the checked allocator.
pub mod Pool
pub mod Check
mod Tests
