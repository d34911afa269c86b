-- ===== src/Pmx.antt =====
-- src/utl_pmx.c and src/utl_pmx.h: the pattern matcher. A pointer into a pattern or a text is the
-- list of the bytes from there on, the terminating NUL included; a read past that list is a fault.
pub mod Store
pub mod Chars
pub mod Delim
pub mod Times
pub mod Class
pub mod Alt
pub mod Match
pub mod Search
pub mod Literal
pub mod Anchored
pub mod Find
pub mod Groups
pub mod Stuck
pub mod Listed
pub mod Repeat
mod Tests
