-- ===== src/Utf.antt =====
-- src/utl_utf.c: the character classes of Latin-1 and the UTF-8 decoder.
-- An `int` character is a number: the decoder and the matcher pass none below 0. A text is the
-- list of the bytes in memory from the pointer on; its terminating NUL is in the list, and a
-- read past the list is the fault `none`.
pub mod Classes
pub mod Next
pub mod Encode
pub mod Decode
pub mod Tables
mod Tests
