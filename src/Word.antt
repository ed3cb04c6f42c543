-- ===== src/Word.antt =====
-- cmake/bigint/src/base.c: arithmetic on machine words, each operation with the word that does
-- not fit the result (a carry, a borrow, a high half), the counts of bits, and a
-- division.
pub mod Carry
pub mod Count
pub mod Div
