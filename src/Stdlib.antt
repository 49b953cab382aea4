-- ===== src/Stdlib.antt =====
-- sdk/src/stdlib.c: the allocator, number parsing, the environment, and the end of a program.
pub mod Heap
pub mod Alloc
pub mod Number
pub mod Environment
pub mod Process
pub mod Client
