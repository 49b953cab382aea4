-- ===== src/System.antt =====
-- System calls: sdk/src/syscall.c over sdk/include/syscall_numbers.h. The kernel is a parameter.
pub mod Sys
pub mod Call
pub mod Terminal
pub mod Files
pub mod Processes
pub mod Channels
pub mod Users
