-- ===== src/Stdio.antt =====
-- sdk/src/stdio.c: the output buffer, number rendering and the two formatters.
pub mod Buffer
pub mod Digits
pub mod Format
pub mod Snprintf
pub mod Printf
pub mod Streams
pub mod Console
pub mod Opening
