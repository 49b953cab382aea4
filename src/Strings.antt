-- ===== src/Strings.antt =====
-- sdk/src/string.c. Each loop is a function of its own over its variables; a loop that runs to a
-- terminator takes fuel, the number of rounds it may start, and answers `none` when it runs out.
pub mod Copy
pub mod Scan
pub mod Compare
pub mod Span
pub mod Build
pub mod Search
pub mod Token
pub mod Duplicate
