-- ===== src/Memory.antt =====
-- The byte-addressed memory that the functions of sdk/src/string.c work on. A pointer is its
-- address, `null` is 0, and a `char` is its bit pattern, a number below 256.
mod Text
pub mod Words
pub mod Runs
pub use Text.*
use axiome_toolchain.Base.{ℕ, ◌==◌, if◌then◌else◌}

abbrev pub Memory : Type 0
Memory = ℕ → ℕ

abbrev pub null : ℕ
null = 0

-- `*a = v` through an `unsigned char *`.
abbrev pub store : Memory → ℕ → ℕ → Memory
store m a v x = if x == a then v else m x
