-- ===== src/Strings/Duplicate.antt =====
-- strdup of sdk/src/string.c, which allocates by malloc of sdk/src/stdlib.c.
pub mod Copied
use axiome_toolchain.Base.{ℕ, ◌+◌, Option, some, ◌>>=◌, ◌==◌, if◌then◌else◌}
use axiome_toolchain.Memory.{Memory, null}
use axiome_toolchain.Stdlib.Heap.{Heap, malloc}
use axiome_toolchain.Stdlib.Alloc.{Answer}
use axiome_toolchain.Strings.Copy.{memcpy}
use axiome_toolchain.Strings.Scan.{strlen}

unfoldable pub strdup : ℕ → ℕ → ℕ → Heap → Memory → Answer
strdup heap fuel s h m = if s == null then some (null, h, m) else (do
  len ← strlen fuel s m
  (new_str, h') ← malloc heap fuel (len + 1) h
  some (new_str, h', if new_str == null then m else (memcpy new_str s (len + 1) m).1))
