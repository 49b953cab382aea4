-- ===== src/Strings/Copy.antt =====
-- The block functions of sdk/src/string.c: memcpy, memset and memmove. A call returns its pointer
-- and the memory after it. `n` is the count of rounds, so these loops need no fuel.
pub mod Exact
use axiome_toolchain.Base.{ℕ, zero, suc, ◌+◌, ◌%◌, ltb, if◌then◌else◌}
use axiome_toolchain.Memory.{Memory, store}

-- `for (i = 0; i < n; i++) d[i] = s[i];` with n - i rounds left.
pub copy_up : ℕ → ℕ → ℕ → ℕ → Memory → Memory
copy_up zero i d s m = m
copy_up (suc left) i d s m = copy_up left (suc i) d s (store m (d + i) (m (s + i)))

-- `for (i = n; i > 0; i--) d[i - 1] = s[i - 1];`
pub copy_down : ℕ → ℕ → ℕ → Memory → Memory
copy_down zero d s m = m
copy_down (suc i) d s m = copy_down i d s (store m (d + i) (m (s + i)))

pub fill : ℕ → ℕ → ℕ → ℕ → Memory → Memory
fill zero i d v m = m
fill (suc left) i d v m = fill left (suc i) d v (store m (d + i) v)

unfoldable pub memcpy : ℕ → ℕ → ℕ → Memory → ℕ × Memory
unfolding copy_up
memcpy dst src n m = (dst, copy_up n 0 dst src m)

-- `(unsigned char)c` keeps the low eight bits.
unfoldable pub memset : ℕ → ℕ → ℕ → Memory → ℕ × Memory
unfolding fill
memset dst c n m = (dst, fill n 0 dst (c % 256) m)

unfoldable pub memmove : ℕ → ℕ → ℕ → Memory → ℕ × Memory
unfolding copy_up copy_down
memmove dst src n m = (dst, if ltb dst src then copy_up n 0 dst src m else copy_down n dst src m)
