-- ===== src/Strings/Build.antt =====
-- The string builders of sdk/src/string.c: strcpy, strncpy, strcat and strncat. A call returns its
-- pointer and the memory after it.
pub mod Result
use axiome_toolchain.Base.{ℕ, zero, suc, ◌+◌, Option, none, some, ◌>>=◌, ◌==◌, if◌then◌else◌}
use axiome_toolchain.Memory.{Memory, store}
use axiome_toolchain.Strings.Copy.{fill}
use axiome_toolchain.Strings.Scan.{strlen}

-- `while ((*d++ = *src++) != 0);`
pub put_string : ℕ → ℕ → ℕ → Memory → Option Memory
put_string zero d s m = none
put_string (suc fuel) d s m =
    let m' : Memory = store m d (m s) in
    let rest = put_string fuel (suc d) (suc s) m' in if m s == 0 then some m' else rest

unfoldable pub strcpy : ℕ → ℕ → ℕ → Memory → Option (ℕ × Memory)
unfolding put_string
strcpy fuel dst src m = do m' ← put_string fuel dst src m; some (dst, m')

unfoldable pub strcat : ℕ → ℕ → ℕ → Memory → Option (ℕ × Memory)
unfolding put_string
strcat fuel dst src m = do
  n ← strlen fuel dst m
  m' ← put_string fuel (dst + n) src m
  some (dst, m')

-- The first loop of strncpy with n - i rounds left. Its end, `i < n && src[i]` being false, hands
-- over to the second loop, which writes 0 to the rest.
pub strncpy_loop : ℕ → ℕ → ℕ → ℕ → Memory → Memory
strncpy_loop zero i d s m = m
strncpy_loop (suc left) i d s m =
    let rest = strncpy_loop left (suc i) d s (store m (d + i) (m (s + i))) in
    if m (s + i) == 0 then fill (suc left) i d 0 m else rest

unfoldable pub strncpy : ℕ → ℕ → ℕ → Memory → ℕ × Memory
unfolding strncpy_loop
strncpy dst src n m = (dst, strncpy_loop n 0 dst src m)

-- The loop of strncat, and the terminator behind it.
pub strncat_loop : ℕ → ℕ → ℕ → ℕ → Memory → Memory
strncat_loop zero i d s m = store m (d + i) 0
strncat_loop (suc left) i d s m =
    let rest = strncat_loop left (suc i) d s (store m (d + i) (m (s + i))) in
    if m (s + i) == 0 then store m (d + i) 0 else rest

unfoldable pub strncat : ℕ → ℕ → ℕ → ℕ → Memory → Option (ℕ × Memory)
unfolding strncat_loop
strncat fuel dst src n m = do k ← strlen fuel dst m; some (dst, strncat_loop n 0 (dst + k) src m)
