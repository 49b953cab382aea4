-- ===== src/Strings/Scan.antt =====
-- The single-character scans of sdk/src/string.c: strlen, memchr, strchr and strrchr.
pub mod Place
use axiome_toolchain.Base.{ℕ, zero, suc, ◌+◌, ◌%◌, Option, none, some, ◌==◌, if◌then◌else◌}
use axiome_toolchain.Memory.{Memory, null}

-- `while (s[i]) i++; return i;`
pub strlen_loop : ℕ → ℕ → ℕ → Memory → Option ℕ
strlen_loop zero i s m = none
strlen_loop (suc fuel) i s m =
    let rest = strlen_loop fuel (suc i) s m in if m (s + i) == 0 then some i else rest

unfoldable pub strlen : ℕ → ℕ → Memory → Option ℕ
unfolding strlen_loop
strlen fuel s m = strlen_loop fuel 0 s m

pub memchr_loop : ℕ → ℕ → ℕ → ℕ → Memory → ℕ
memchr_loop zero i s ch m = null
memchr_loop (suc left) i s ch m =
    let rest = memchr_loop left (suc i) s ch m in if m (s + i) == ch then s + i else rest

unfoldable pub memchr : ℕ → ℕ → ℕ → Memory → ℕ
unfolding memchr_loop
memchr s c n m = memchr_loop n 0 s (c % 256) m

-- The argument `c` is an `int`, given by its 32-bit pattern; `(char)c` keeps the low eight bits,
-- and the last line compares the `int` itself with 0.
unfoldable pub strchr : ℕ → ℕ → ℕ → Memory → Option ℕ
strchr zero s c m = none
strchr (suc fuel) s c m =
    let rest = strchr fuel (suc s) c m in
    if m s == 0 then some (if c == 0 then s else null) else if m s == c % 256 then some s else rest

-- The loop of strrchr: the last match, and the terminator's address.
pub strrchr_loop : ℕ → ℕ → ℕ → ℕ → Memory → Option (ℕ × ℕ)
strrchr_loop zero last s c m = none
strrchr_loop (suc fuel) last s c m =
    let rest = strrchr_loop fuel (if m s == c % 256 then s else last) (suc s) c m in
    if m s == 0 then some (last, s) else rest

abbrev pub strrchr_return : ℕ → Option (ℕ × ℕ) → Option ℕ
strrchr_return c none = none
strrchr_return c (some (last, s)) = some (if c == 0 then s else last)

unfoldable pub strrchr : ℕ → ℕ → ℕ → Memory → Option ℕ
unfolding strrchr_loop
strrchr fuel s c m = strrchr_return c (strrchr_loop fuel null s c m)
