-- ===== src/Strings/Compare.antt =====
-- The comparisons of sdk/src/string.c: memcmp, strcmp and strncmp. The `int` result is the
-- difference of two `unsigned char`s.
pub mod Order
use axiome_toolchain.Base.{ℕ, zero, suc, ◌+◌, Option, none, some, not, ◌&&◌, ◌==◌, if◌then◌else◌}
use axiome_toolchain.Base.Int.{ℤ, pos, sub_ℕ}
use axiome_toolchain.Memory.{Memory}

pub memcmp_loop : ℕ → ℕ → ℕ → ℕ → Memory → ℤ
memcmp_loop zero i a b m = pos 0
memcmp_loop (suc left) i a b m =
    let rest = memcmp_loop left (suc i) a b m in
    if not (m (a + i) == m (b + i)) then sub_ℕ (m (a + i)) (m (b + i)) else rest

unfoldable pub memcmp : ℕ → ℕ → ℕ → Memory → ℤ
unfolding memcmp_loop
memcmp a b n m = memcmp_loop n 0 a b m

unfoldable pub strcmp : ℕ → ℕ → ℕ → Memory → Option ℤ
strcmp zero a b m = none
strcmp (suc fuel) a b m =
    let rest = strcmp fuel (suc a) (suc b) m in
    if not (m a == 0) && (m a == m b) then rest else some (sub_ℕ (m a) (m b))

pub strncmp_loop : ℕ → ℕ → ℕ → ℕ → Memory → ℤ
strncmp_loop zero i a b m = pos 0
strncmp_loop (suc left) i a b m =
    let rest = strncmp_loop left (suc i) a b m in
    if not (m (a + i) == m (b + i))
    then sub_ℕ (m (a + i)) (m (b + i))
    else if m (a + i) == 0
    then pos 0
    else rest

unfoldable pub strncmp : ℕ → ℕ → ℕ → Memory → ℤ
unfolding strncmp_loop
strncmp a b n m = strncmp_loop n 0 a b m
