-- ===== src/Stdlib/Number.antt =====
-- atoi and atol of sdk/src/stdlib.c, which are one code at the widths of `int` and `long`. The value
-- is the two's complement pattern of the variable `v`: signed overflow, which C leaves undefined,
-- wraps around here, and no theorem is about an input on which it happens.
pub mod Value
use axiome_toolchain.Base.{
  ℕ, zero, suc, ◌+◌, ◌-◌, ◌*◌, ◌%◌, ◌^◌, Bool, true, false, ◌&&◌, ◌||◌, Option, none, some, ◌>>=◌,
  ltb, leb, ◌==◌, if◌then◌else◌,
}
use axiome_toolchain.Base.Int.{ℤ, pos, negsuc}
use axiome_toolchain.Memory.{Memory}

abbrev pub is_space : ℕ → Bool
is_space c = (c == b' ') || (c == 9) || (c == 10) || (c == 13)

abbrev pub is_digit : ℕ → Bool
is_digit c = leb b'0' c && leb c b'9'

pub skip_space : ℕ → ℕ → Memory → Option ℕ
skip_space zero s m = none
skip_space (suc fuel) s m =
    let rest = skip_space fuel (suc s) m in if is_space (m s) then rest else some s

pub read_digits : ℕ → ℕ → ℕ → ℕ → Memory → Option ℕ
read_digits width zero s v m = none
read_digits width (suc fuel) s v m =
    let rest = read_digits width fuel (suc s) ((v * 10 + (m s - b'0')) % 2 ^ width) m in
    if is_digit (m s) then rest else some v

-- The integer that a two's complement pattern stands for.
abbrev pub signed : ℕ → ℕ → ℤ
signed width x = if ltb x (2 ^ (width - 1)) then pos x else negsuc (2 ^ width - x - 1)

unfoldable pub parse : ℕ → ℕ → ℕ → Memory → Option ℤ
unfolding skip_space read_digits
parse width fuel s m = do
  p ← skip_space fuel s m
  let neg = m p == b'-'
  let q : ℕ = if neg || (m p == b'+') then suc p else p
  v ← read_digits width fuel q 0 m
  some (signed width (if neg then (2 ^ width - v) % 2 ^ width else v))

unfoldable pub atoi : ℕ → ℕ → Memory → Option ℤ
unfolding parse
atoi fuel s m = parse 32 fuel s m

unfoldable pub atol : ℕ → ℕ → Memory → Option ℤ
unfolding parse
atol fuel s m = parse 64 fuel s m
