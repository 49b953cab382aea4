-- ===== src/System/Call.antt =====
-- `syscall` of sdk/src/syscall.c: the trap into the kernel, and what its result means. A `long` is
-- its 64-bit pattern and an `int` its 32-bit pattern.
pub mod Outcome
use axiome_toolchain.Base.{ℕ, ◌+◌, ◌-◌, ◌%◌, ◌^◌, ◌&&◌, ltb, leb, if◌then◌else◌}
use axiome_toolchain.Memory.{Memory}
use axiome_toolchain.World.{World, set_errno}

-- The kernel's answer to the number and the six arguments: the register `rax`, memory, and its state.
abbrev pub Kernel : Type 0 → Type 0
Kernel K = ℕ → ℕ → ℕ → ℕ → ℕ → ℕ → ℕ → Memory → K → ℕ × Memory × K

-- -1 as a `long` and as an `int`.
abbrev pub minus_one : ℕ
minus_one = 2 ^ 64 - 1

abbrev pub minus_one_int : ℕ
minus_one_int = 2 ^ 32 - 1

-- `(long)x` for an `int`, and for an `unsigned int`.
abbrev pub long_of_int : ℕ → ℕ
long_of_int x =
    let low : ℕ = x % 2 ^ 32 in if ltb low (2 ^ 31) then low else low + (2 ^ 64 - 2 ^ 32)

abbrev pub long_of_unsigned : ℕ → ℕ
long_of_unsigned x = x % 2 ^ 32

-- `Handle negative errno values from kernel`, and the return.
unfoldable pub report : {K : Type 0} → ℕ × Memory × K → World K → ℕ × World K
report {K} (r, m, k) w =
    let ret : ℕ = r % 2 ^ 64 in
    let w' : World K = record w { mem = m; sys = k } in
    if leb (2 ^ 63) ret && leb (2 ^ 64 - 4095) ret
    then (minus_one, set_errno ((2 ^ 64 - ret) % 2 ^ 32) w')
    else (ret, w')

module _ {K : Type 0} (kernel : Kernel K) where
  unfoldable pub syscall : ℕ → ℕ → ℕ → ℕ → ℕ → ℕ → ℕ → World K → ℕ × World K
  syscall n a1 a2 a3 a4 a5 a6 w = report (kernel n a1 a2 a3 a4 a5 a6 w.mem w.sys) w

  -- `(int)syscall(...)`
  unfoldable pub int_call : ℕ → ℕ → ℕ → ℕ → ℕ → ℕ → ℕ → World K → ℕ × World K
  int_call n a1 a2 a3 a4 a5 a6 w = let (r, w') = syscall n a1 a2 a3 a4 a5 a6 w in (r % 2 ^ 32, w')
