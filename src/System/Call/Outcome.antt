-- ===== src/System/Call/Outcome.antt =====
-- What a system call tells its caller, against the kernel's convention: a value, or an error number.
use axiome_toolchain.Base.{ℕ, ◌-◌, ◌%◌, ◌^◌, ◌≤◌, ◌<◌, ◌≡◌, refl, true, false, ◌&&◌, arith, leb}
use axiome_toolchain.Memory.{Memory}
use axiome_toolchain.World.{World, set_errno}
use axiome_toolchain.System.Call.{Kernel, report, syscall, int_call, minus_one}

-- What the kernel has to say, and how it says it in one register.
pub data Outcome : Type 0 where
  value : ℕ → Outcome
  failure : ℕ → Outcome

abbrev pub encode : Outcome → ℕ
encode (value v) = v
encode (failure e) = 2 ^ 64 - e

-- The window of the last 4095 numbers is for errors.
abbrev pub IsOutcome : Outcome → Type 0
IsOutcome (value v) = v < 2 ^ 64 - 4095
IsOutcome (failure e) = (1 ≤ e) × (e ≤ 4095)

-- What the caller of `syscall` sees.
abbrev pub result : Outcome → ℕ
result (value v) = v
result (failure e) = minus_one

module _ {K : Type 0} where
  abbrev pub told : Outcome → World K → World K
  told (value v) w = w
  told (failure e) w = set_errno e w

  report_lem :
      (o : Outcome) (m : Memory) (k : K) (w : World K)
      → IsOutcome o
      → report (encode o, m, k) w ≡ (result o, told o (record w { mem = m; sys = k }))
  unfolding report
  report_lem (value v) m k w is =
      let same : v % 2 ^ 64 ≡ v = omega arith in
      let low : (leb (2 ^ 63) v && leb (2 ^ 64 - 4095) v) ≡ false = ground arith in
      rw (same, low) refl
  report_lem (failure e) m k w is =
      let same : (2 ^ 64 - e) % 2 ^ 64 ≡ 2 ^ 64 - e = omega arith in
      let high : (leb (2 ^ 63) (2 ^ 64 - e) && leb (2 ^ 64 - 4095) (2 ^ 64 - e)) ≡ true =
        ground arith in
      let back : (2 ^ 64 - (2 ^ 64 - e)) % 2 ^ 32 ≡ e = omega arith in rw (same, high, back) refl

module _ {K : Type 0} (kernel : Kernel K) (n a1 a2 a3 a4 a5 a6 : ℕ) (w : World K) (o : Outcome)
    (m : Memory) (k : K) (is : IsOutcome o)
    (e : kernel n a1 a2 a3 a4 a5 a6 w.mem w.sys ≡ (encode o, m, k)) where
  -- Where the kernel answers with a value outside the last 4095 numbers, syscall returns it and
  -- leaves `errno` alone; where it answers with an error `-e`, 1 <= e <= 4095, syscall returns -1
  -- and sets `errno` to `e`. Memory and the kernel's state are as the kernel left them.
  pub syscall-result :
      syscall kernel n a1 a2 a3 a4 a5 a6 w ≡ (result o, told o (record w { mem = m; sys = k }))
  unfolding syscall
  syscall-result = rw e (report_lem o m k w is)

  -- The same of `(int)syscall(...)`, by the low 32 bits: an error is -1 as an `int`.
  pub int_call-result :
      int_call kernel n a1 a2 a3 a4 a5 a6 w
      ≡ (result o % 2 ^ 32, told o (record w { mem = m; sys = k }))
  unfolding int_call
  int_call-result = rw syscall-result refl
