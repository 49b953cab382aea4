-- ===== src/Signal.antt =====
-- sigaction and kill of sdk/src/signal.c. `struct sigaction` is four words in memory: the handler, the
-- flags, the restorer and the mask. `trampoline` is the address of __sigreturn_trampoline, `local` that
-- of the variable on the stack.
pub mod Action
use axiome_toolchain.Base.{ℕ, ◌+◌, ◌/◌, ◌%◌, ◌==◌, if◌then◌else◌}
use axiome_toolchain.Memory.{Memory, null}
use axiome_toolchain.Memory.Words.{get_long, put_long, copy_struct}
use axiome_toolchain.World.{World}
use axiome_toolchain.System.Sys
use axiome_toolchain.System.Call.{Kernel, syscall, int_call, long_of_int}

-- `flags | SA_RESTORER`, the bit of value 8.
abbrev pub with_restorer : ℕ → ℕ
with_restorer flags = if flags / 8 % 2 == 1 then flags else flags + 8

-- `local = *act`, and the two assignments behind it.
unfoldable pub local_action : ℕ → ℕ → ℕ → Memory → Memory
local_action trampoline local act m =
    let m1 : Memory = copy_struct 32 local act m in
    let m2 : Memory = put_long (local + 16) trampoline m1 in
    put_long (local + 8) (with_restorer (get_long (local + 8) m2)) m2

module _ {K : Type 0} (kernel : Kernel K) where
  unfoldable pub sigaction : ℕ → ℕ → ℕ → ℕ → ℕ → World K → ℕ × World K
  sigaction trampoline local signo act oldact w =
      if act == null
      then int_call kernel Sys.sigaction (long_of_int signo) act oldact 0 0 0 w
      else int_call kernel Sys.sigaction (long_of_int signo) local oldact 0 0 0
          (record w { mem = local_action trampoline local act w.mem })

  unfoldable pub kill : ℕ → ℕ → World K → ℕ × World K
  kill pid sig w = int_call kernel Sys.kill (long_of_int pid) (long_of_int sig) 0 0 0 0 w

  unfoldable pub sigreturn : World K → World K
  sigreturn w = (syscall kernel Sys.sigreturn 0 0 0 0 0 0 w).1
