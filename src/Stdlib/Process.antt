-- ===== src/Stdlib/Process.antt =====
-- exit and abort of sdk/src/stdlib.c: the system call, and the world in which the loop of `hlt` behind
-- it would wait if the kernel came back.
use axiome_toolchain.Base.{ℕ}
use axiome_toolchain.World.{World}
use axiome_toolchain.System.Sys
use axiome_toolchain.System.Call.{Kernel, syscall, long_of_int}

module _ {K : Type 0} (kernel : Kernel K) where
  unfoldable pub abort : World K → World K
  abort w = (syscall kernel Sys.exit 134 0 0 0 0 0 w).1

  unfoldable pub exit : ℕ → World K → World K
  exit status w = (syscall kernel Sys.exit (long_of_int status) 0 0 0 0 0 w).1
