-- ===== src/System/Processes.antt =====
-- The wrappers for processes, power, modules and system information of sdk/src/syscall.c.
use axiome_toolchain.Base.{ℕ}
use axiome_toolchain.World.{World}
use axiome_toolchain.System.Sys
use axiome_toolchain.System.Call.{Kernel, syscall, int_call, long_of_int}

module _ {K : Type 0} (kernel : Kernel K) where
  unfoldable pub driver_rescan : World K → ℕ × World K
  driver_rescan w = syscall kernel Sys.driver_rescan 0 0 0 0 0 0 w

  unfoldable pub sys_getpid : World K → ℕ × World K
  sys_getpid w = syscall kernel Sys.getpid 0 0 0 0 0 0 w

  unfoldable pub sys_yield : World K → ℕ × World K
  sys_yield w = syscall kernel Sys.yield 0 0 0 0 0 0 w

  unfoldable pub sys_fork : World K → ℕ × World K
  sys_fork w = syscall kernel Sys.fork 0 0 0 0 0 0 w

  unfoldable pub sys_spawn_cmd : ℕ → ℕ → World K → ℕ × World K
  sys_spawn_cmd cmdline len w = syscall kernel Sys.spawn_cmd cmdline len 0 0 0 0 w

  unfoldable pub execve : ℕ → ℕ → ℕ → World K → ℕ × World K
  execve path argv envp w = int_call kernel Sys.execve path argv envp 0 0 0 w

  unfoldable pub sys_waitpid : ℕ → ℕ → World K → ℕ × World K
  sys_waitpid pid status w = syscall kernel Sys.waitpid (long_of_int pid) status 0 0 0 0 w

  unfoldable pub sys_waitpid_nb : ℕ → ℕ → World K → ℕ × World K
  sys_waitpid_nb pid status w = syscall kernel Sys.waitpid_nb (long_of_int pid) status 0 0 0 0 w

  unfoldable pub sys_ps : ℕ → ℕ → World K → ℕ × World K
  sys_ps buf max w = int_call kernel Sys.ps buf (long_of_int max) 0 0 0 0 w

  unfoldable pub sys_exit : ℕ → World K → World K
  sys_exit code w = (syscall kernel Sys.exit (long_of_int code) 0 0 0 0 0 w).1

  unfoldable pub sys_reboot : World K → World K
  sys_reboot w = (syscall kernel Sys.reboot 0 0 0 0 0 0 w).1

  unfoldable pub sys_poweroff : World K → World K
  sys_poweroff w = (syscall kernel Sys.poweroff 0 0 0 0 0 0 w).1

  unfoldable pub kxtload : ℕ → World K → ℕ × World K
  kxtload path w = syscall kernel Sys.module_load path 0 0 0 0 0 w

  unfoldable pub kxtunload : ℕ → World K → ℕ × World K
  kxtunload name w = syscall kernel Sys.module_unload name 0 0 0 0 0 w

  unfoldable pub uname : ℕ → World K → ℕ × World K
  uname buf w = int_call kernel Sys.uname buf 0 0 0 0 0 w
