-- ===== src/System/Users.antt =====
-- The wrappers for users and permissions of sdk/src/syscall.c.
use axiome_toolchain.Base.{ℕ}
use axiome_toolchain.World.{World}
use axiome_toolchain.System.Sys
use axiome_toolchain.System.Call.{Kernel, syscall, int_call, long_of_unsigned}

module _ {K : Type 0} (kernel : Kernel K) where
  unfoldable pub sys_getpwnam : ℕ → ℕ → ℕ → World K → ℕ × World K
  sys_getpwnam name uid gid w = int_call kernel Sys.getpwnam name uid gid 0 0 0 w

  unfoldable pub sys_reload_users : World K → ℕ × World K
  sys_reload_users w = int_call kernel Sys.reload_users 0 0 0 0 0 0 w

  unfoldable pub getuid : World K → ℕ × World K
  getuid w = int_call kernel Sys.getuid 0 0 0 0 0 0 w

  unfoldable pub geteuid : World K → ℕ × World K
  geteuid w = int_call kernel Sys.geteuid 0 0 0 0 0 0 w

  unfoldable pub getgid : World K → ℕ × World K
  getgid w = int_call kernel Sys.getgid 0 0 0 0 0 0 w

  unfoldable pub getegid : World K → ℕ × World K
  getegid w = int_call kernel Sys.getegid 0 0 0 0 0 0 w

  unfoldable pub getrole : World K → ℕ × World K
  getrole w = int_call kernel Sys.getrole 0 0 0 0 0 0 w

  unfoldable pub getcap : World K → ℕ × World K
  getcap w = syscall kernel Sys.getcap 0 0 0 0 0 0 w

  unfoldable pub setuid : ℕ → World K → ℕ × World K
  setuid uid w = int_call kernel Sys.setuid (long_of_unsigned uid) 0 0 0 0 0 w

  unfoldable pub setgid : ℕ → World K → ℕ × World K
  setgid gid w = int_call kernel Sys.setgid (long_of_unsigned gid) 0 0 0 0 0 w

  unfoldable pub chmod : ℕ → ℕ → World K → ℕ × World K
  chmod path mode w = int_call kernel Sys.chmod path (long_of_unsigned mode) 0 0 0 0 w

  unfoldable pub chown : ℕ → ℕ → ℕ → World K → ℕ × World K
  chown path uid gid w =
      int_call kernel Sys.chown path (long_of_unsigned uid) (long_of_unsigned gid) 0 0 0 w

  unfoldable pub sys_authenticate : ℕ → ℕ → World K → ℕ × World K
  sys_authenticate user pass w = int_call kernel Sys.authenticate user pass 0 0 0 0 w
