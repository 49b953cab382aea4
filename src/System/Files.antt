-- ===== src/System/Files.antt =====
-- The wrappers for files and directories of sdk/src/syscall.c.
use axiome_toolchain.Base.{ℕ}
use axiome_toolchain.World.{World}
use axiome_toolchain.System.Sys
use axiome_toolchain.System.Call.{Kernel, syscall, int_call, long_of_int}

module _ {K : Type 0} (kernel : Kernel K) where
  unfoldable pub open_file : ℕ → ℕ → World K → ℕ × World K
  open_file path flags w = int_call kernel Sys.open_file path (long_of_int flags) 0 0 0 0 w

  unfoldable pub close : ℕ → World K → ℕ × World K
  close fd w = int_call kernel Sys.close (long_of_int fd) 0 0 0 0 0 w

  unfoldable pub write : ℕ → ℕ → ℕ → World K → ℕ × World K
  write fd buf len w = syscall kernel Sys.write (long_of_int fd) buf len 0 0 0 w

  unfoldable pub read : ℕ → ℕ → ℕ → World K → ℕ × World K
  read fd buf len w = syscall kernel Sys.read (long_of_int fd) buf len 0 0 0 w

  unfoldable pub mkdir : ℕ → World K → ℕ × World K
  mkdir path w = int_call kernel Sys.mkdir path 0 0 0 0 0 w

  unfoldable pub unlink : ℕ → World K → ℕ × World K
  unlink path w = int_call kernel Sys.unlink path 0 0 0 0 0 w

  unfoldable pub rmdir : ℕ → World K → ℕ × World K
  rmdir path w = int_call kernel Sys.rmdir path 0 0 0 0 0 w

  unfoldable pub readdir : ℕ → ℕ → ℕ → World K → ℕ × World K
  readdir path ents max w = int_call kernel Sys.readdir path ents (long_of_int max) 0 0 0 w

  unfoldable pub chdir : ℕ → World K → ℕ × World K
  chdir path w = int_call kernel Sys.chdir path 0 0 0 0 0 w

  unfoldable pub getcwd : ℕ → ℕ → World K → ℕ × World K
  getcwd buf size w = int_call kernel Sys.getcwd buf size 0 0 0 0 w

  unfoldable pub fstat : ℕ → ℕ → World K → ℕ × World K
  fstat fd st w = int_call kernel Sys.fstat (long_of_int fd) st 0 0 0 0 w

  unfoldable pub stat : ℕ → ℕ → World K → ℕ × World K
  stat path st w = int_call kernel Sys.stat path st 0 0 0 0 w

  unfoldable pub dup2 : ℕ → ℕ → World K → ℕ × World K
  dup2 oldfd newfd w = int_call kernel Sys.dup2 (long_of_int oldfd) (long_of_int newfd) 0 0 0 0 w

  unfoldable pub pipe : ℕ → World K → ℕ × World K
  pipe fds w = int_call kernel Sys.pipe fds 0 0 0 0 0 w

  unfoldable pub mount : ℕ → ℕ → ℕ → World K → ℕ × World K
  mount fstype mountpoint dev w =
      int_call kernel Sys.mount (long_of_int fstype) mountpoint (long_of_int dev) 0 0 0 w

  unfoldable pub umount : ℕ → World K → ℕ × World K
  umount mountpoint w = int_call kernel Sys.umount mountpoint 0 0 0 0 0 w

  unfoldable pub mkfifo : ℕ → World K → ℕ × World K
  mkfifo path w = int_call kernel Sys.mkfifo path 0 0 0 0 0 w

  unfoldable pub lseek : ℕ → ℕ → ℕ → World K → ℕ × World K
  lseek fd offset whence w =
      syscall kernel Sys.lseek (long_of_int fd) offset (long_of_int whence) 0 0 0 w

  unfoldable pub pread : ℕ → ℕ → ℕ → ℕ → World K → ℕ × World K
  pread fd buf len off w = syscall kernel Sys.pread (long_of_int fd) buf len off 0 0 w

  unfoldable pub pwrite : ℕ → ℕ → ℕ → ℕ → World K → ℕ × World K
  pwrite fd buf len off w = syscall kernel Sys.pwrite (long_of_int fd) buf len off 0 0 w

  unfoldable pub fb_mmap : ℕ → ℕ → ℕ → ℕ → World K → ℕ × World K
  fb_mmap fd off virt len w = syscall kernel Sys.mmap (long_of_int fd) off virt len 0 0 w
