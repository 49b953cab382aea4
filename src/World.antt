-- ===== src/World.antt =====
-- What the functions of sdk/src that call the kernel work on: the variables of the library, memory,
-- and the kernel, which is not part of the repository and a parameter of type `K` here.
use axiome_toolchain.Base.{ℕ, ◌==◌, if◌then◌else◌}
use axiome_toolchain.Memory.{Memory}
use axiome_toolchain.Stdlib.Heap.{Heap}

-- `FILE` of sdk/include/stdio.h. The numbers of type `int` are 32-bit patterns.
pub record File : Type 0 where
  pub fd : ℕ
  pub flags : ℕ
  pub eof : ℕ
  pub err : ℕ
  pub buf : ℕ
  pub buf_size : ℕ
  pub buf_pos : ℕ
  pub buf_len : ℕ

-- `libc` holds the allocator's variables and `errno`; `files` the `FILE` at each address, apart
-- from the bytes of memory, as the allocator's headers are.
pub record World (K : Type 0) : Type 0 where
  pub libc : Heap
  pub files : ℕ → File
  pub mem : Memory
  pub sys : K

module _ {K : Type 0} where
  abbrev pub set_errno : ℕ → World K → World K
  set_errno e w = record w { libc = record w.libc { errno = e } }

  abbrev pub set_file : ℕ → File → World K → World K
  set_file p f w = record w { files = λ q. if q == p then f else w.files q }
