-- ===== src/Hello.antt =====
-- The program of examples/hello.c on the library: a system call, and printf of its result.
pub mod Greeting
use axiome_toolchain.Base.{ℕ, ◌%◌, ◌^◌, List, [], ◌∷◌, Option, codes}
use axiome_toolchain.World.{World}
use axiome_toolchain.System.Call.{Kernel}
use axiome_toolchain.System.Processes.{sys_getpid}
use axiome_toolchain.Stdio.Format.Run.{word}
use axiome_toolchain.Stdio.Printf.{printf}
use axiome_toolchain.Stdio.Console.{no_output}
use axiome_toolchain.Filetest.{finish}

module _ {K : Type 0} (kernel : Kernel K) (literal : List ℕ → ℕ) (outbuf : ℕ) where
  unfoldable pub main : World K → Option (ℕ × World K)
  main w =
      let (pid, w') = sys_getpid kernel w in
      finish kernel literal outbuf
        (printf (codes "Hello from AxiomeOS SDK! pid=%d\n") (word (pid % 2 ^ 32) ∷ []) no_output) w'
