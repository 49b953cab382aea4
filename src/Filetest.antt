-- ===== src/Filetest.antt =====
-- The program of examples/filetest.c on the library: write, malloc, strcpy, free and printf in one
-- run. `literal` gives the addresses of its strings, `outbuf` that of printf's buffer.
pub mod Output
use axiome_toolchain.Base.{
  ℕ, ◌^◌, List, [], ◌∷◌, Option, none, some, ◌>>=◌, codes, length, ◌==◌, if◌then◌else◌,
}
use axiome_toolchain.Memory.{Memory, null, store}
use axiome_toolchain.World.{World}
use axiome_toolchain.Stdlib.Heap.{Heap, malloc, free}
use axiome_toolchain.Strings.Scan.{strlen}
use axiome_toolchain.Strings.Build.{strcpy}
use axiome_toolchain.System.Call.{Kernel}
use axiome_toolchain.System.Files.{write}
use axiome_toolchain.Stdio.Buffer.{Out}
use axiome_toolchain.Stdio.Format.Run.{Run, done, undefined, overrun, Arg, word}
use axiome_toolchain.Stdio.Printf.{printf}
use axiome_toolchain.Stdio.Console.{drain, no_output}
use axiome_toolchain.Stdio.Opening.{set_libc}
use axiome_toolchain.Util.{store_all}

module _ {K : Type 0} (kernel : Kernel K) (literal : List ℕ → ℕ) (outbuf : ℕ) where
  -- `printf(...); return 0;`
  abbrev pub finish : Run (ℕ × Out) → World K → Option (ℕ × World K)
  finish (done (r, o)) w = some (0, drain kernel outbuf o.written w)
  finish undefined w = none
  finish overrun w = none

  -- `strcpy(p, ...); write(1, p, strlen(p)); free(p);`
  unfoldable pub show_block : ℕ → ℕ → World K → Option (World K)
  show_block fuel p w = do
    (d, m) ← strcpy fuel p (literal (codes "malloc works\n")) w.mem
    n ← strlen fuel p m
    let w' : World K = (write kernel 1 p n (record w { mem = m })).1
    h ← free fuel p w'.libc
    some (set_libc h w')

  unfoldable pub main : ℕ → ℕ → World K → Option (ℕ × World K)
  main heap fuel w = do
    let msg : ℕ = literal (codes "Axiome SDK filetest\n")
    n ← strlen fuel msg w.mem
    let w1 : World K = (write kernel 1 msg n w).1
    (p, h) ← malloc heap fuel 32 w1.libc
    let w2 : World K = set_libc h w1
    w3 ← if p == null then some w2 else show_block fuel p w2
    finish (printf (codes "printf works: %d\n") (word 42 ∷ []) no_output) w3
