-- ===== src/Hello/Greeting.antt =====
-- What the program of examples/hello.c delivers.
use axiome_toolchain.Base.{
  ℕ, ◌%◌, ◌^◌, ◌<◌, ◌≡◌, refl, List, [], ◌∷◌, ◌++◌, some, codes, true, false, arith, length, ltb,
  leb,
}
use axiome_toolchain.World.{World}
use axiome_toolchain.System.Sys
use axiome_toolchain.System.Call.{Kernel}
use axiome_toolchain.System.Call.Outcome.{value, syscall-result}
use axiome_toolchain.System.Processes.{sys_getpid}
use axiome_toolchain.System.Terminal.{IsTerminal}
use axiome_toolchain.Stdio.Digits.{render}
use axiome_toolchain.Stdio.Format.Run.{done, word}
use axiome_toolchain.Stdio.Format.Loop.{walk}
use axiome_toolchain.Stdio.Format.Directive.{
  parse_directive, read_flags, read_width, skip_precision, skip_digits, read_lengths, read_spec,
}
use axiome_toolchain.Stdio.Printf.Fields.{printed}
use axiome_toolchain.Filetest.Output.{finish-Delivered}
use axiome_toolchain.Hello.{main}

greeting_line :
    (pid : ℕ)
    → pid < 2 ^ 31
    → printed (codes "Hello from AxiomeOS SDK! pid=%d\n") (word pid ∷ [])
      ≡ done (codes "Hello from AxiomeOS SDK! pid=" ++ (render 10 false pid ++ codes "\n"))
unfolding walk parse_directive read_flags read_width skip_precision skip_digits read_lengths
    read_spec
greeting_line pid lt =
    let a : pid % 2 ^ 32 ≡ pid = omega arith in
    let b : ltb pid (2 ^ 31) ≡ true = ground arith in
    let c : leb (2 ^ 63) pid ≡ false = ground arith in
    let d : ltb (length (render 10 false pid)) 0 ≡ false = ground arith in rw (a, b, c, d) refl

-- The program of examples/hello.c, on a descriptor 1 that takes each write in full, where the kernel
-- answers getpid with a number below 2^31: it ends and returns 0, and delivers the greeting with the
-- decimal digits of that number, and a newline.
pub main-greeting :
    {K : Type 0} (kernel : Kernel K) (delivered : K → List ℕ)
    (terminal : IsTerminal kernel 1 delivered) (literal : List ℕ → ℕ) (outbuf pid : ℕ) (k : K)
    (w : World K)
    → kernel Sys.getpid 0 0 0 0 0 0 w.mem w.sys ≡ (pid, w.mem, k)
    → pid < 2 ^ 31
    → (w' : World K) × (main kernel literal outbuf w ≡ some (0, w'))
      × (delivered w'.sys
          ≡ delivered k
            ++ (codes "Hello from AxiomeOS SDK! pid=" ++ (render 10 false pid ++ codes "\n")))
unfolding main sys_getpid
main-greeting kernel delivered terminal literal outbuf pid k w answer lt =
    let result =
      syscall-result kernel Sys.getpid 0 0 0 0 0 0 w (value pid) w.mem k (omega arith) answer in
    let same : pid % 2 ^ 32 ≡ pid = omega arith in
    let (w', ran, (kept, told)) =
      finish-Delivered kernel delivered terminal literal outbuf
        (codes "Hello from AxiomeOS SDK! pid=%d\n") (word pid ∷ []) _ (record w { sys = k })
        (greeting_line pid lt) in
    (w', rw (result, same) ran, told)
