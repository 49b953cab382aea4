-- ===== src/Start/Process.antt =====
-- A whole process: `_start` of sdk/src/crt0.c around the program of examples/hello.c.
use axiome_toolchain.Base.{
  ℕ, ◌+◌, ◌*◌, ◌%◌, ◌^◌, ◌<◌, ◌≡◌, refl, ap, ◌∙◌, List, ◌++◌, Option, some, codes, false, arith,
}
use axiome_toolchain.Memory.{Memory}
use axiome_toolchain.Memory.Words.{get_long}
use axiome_toolchain.World.{World}
use axiome_toolchain.System.Sys
use axiome_toolchain.System.Call.{Kernel}
use axiome_toolchain.System.Terminal.{IsTerminal}
use axiome_toolchain.Stdio.Digits.{render}
use axiome_toolchain.Start.{
  Registers, Leftover, Main, load_arguments, restore_arguments, push, start,
}
use axiome_toolchain.Hello.{main}
use axiome_toolchain.Hello.Greeting.{main-greeting}

-- What lies on the stack: the count at the top, the array behind it, and the environment behind
-- the null pointer that ends the array.
abbrev pub argc_at : ℕ → Memory → ℕ
argc_at rsp m = get_long rsp m

abbrev pub argv_at : ℕ → ℕ
argv_at rsp = (rsp + 8) % 2 ^ 64

abbrev pub envp_at : ℕ → Memory → ℕ
envp_at rsp m = (rsp + 16 + 8 * argc_at rsp m) % 2 ^ 64

module _ {K : Type 0} (kernel : Kernel K) (setter leave : Leftover) where
  -- The system call exit with a status, with any leftover in the other registers and in memory.
  abbrev pub Exits : ℕ → World K → Option (ℕ × Memory × K) → Type 0
  Exits status w o =
      (r : Registers) × (m : Memory) × (o
        ≡ some (kernel Sys.exit status r.rsi r.rdx r.r10 r.r8 r.r9 m w.sys))

  -- Registers and memory when the setter comes back.
  abbrev pub behind_setter : ℕ → ℕ → Registers → World K → Registers × Memory
  behind_setter rsp ret r w = setter (load_arguments rsp w.mem r) (push rsp ret w.mem)

  -- The world when main begins.
  abbrev pub at_main : ℕ → ℕ → ℕ → Registers → World K → World K
  at_main rsp ret ret' r w = record w { mem = push rsp ret' (behind_setter rsp ret r w).1 }

  -- Whatever the compiled setter leaves in the registers: `_start` calls it with argc, argv and envp of
  -- the stack in r8, r9 and rdx, `environ` then points to the environment on the stack, and main gets
  -- for its arguments what the setter has left in r8 (the low 32 bits), r9 and rdx. Where main ends on
  -- these, the process makes the system call exit with the low 32 bits of its result.
  start-Exits :
      (program : Main K) (rsp ret ret' n : ℕ) (r : Registers) (w w' : World K)
      → program
          ((behind_setter rsp ret r w).0.r8 % 2 ^ 32)
          (behind_setter rsp ret r w).0.r9
          (behind_setter rsp ret r w).0.rdx
          (envp_at rsp w.mem)
          (at_main rsp ret ret' r w)
        ≡ some (n, w')
      → ((load_arguments rsp w.mem r).r8 ≡ argc_at rsp w.mem)
        × ((load_arguments rsp w.mem r).r9 ≡ argv_at rsp)
        × ((load_arguments rsp w.mem r).rdx ≡ envp_at rsp w.mem)
        × Exits (n % 2 ^ 32) w' (start kernel setter program leave rsp ret ret' r w)
  unfolding start load_arguments
  start-Exits program rsp ret ret' n r w w' ends =
      let b = (behind_setter rsp ret r w).0 in
      let v = at_main rsp ret ret' r w in
      let environ : (load_arguments rsp w.mem r).rdi ≡ envp_at rsp w.mem = omega arith in
      let run = ap (λ x. program (b.r8 % 2 ^ 32) b.r9 b.rdx x v) environ ∙ ends in
      let (d, m) = leave (restore_arguments b) w'.mem in (refl, refl, environ, (d, m, rw run refl))

  -- The process of examples/hello.c, from `_start` to its end, on a descriptor 1 that takes each write
  -- in full, where the kernel answers getpid with a number below 2^31 whatever lies in memory, and
  -- whatever compiled code leaves in the registers: it delivers the greeting with the number's
  -- decimal digits, and then makes the system call exit with status 0.
  pub start-greeting :
      (delivered : K → List ℕ) (terminal : IsTerminal kernel 1 delivered) (literal : List ℕ → ℕ)
      (outbuf rsp ret ret' pid : ℕ) (k : K) (r : Registers) (w : World K)
      → ((m : Memory) → kernel Sys.getpid 0 0 0 0 0 0 m w.sys ≡ (pid, m, k))
      → pid < 2 ^ 31
      → (w' : World K) × Exits 0 w' (
          start kernel setter
            (λ argc argv envp environ. main kernel literal outbuf)
            leave
            rsp
            ret
            ret'
            r
            w)
        × (delivered w'.sys
            ≡ delivered k
              ++ (codes "Hello from AxiomeOS SDK! pid=" ++ (render 10 false pid ++ codes "\n")))
  start-greeting delivered terminal literal outbuf rsp ret ret' pid k r w answer lt =
      let v = at_main rsp ret ret' r w in
      let (w', ran, told) =
        main-greeting kernel delivered terminal literal outbuf pid k v (answer v.mem) lt in
      (w', (start-Exits _ rsp ret ret' 0 r w w' ran).3, told)
