-- ===== src/Start.antt =====
-- `_start` of sdk/src/crt0.c, instruction by instruction, and __axiome_set_environ of sdk/src/stdlib.c,
-- which it calls. A C function does what its source does; what its compiled code leaves in the
-- registers and on the stack is not in the source, and a parameter.
pub mod Process
use axiome_toolchain.Base.{ℕ, ◌+◌, ◌-◌, ◌*◌, ◌%◌, ◌^◌, Option, some, ◌>>=◌}
use axiome_toolchain.Memory.{Memory}
use axiome_toolchain.Memory.Words.{get_long, put_long}
use axiome_toolchain.World.{World}
use axiome_toolchain.System.Sys
use axiome_toolchain.System.Call.{Kernel}

-- The registers that the code names, and those that the trap hands on.
pub record Registers : Type 0 where
  pub rax : ℕ
  pub rdi : ℕ
  pub rsi : ℕ
  pub rdx : ℕ
  pub r10 : ℕ
  pub r8 : ℕ
  pub r9 : ℕ

-- The six instructions before the first call: `mov (%rsp), %rdi` to `mov %rdx, %rdi`.
unfoldable pub load_arguments : ℕ → Memory → Registers → Registers
load_arguments rsp m r =
    let argc : ℕ = get_long rsp m in
    let argv : ℕ = (rsp + 8) % 2 ^ 64 in
    let envp : ℕ = (argv + argc * 8 + 8) % 2 ^ 64 in
    record r { rdi = envp; rsi = argv; rdx = envp; r8 = argc; r9 = argv }

-- `mov %r8, %rdi` and `mov %r9, %rsi`.
abbrev pub restore_arguments : Registers → Registers
restore_arguments r = record r { rdi = r.r8; rsi = r.r9 }

-- `mov %eax, %edi`, which clears the upper half, and `mov $SYS_EXIT, %rax`; `n` is what main returned.
abbrev pub exit_arguments : ℕ → Registers → Registers
exit_arguments n r = record r { rdi = n % 2 ^ 32; rax = Sys.exit }

-- A call pushes its return address.
abbrev pub push : ℕ → ℕ → Memory → Memory
push rsp ret m = put_long (rsp - 8) ret m

-- `environ = envp;`
abbrev pub axiome_set_environ : ℕ → ℕ
axiome_set_environ envp = envp

-- A program by its `main`, with argc, argv, envp and the variable `environ`.
abbrev pub Main : Type 0 → Type 0
Main K = ℕ → ℕ → ℕ → ℕ → World K → Option (ℕ × World K)

-- What compiled code leaves in the registers and in memory besides what its C source does: any
-- register here may be overwritten by a function, and the stack below its frame too.
abbrev pub Leftover : Type 0
Leftover = Registers → Memory → Registers × Memory

-- `setter` belongs to the compiled __axiome_set_environ, `leave` to the compiled main; `ret` and
-- `ret'` are the return addresses. The answer is the kernel's to the system call exit.
unfoldable pub start :
    {K : Type 0}
    → Kernel K
    → Leftover
    → Main K
    → Leftover
    → ℕ
    → ℕ
    → ℕ
    → Registers
    → World K
    → Option (ℕ × Memory × K)
start kernel setter main leave rsp ret ret' r w = do
  let a : Registers = load_arguments rsp w.mem r
  let environ : ℕ = axiome_set_environ a.rdi
  let (b, m) = setter a (push rsp ret w.mem)
  let c : Registers = restore_arguments b
  (n, u) ← main (c.rdi % 2 ^ 32) c.rsi c.rdx environ (record w { mem = push rsp ret' m })
  let (d, m') = leave c u.mem
  let e : Registers = exit_arguments n d
  some (kernel e.rax e.rdi e.rsi e.rdx e.r10 e.r8 e.r9 m' u.sys)
