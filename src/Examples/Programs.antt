-- ===== src/Examples/Programs.antt =====
-- The programs of examples/ on a kernel that prints, with room in the allocator.
use axiome_toolchain.Base.{
  ℕ, ◌*◌, ◌≡◌, refl, false, inl, List, [], ◌∷◌, ◌++◌, some, codes, arith, length,
}
use axiome_toolchain.Memory.{Memory}
use axiome_toolchain.World.{World}
use axiome_toolchain.Stdlib.Heap.Chain.{IsHeap}
use axiome_toolchain.Filetest.{main}
use axiome_toolchain.Filetest.Output.{Middle, main-Delivers}
use axiome_toolchain.Stdio.Buffer.{Out}
use axiome_toolchain.Stdio.Digits.{render, digit_loop}
use axiome_toolchain.Stdio.Format.Run.{done, word}
use axiome_toolchain.Stdio.Format.Loop.{walk}
use axiome_toolchain.Stdio.Format.Directive.{
  parse_directive, read_flags, read_width, skip_precision, skip_digits, read_lengths, read_spec,
}
use axiome_toolchain.Stdio.Console.{no_output, Output, formatted, line, character, say_all}
use axiome_toolchain.Stdio.Console.Ordered.{text_of_all, IsIdle, say_all-Delivered}
use axiome_toolchain.Hello
use axiome_toolchain.Start.{Registers, Leftover, start}
use axiome_toolchain.Start.Process.{Exits, start-greeting}
use axiome_toolchain.Examples.{is_string-CString, with_bytes}
use axiome_toolchain.Examples.Allocation.{state, cells, state-IsHeap, cells-Separated}
use axiome_toolchain.Examples.Kernels.{printer, printer-IsTerminal, pending, world}

abbrev literal : List ℕ → ℕ
literal t = 16 * length t

abbrev strings : Memory
strings =
    with_bytes 320 (codes "Axiome SDK filetest\n")
      (with_bytes 208 (codes "malloc works\n") (λ i. 0))

abbrev program : World (List ℕ)
program = record (world (codes "$ ")) { mem = strings }

main-Delivers_example :
    (w' : World (List ℕ)) × (main printer literal 8192 4096 21 program ≡ some (0, w'))
    × IsHeap 4096 w'.libc cells
    × (t : List ℕ) × Middle printer pending (printer-IsTerminal 1) 4096 21 state t
    × (w'.sys ≡ codes "$ " ++ (codes "Axiome SDK filetest\n" ++ (t ++ codes "printf works: 42\n")))
main-Delivers_example =
    main-Delivers printer pending (printer-IsTerminal 1) literal 8192 4096 21 cells program
      state-IsHeap cells-Separated (omega arith) (omega arith)
      (is_string-CString strings 320 (codes "Axiome SDK filetest\n") refl)
      (is_string-CString strings 208 (codes "malloc works\n") refl) (inl (omega arith))
      (omega arith) (omega arith)

-- printf("pid %d\n", 7); putchar('>'); puts("done");
abbrev session : List Output
session = formatted (codes "pid %d\n") (word 7 ∷ []) ∷ character b'>' ∷ line (codes "done") ∷ []

session_text : text_of_all session ≡ done (codes "pid 7\n>done\n")
unfolding walk parse_directive read_flags read_width skip_precision skip_digits read_lengths
    read_spec render digit_loop
session_text = refl

say_all-Delivered_example :
    (o' : Out) × (w' : World (List ℕ)) × (say_all printer 8192 24 session no_output program
      ≡ done (o', w'))
    × IsIdle o'
    × (w'.libc ≡ program.libc)
    × (w'.sys ≡ codes "$ " ++ codes "pid 7\n>done\n")
say_all-Delivered_example =
    say_all-Delivered printer pending (printer-IsTerminal 1) 8192 24 session
      (codes "pid 7\n>done\n") no_output program (refl, refl) session_text

abbrev registers : Registers
registers = record { rax = 0; rdi = 0; rsi = 0; rdx = 0; r10 = 0; r8 = 0; r9 = 0 }

-- Compiled code that leaves the registers and memory alone, and code that clears three of them.
abbrev untouched : Leftover
untouched r m = (r, m)

abbrev clearing : Leftover
clearing r m = (record r { r8 = 0; r9 = 0; rdx = 0 }, m)

start-greeting_example :
    (w' : World (List ℕ)) × Exits printer clearing clearing 0 w' (
      start printer clearing
        (λ argc argv envp environ. Hello.main printer literal 8192)
        clearing
        65536
        24
        32
        registers
        program)
    × (w'.sys
        ≡ codes "$ "
          ++ (codes "Hello from AxiomeOS SDK! pid=" ++ (render 10 false 7 ++ codes "\n")))
start-greeting_example =
    start-greeting printer clearing clearing pending (printer-IsTerminal 1) literal 8192 65536 24 32
      7 (codes "$ ") registers program (λ m. refl) (omega arith)
