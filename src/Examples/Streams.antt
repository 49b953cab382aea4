-- ===== src/Examples/Streams.antt =====
-- Examples for the streams of sdk/src/stdio.c and the system calls below them.
use axiome_toolchain.Base.{
  ℕ, ◌%◌, ◌^◌, ◌<◌, ◌≡◌, refl, All, inl, false, List, [], ◌∷◌, codes, arith, some,
}
use axiome_toolchain.Memory.{Memory}
use axiome_toolchain.World.{World}
use axiome_toolchain.System.Sys
use axiome_toolchain.System.Sys.{numbers, last}
use axiome_toolchain.System.Call.{syscall, minus_one}
use axiome_toolchain.System.Call.Outcome.{failure, told, syscall-result}
use axiome_toolchain.Stdio.Buffer.Stream.{concat}
use axiome_toolchain.Stdio.Digits.{render, digit_loop}
use axiome_toolchain.Stdio.Format.Run.{done, Arg, word}
use axiome_toolchain.Stdio.Format.Loop.{walk}
use axiome_toolchain.Stdio.Format.Directive.{
  parse_directive, read_flags, read_width, skip_precision, skip_digits, read_lengths, read_spec,
}
use axiome_toolchain.Stdio.Snprintf.Text.{formatted}
use axiome_toolchain.Stdio.Snprintf.Cut.{terminated}
use axiome_toolchain.Stdio.Streams.{fputs, fprintf}
use axiome_toolchain.Stdio.Streams.Whole.{lines, Reads, fgets-lines}
use axiome_toolchain.Stdio.Streams.Sink.{Delivers, fputs-Delivers}
use axiome_toolchain.Stdio.Streams.Formatted.{fprintf-Delivers}
use axiome_toolchain.Stdio.Opening.{fopen}
use axiome_toolchain.Stdio.Opening.Balance.{Balanced, fopen-Balanced}
use axiome_toolchain.Examples.{page, line_CString}
use axiome_toolchain.Examples.Allocation.{cells, state-IsHeap, cells-Separated}
use axiome_toolchain.Examples.Kernels.{
  reader, reader-IsSource, printer, printer-IsSink, pending, opener, opener-IsTable, only_three,
  world,
}

-- The reader knows no call but `read`, and answers this one with -ENOSYS.
syscall-result_example :
    syscall reader Sys.getpid 0 0 0 0 0 0 (world []) ≡ (minus_one, told (failure 38) (world []))
syscall-result_example =
    syscall-result reader Sys.getpid 0 0 0 0 0 0 (world []) (failure 38) page []
      (omega arith, omega arith) refl

abbrev input : List ℕ
input = codes "abcdef\ngh"

-- Pieces of at most four bytes.
input_bytes : All (λ c. c < 256) input
input_bytes = (
  omega arith,
  (
    omega arith,
    (
      omega arith,
      (omega arith, (omega arith, (omega arith, (omega arith, (omega arith, (omega arith, tt)))))),
    ),
  ),
)

fgets-lines_example :
    Reads reader 3 pending
      (reader-IsSource 3)
      100
      8
      200
      (omega arith)
      (omega arith)
      4
      (omega arith)
      (omega arith)
      (inl (omega arith))
      (world input)
      (lines 4 input)
    × (concat (lines 4 input) ≡ input)
fgets-lines_example =
    fgets-lines reader 3 pending (reader-IsSource 3) 100 8 200 (omega arith) (omega arith) 4
      (omega arith) (omega arith) (inl (omega arith)) input (world input) refl refl input_bytes

lines_four : lines 4 input ≡ codes "abcd" ∷ codes "ef\n" ∷ codes "gh" ∷ []
lines_four = refl

fputs-Delivers_example :
    (call : ℕ × World (List ℕ)) × (fputs printer 9 16 8 (world []) ≡ some call)
    × Delivers printer 3 pending
        (printer-IsSink 3)
        8
        (omega arith)
        (world [])
        (codes "a, bc,")
        (λ r. r % 2 ^ 32)
        0
        call
fputs-Delivers_example =
    fputs-Delivers printer 3 pending (printer-IsSink 3) 8 (omega arith) 9 16 (codes "a, bc,")
      (world []) refl (omega arith) line_CString (omega arith) (omega arith) (omega arith)

abbrev fmt : List ℕ
fmt = codes "n=%d"

abbrev args : List Arg
args = word 42 ∷ []

text_formatted : formatted fmt args ≡ done (codes "n=42")
unfolding walk parse_directive read_flags read_width skip_precision skip_digits read_lengths
    read_spec render digit_loop
text_formatted = refl

fprintf-Delivers_example :
    (m' : Memory) × (w' : World (List ℕ)) × (fprintf printer 2048 8 fmt args (world [])
      ≡ done (4, w'))
    × ((x : ℕ) → m' x ≡ terminated page 2048 1024 (codes "n=42") x)
    × Delivers printer 3 pending
        (printer-IsSink 3)
        8
        (omega arith)
        (record (world []) { mem = m' })
        (codes "n=42")
        (λ r. 4)
        4
        (4, w')
fprintf-Delivers_example =
    fprintf-Delivers printer 3 pending (printer-IsSink 3) 8 (omega arith) 2048 fmt args
      (codes "n=42") (world []) refl (omega arith) text_formatted (omega arith) (omega arith)

-- The mode is the string at 16, which begins with `a`.
fopen-Balanced_example :
    Balanced opener only_three opener-IsTable 4096 4 16 32 48 cells
      (omega arith)
      (omega arith)
      (omega arith)
      cells-Separated
      (inl (omega arith))
      (inl (omega arith))
      (inl (omega arith))
      (world false)
      (fopen opener 4096 4 64 16 (world false))
fopen-Balanced_example =
    fopen-Balanced opener only_three opener-IsTable 4096 4 16 32 48 cells (omega arith)
      (omega arith) (omega arith) cells-Separated (inl (omega arith)) (inl (omega arith))
      (inl (omega arith)) 64 16 (world false) state-IsHeap
