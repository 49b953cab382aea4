-- ===== src/Examples/Output.antt =====
-- Examples for the formatters of sdk/src/stdio.c.
use axiome_toolchain.Base.{ℕ, ◌≡◌, ◌-◌, ◌^◌, refl, true, List, [], ◌∷◌, none, some, codes, arith}
use axiome_toolchain.Memory.{Memory}
use axiome_toolchain.Stdio.Buffer.{Out}
use axiome_toolchain.Stdio.Buffer.Stream.{concat, IsOut}
use axiome_toolchain.Stdio.Digits.{render, digit_loop}
use axiome_toolchain.Stdio.Digits.Numeral.{decode}
use axiome_toolchain.Stdio.Digits.Spelled.{AllIn, IsShort, render-IsShort}
use axiome_toolchain.Stdio.Format.Run.{done, Arg, word, text}
use axiome_toolchain.Stdio.Format.Loop.{walk, Ends}
use axiome_toolchain.Stdio.Format.Directive.{
  parse_directive, read_flags, read_width, skip_precision, skip_digits, read_lengths, read_spec,
}
use axiome_toolchain.Stdio.Snprintf.{snprintf, vsnprintf}
use axiome_toolchain.Stdio.Snprintf.Text.{formatted, cut}
use axiome_toolchain.Stdio.Snprintf.Cut.{
  terminated, snprintf-terminated, vsnprintf-unbounded, snprintf-Ends,
}
use axiome_toolchain.Stdio.Printf.{printf}
use axiome_toolchain.Stdio.Printf.Fields.{printed}
use axiome_toolchain.Stdio.Printf.Written.{printf-written}
use axiome_toolchain.Stdio.Printf.Plain.{plain, printf-snprintf}
use axiome_toolchain.Stdio.Snprintf.Readback.{atoi-snprintf}
use axiome_toolchain.Stdlib.Number.{atoi, signed}
use axiome_toolchain.Examples.{page}

abbrev fmt : List ℕ
fmt = codes "%4d|%-3x|%s%%"

abbrev args : List Arg
args = word 4294967254 ∷ word 10 ∷ text none ∷ []

abbrev whole : List ℕ
whole = codes " -42|a  |(null)%"

-- A signed field of vsnprintf has its padding in front of the sign, and one of printf behind it.
sign_formatted : formatted fmt args ≡ done whole
unfolding walk parse_directive read_flags read_width skip_precision skip_digits read_lengths
    read_spec render digit_loop
sign_formatted = refl

sign_printed : printed (codes "%4d") args ≡ done (codes "- 42")
unfolding walk parse_directive read_flags read_width skip_precision skip_digits read_lengths
    read_spec render digit_loop
sign_printed = refl

-- A buffer of 8 bytes cuts the text to 7.
snprintf-terminated_example :
    (m' : Memory) × (snprintf 200 8 fmt args page ≡ done (16, m'))
    × ((x : ℕ) → m' x ≡ terminated page 200 8 whole x)
snprintf-terminated_example =
    snprintf-terminated 200 8 fmt args page whole (omega arith) (omega arith) (omega arith)
      sign_formatted (omega arith)

snprintf-Ends_example : Ends (snprintf 200 8 fmt args page)
snprintf-Ends_example = snprintf-Ends 200 8 fmt args page

vsnprintf-unbounded_example :
    (m' : Memory) × (vsnprintf 200 0 fmt args page ≡ done (16, m'))
    × ((x : ℕ) → m' x ≡ cut page 200 16 whole x)
vsnprintf-unbounded_example =
    vsnprintf-unbounded 200 fmt args page whole (omega arith) sign_formatted (omega arith)

abbrev empty : Out
empty = record { outbuf = λ i. 0; outlen = 0; written = [] }

empty-IsOut : IsOut empty
empty-IsOut = record { in_array = omega arith; blocks = tt }

printf-written_example :
    (o' : Out) × (printf (codes "%4d") args empty ≡ done (0, o'))
    × IsOut o'
    × (concat o'.written ≡ codes "- 42")
    × (o'.outlen ≡ 0)
printf-written_example =
    printf-written (codes "%4d") args (codes "- 42") empty empty-IsOut sign_printed

abbrev pair : List Arg
pair = text (some (codes "mode")) ∷ word 493 ∷ []

pair-plain : plain (codes "%s=0%x\n") pair ≡ done (codes "mode=01ed\n")
unfolding walk parse_directive read_flags read_width skip_precision skip_digits read_lengths
    read_spec render digit_loop
pair-plain = refl

printf-snprintf_example :
    (o' : Out) × (m' : Memory) × (printf (codes "%s=0%x\n") pair empty ≡ done (0, o'))
    × (concat o'.written ≡ codes "mode=01ed\n")
    × (snprintf 200 16 (codes "%s=0%x\n") pair page ≡ done (10, m'))
    × ((x : ℕ) → m' x ≡ terminated page 200 16 (codes "mode=01ed\n") x)
printf-snprintf_example =
    printf-snprintf (codes "%s=0%x\n") pair (codes "mode=01ed\n") empty 200 16 page empty-IsOut
      (omega arith) (omega arith) (omega arith) pair-plain

atoi-snprintf_example :
    (r : ℕ) × (m' : Memory) × (snprintf 200 12 (codes "%d") (word (2 ^ 32 - 42) ∷ []) page
      ≡ done (r, m'))
    × (atoi 11 200 m' ≡ some (signed 32 (2 ^ 32 - 42)))
atoi-snprintf_example =
    atoi-snprintf 11 200 12 (2 ^ 32 - 42) page (omega arith) (omega arith) (omega arith)
      (omega arith) (omega arith) (omega arith)

render-IsShort_example :
    AllIn 16 true (render 16 true 48879)
    × (decode 16 0 (render 16 true 48879) ≡ 48879)
    × IsShort 48879 (render 16 true 48879)
render-IsShort_example = render-IsShort 16 true (omega arith) (omega arith) 48879 (omega arith)
