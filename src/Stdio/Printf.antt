-- ===== src/Stdio/Printf.antt =====
-- vprintf and printf of sdk/src/stdio.c, with emit_uint_width, emit_int_width and emit_str_width. A
-- string of 2^31 bytes or more, whose length overflows `len`, is undefined, as it is in C.
pub mod Fields
pub mod Written
pub mod Plain
use axiome_toolchain.Base.{
  ℕ, zero, suc, ◌-◌, ◌%◌, ◌^◌, Bool, true, false, ◌&&◌, ◌||◌, List, [], ◌∷◌, codes, length, ltb,
  ◌==◌, if◌then◌else◌,
}
use axiome_toolchain.Stdio.Buffer.{Out, flush, emit, emit_str, emit_times}
use axiome_toolchain.Stdio.Digits.{render}
use axiome_toolchain.Stdio.Format.Directive.{Directive}
use axiome_toolchain.Stdio.Format.Run.{
  Run, done, Arg, ◌>>=◌, next_word, next_text, signed_arg, unsigned_arg, is_negative,
}
use axiome_toolchain.Stdio.Format.Loop.{walk}
use axiome_toolchain.Stdio.Snprintf.{padding, string_text}

-- The digits are behind the padding, each number with the digits of `render`.
unfoldable pub emit_uint_width : ℕ → ℕ → Bool → ℕ → Bool → Out → Out
emit_uint_width v base upper width zero_pad o =
    let tmp = render base upper v in
    emit_str tmp (emit_times (padding width (length tmp)) (if zero_pad then b'0' else b' ') o)

abbrev pub emit_uint : ℕ → ℕ → Bool → Out → Out
emit_uint v base upper o = emit_uint_width v base upper 0 false o

-- `if (width > 0) width--;`
abbrev pub narrow : ℕ → ℕ
narrow width = if ltb 0 width && ltb width (2 ^ 31) then width - 1 else width

unfoldable pub emit_int_width : ℕ → ℕ → Bool → Out → Out
emit_int_width v width zero_pad o =
    if is_negative v
    then emit_uint_width (2 ^ 64 - v) 10 false (narrow width) zero_pad (emit b'-' o)
    else emit_uint_width v 10 false width zero_pad o

unfoldable pub emit_str_width : List ℕ → ℕ → Bool → Out → Out
emit_str_width s width left_align o =
    let pad = padding width (length s) in
    let o1 = emit_times (if left_align then 0 else pad) b' ' o in
    emit_times (if left_align then pad else 0) b' ' (emit_str s o1)

-- The `switch` over the conversion.
abbrev pub print_directive : Directive → List Arg → Out → Run (List Arg × Out)
print_directive d args o =
    if (d.spec == b'd') || (d.spec == b'i')
    then next_word args >>= (λ (w, args').
      done (args', emit_int_width (signed_arg d.longflag w) d.width d.zero_pad o))
    else if d.spec == b'u'
    then next_word args >>= (λ (w, args').
      done (args', emit_uint_width (unsigned_arg d.longflag w) 10 false d.width d.zero_pad o))
    else if (d.spec == b'x') || (d.spec == b'X')
    then next_word args >>= (λ (w, args').
      done (
        args',
        emit_uint_width (unsigned_arg d.longflag w) 16 (d.spec == b'X') d.width d.zero_pad o,
      ))
    else if d.spec == b'p'
    then next_word args
      >>= (λ (w, args'). done (args', emit_uint (w % 2 ^ 64) 16 false (emit_str (codes "0x") o)))
    else if d.spec == b's'
    then next_text args >>= (λ (s, args').
      string_text s >>= λ t. done (args', emit_str_width t d.width d.left_align o))
    else if d.spec == b'c'
    then next_word args >>= (λ (w, args'). done (args', emit (w % 256) o))
    else done (args, emit d.spec (emit b'%' o))

-- The result 0 and the output buffer.
unfoldable pub vprintf : List ℕ → List Arg → Out → Run (ℕ × Out)
vprintf fmt args o =
    walk emit print_directive (suc (length fmt)) fmt args o >>= λ o'. done (0, flush o')

unfoldable pub printf : List ℕ → List Arg → Out → Run (ℕ × Out)
printf fmt args o = vprintf fmt args o

-- `emit_str(s); emit('\n'); flush(); return 0;`
unfoldable pub puts : List ℕ → Out → ℕ × Out
puts s o = (0, flush (emit b'\n' (emit_str s o)))
