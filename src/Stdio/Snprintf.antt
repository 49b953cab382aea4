-- ===== src/Stdio/Snprintf.antt =====
-- vsnprintf_internal, snprintf, vsnprintf and sprintf of sdk/src/stdio.c. The string arguments are
-- taken not to overlap the target; a string of 2^31 bytes or more, whose length overflows `tmp_len`,
-- and `-(v + 1) + 1` for the least `long` are undefined, as they are in C.
pub mod Text
pub mod Cut
pub mod Readback
use axiome_toolchain.Base.{
  ℕ, zero, suc, ◌-◌, ◌%◌, ◌^◌, Bool, true, false, not, ◌&&◌, ◌||◌, List, [], ◌∷◌, ◌++◌, some, none,
  Option, codes, length, ltb, ◌==◌, if◌then◌else◌, ◌+◌,
}
use axiome_toolchain.Memory.{Memory, null, store}
use axiome_toolchain.Stdlib.Heap.{word, add64, sub64}
use axiome_toolchain.Stdio.Digits.{render}
use axiome_toolchain.Stdio.Format.Directive.{Directive}
use axiome_toolchain.Stdio.Format.Run.{
  Run, done, undefined, Arg, ◌>>=◌, next_word, next_text, signed_arg, unsigned_arg, is_negative,
}
use axiome_toolchain.Stdio.Format.Loop.{walk}

abbrev pub signed_text : ℕ → Run (List ℕ)
signed_text v =
    if v == 2 ^ 63
    then undefined
    else if is_negative v
    then done (b'-' ∷ render 10 false (2 ^ 64 - v))
    else done (render 10 false v)

-- `if (!s) s = "(null)";` and the count of its bytes.
abbrev pub string_text : Option (List ℕ) → Run (List ℕ)
string_text none = done (codes "(null)")
string_text (some s) = if ltb (length s) (2 ^ 31) then done s else undefined

-- `to_write` with the `switch` over the conversion, and the arguments behind the one it takes.
abbrev pub content : Directive → List Arg → Run (List ℕ × List Arg)
content d args =
    if (d.spec == b'd') || (d.spec == b'i')
    then next_word args
      >>= (λ (w, args'). signed_text (signed_arg d.longflag w) >>= λ s. done (s, args'))
    else if d.spec == b'u'
    then next_word args
      >>= (λ (w, args'). done (render 10 false (unsigned_arg d.longflag w), args'))
    else if (d.spec == b'x') || (d.spec == b'X')
    then next_word args
      >>= (λ (w, args'). done (render 16 (d.spec == b'X') (unsigned_arg d.longflag w), args'))
    else if d.spec == b'p'
    then next_word args >>= (λ (w, args'). done (codes "0x" ++ render 16 false (w % 2 ^ 64), args'))
    else if d.spec == b's'
    then next_text args >>= (λ (s, args'). string_text s >>= λ t. done (t, args'))
    else if d.spec == b'c'
    then next_word args >>= (λ (w, args'). done (w % 256 ∷ [], args'))
    else done (b'%' ∷ d.spec ∷ [], args)

-- `width > len ? width - len : 0`, both of type `int`.
abbrev pub padding : ℕ → ℕ → ℕ
padding width len = if ltb len width && ltb width (2 ^ 31) then width - len else 0

-- The target, and the position that the loop has reached.
pub record Sink : Type 0 where
  pub pos : ℕ
  pub mem : Memory

-- `if (do_write && str && pos < size - 1) str[pos] = c; pos++;`
unfoldable pub put : ℕ → ℕ → Bool → ℕ → Sink → Sink
put str size do_write c s = record {
  pos = add64 s.pos 1;
  mem =
      if do_write && (not (str == null) && ltb s.pos (sub64 size 1))
      then store s.mem (str + s.pos) c
      else s.mem;
}

-- `while (pad--) ...` with the store of one padding byte.
unfoldable pub put_times : ℕ → ℕ → Bool → ℕ → ℕ → Sink → Sink
put_times str size do_write zero c s = s
put_times str size do_write (suc n) c s =
    put_times str size do_write n c (put str size do_write c s)

-- `for (int i = 0; i < tmp_len; i++) ...`
unfoldable pub put_all : ℕ → ℕ → Bool → List ℕ → Sink → Sink
put_all str size do_write [] s = s
put_all str size do_write (c ∷ cs) s = put_all str size do_write cs (put str size do_write c s)

-- A directive: the content between its left and its right padding.
unfoldable pub put_field : ℕ → ℕ → Bool → Directive → List ℕ → Sink → Sink
put_field str size do_write d bytes s =
    let pad = padding d.width (length bytes) in
    let left = if d.left_align then 0 else pad in
    let right = if d.left_align then pad else 0 in
    let s1 = put_times str size do_write left (if d.zero_pad then b'0' else b' ') s in
    put_times str size do_write right b' ' (put_all str size do_write bytes s1)

abbrev pub convert : ℕ → ℕ → Bool → Directive → List Arg → Sink → Run (List Arg × Sink)
convert str size do_write d args s =
    content d args >>= λ (bytes, args'). done (args', put_field str size do_write d bytes s)

-- `if (do_write && str && size > 0) str[...] = 0; return (int)pos;`, the result by its 32 bits.
unfoldable pub terminate : ℕ → ℕ → Bool → Sink → ℕ × Memory
terminate str size do_write s =
    let last = sub64 size 1 in
    (
      s.pos % 2 ^ 32,
      if do_write && (not (str == null) && ltb 0 size)
          then store s.mem (str + (if ltb s.pos last then s.pos else last)) 0
          else s.mem,
    )

unfoldable pub vsnprintf_internal : ℕ → ℕ → List ℕ → List Arg → Bool → Memory → Run (ℕ × Memory)
vsnprintf_internal str size fmt args do_write m =
    walk (put str size do_write) (convert str size do_write) (suc (length fmt)) fmt args
      (record { pos = 0; mem = m })
    >>= λ s. done (terminate str size do_write s)

unfoldable pub snprintf : ℕ → ℕ → List ℕ → List Arg → Memory → Run (ℕ × Memory)
snprintf str size fmt args m = vsnprintf_internal str size fmt args true m

unfoldable pub vsnprintf : ℕ → ℕ → List ℕ → List Arg → Memory → Run (ℕ × Memory)
vsnprintf str size fmt args m = vsnprintf_internal str size fmt args true m

unfoldable pub sprintf : ℕ → List ℕ → List Arg → Memory → Run (ℕ × Memory)
sprintf str fmt args m = vsnprintf_internal str (word - 1) fmt args true m
