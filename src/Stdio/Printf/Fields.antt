-- ===== src/Stdio/Printf/Fields.antt =====
-- What the number and string printers of sdk/src/stdio.c emit.
use axiome_toolchain.Base.{
  ℕ, suc, ◌-◌, ◌%◌, ◌≡◌, ap, ◌∙◌, Bool, true, false, ◌||◌, List, [], ◌∷◌, ◌++◌, append_assoc, arith,
  length, codes, replicate, ◌==◌, if◌then◌else◌, Bool-cases, inl, inr, ◌^◌,
}
use axiome_toolchain.Stdio.Buffer.{Out, emit, emit_str, emit_times}
use axiome_toolchain.Stdio.Buffer.Stream.{
  stream, IsOut, emit-stream, emit_str-stream, emit_times-stream,
}
use axiome_toolchain.Stdio.Digits.{render}
use axiome_toolchain.Stdio.Format.Directive.{Directive}
use axiome_toolchain.Stdio.Format.Run.{
  Run, done, Arg, ◌>>=◌, next_word, next_text, signed_arg, unsigned_arg, is_negative,
}
use axiome_toolchain.Stdio.Format.Loop.{walk}
use axiome_toolchain.Stdio.Snprintf.{padding, string_text}
use axiome_toolchain.Stdio.Printf.{emit_uint_width, emit_int_width, emit_str_width, narrow}

-- A number of digits with its padding in front.
abbrev pub padded : ℕ → Bool → List ℕ → List ℕ
padded width zero_pad s =
    replicate (padding width (length s)) (if zero_pad then b'0' else b' ') ++ s

-- A signed number: the sign stands in front of the padding.
abbrev pub signed_field : ℕ → ℕ → Bool → List ℕ
signed_field v width zero_pad =
    if is_negative v
    then b'-' ∷ padded (narrow width) zero_pad (render 10 false (2 ^ 64 - v))
    else padded width zero_pad (render 10 false v)

abbrev pub string_field : List ℕ → ℕ → Bool → List ℕ
string_field s width left_align =
    if left_align
    then s ++ replicate (padding width (length s)) b' '
    else replicate (padding width (length s)) b' ' ++ s

-- What printf prints for a directive: `left_align` counts for strings only, the width for all but
-- pointers and characters.
abbrev pub print_field : Directive → List Arg → Run (List Arg × List ℕ)
print_field d args =
    if (d.spec == b'd') || (d.spec == b'i')
    then next_word args
      >>= (λ (w, args'). done (args', signed_field (signed_arg d.longflag w) d.width d.zero_pad))
    else if d.spec == b'u'
    then next_word args >>= (λ (w, args').
      done (args', padded d.width d.zero_pad (render 10 false (unsigned_arg d.longflag w))))
    else if (d.spec == b'x') || (d.spec == b'X')
    then next_word args >>= (λ (w, args').
      done
        (args', padded d.width d.zero_pad (render 16 (d.spec == b'X') (unsigned_arg d.longflag w))))
    else if d.spec == b'p'
    then next_word args >>= (λ (w, args'). done (args', codes "0x" ++ render 16 false (w % 2 ^ 64)))
    else if d.spec == b's'
    then next_text args
      >>= (λ (s, args'). string_text s >>= λ t. done (args', string_field t d.width d.left_align))
    else if d.spec == b'c'
    then next_word args >>= (λ (w, args'). done (args', w % 256 ∷ []))
    else done (args, b'%' ∷ d.spec ∷ [])

-- The whole text of a call, behind `t`.
abbrev pub print_step : Directive → List Arg → List ℕ → Run (List Arg × List ℕ)
print_step d args t = print_field d args >>= λ (args', s). done (args', t ++ s)

abbrev pub printed : List ℕ → List Arg → Run (List ℕ)
printed fmt args = walk (λ c t. t ++ c ∷ []) print_step (suc (length fmt)) fmt args []

pub padding_zero : (n : ℕ) → padding 0 n ≡ 0
padding_zero n = ground arith

-- The output `o'` is `o` with `s` emitted behind it.
pub record Emits (o : Out) (s : List ℕ) (o' : Out) : Type 0 where
  pub is_out : IsOut o'
  pub behind : stream o' ≡ stream o ++ s

pub Emits-then : {o o1 o2 : Out} {s t : List ℕ} → Emits o s o1 → Emits o1 t o2 → Emits o (s ++ t) o2
Emits-then {o} {o1} {o2} {s} {t} a b = record {
  is_out = b.is_out;
  behind = b.behind ∙ ap (λ x. x ++ t) a.behind ∙ append_assoc (stream o) s t;
}

pub emit-Emits : (c : ℕ) (o : Out) → IsOut o → Emits o (c ∷ []) (emit c o)
emit-Emits c o is = let (i, e) = emit-stream c o is in record { is_out = i; behind = e }

pub emit_str-Emits : (s : List ℕ) (o : Out) → IsOut o → Emits o s (emit_str s o)
emit_str-Emits s o is = let (i, e) = emit_str-stream s o is in record { is_out = i; behind = e }

emit_times-Emits : (n c : ℕ) (o : Out) → IsOut o → Emits o (replicate n c) (emit_times n c o)
emit_times-Emits n c o is =
    let (i, e) = emit_times-stream n c o is in record { is_out = i; behind = e }

pub emit_uint_width-Emits :
    (v base : ℕ) (upper : Bool) (width : ℕ) (zero_pad : Bool) (o : Out)
    → IsOut o
    → Emits o
        (padded width zero_pad (render base upper v))
        (emit_uint_width v base upper width zero_pad o)
unfolding emit_uint_width
emit_uint_width-Emits v base upper width zero_pad o is =
    let first =
      emit_times-Emits (padding width (length (render base upper v)))
        (if zero_pad then b'0' else b' ') o is in
    Emits-then first (emit_str-Emits (render base upper v) _ first.is_out)

pub emit_int_width-Emits :
    (v width : ℕ) (zero_pad : Bool) (o : Out)
    → IsOut o
    → Emits o (signed_field v width zero_pad) (emit_int_width v width zero_pad o)
unfolding emit_int_width
emit_int_width-Emits v width zero_pad o is = elim (Bool-cases (is_negative v)) [
  | inl e ↦
      let sign = emit-Emits b'-' o is in
      rw e (
        Emits-then sign
          (emit_uint_width-Emits (2 ^ 64 - v) 10 false (narrow width) zero_pad _ sign.is_out))
  | inr e ↦ rw e (emit_uint_width-Emits v 10 false width zero_pad o is)
]

pub emit_str_width-Emits :
    (s : List ℕ) (width : ℕ) (left_align : Bool) (o : Out)
    → IsOut o
    → Emits o (string_field s width left_align) (emit_str_width s width left_align o)
unfolding emit_str_width emit_times
emit_str_width-Emits s width true o is =
    let first = emit_str-Emits s o is in
    Emits-then first (emit_times-Emits (padding width (length s)) b' ' _ first.is_out)
emit_str_width-Emits s width false o is =
    let first = emit_times-Emits (padding width (length s)) b' ' o is in
    Emits-then first (emit_str-Emits s _ first.is_out)
