-- ===== src/Stdio/Printf/Written.antt =====
-- The bytes that printf and puts hand to `write`.
use mathlib.Core.Path.{subst}
use axiome_toolchain.Base.{
  ℕ, suc, ◌%◌, ◌≡◌, refl, sym, ◌∙◌, Bool, true, false, ◌||◌, List, [], ◌∷◌, ◌++◌, none, some,
  append-nil, length, codes, replicate, ltb, ◌==◌, if◌then◌else◌, Bool-cases, inl, inr, ◌^◌,
}
use axiome_toolchain.Stdio.Buffer.{Out, flush, emit, emit_str}
use axiome_toolchain.Stdio.Buffer.Stream.{concat, stream, IsOut, flush-written}
use axiome_toolchain.Stdio.Digits.{render}
use axiome_toolchain.Stdio.Format.Directive.{Directive}
use axiome_toolchain.Stdio.Format.Run.{
  Run, done, Arg, word, text, ◌>>=◌, next_word, next_text, signed_arg, unsigned_arg,
}
use axiome_toolchain.Stdio.Format.Loop.{walk, Agree, walk-Agree, Agree-done}
use axiome_toolchain.Stdio.Snprintf.{string_text}
use axiome_toolchain.Stdio.Printf.{
  emit_uint_width, emit_uint, print_directive, vprintf, printf, puts,
}
use axiome_toolchain.Stdio.Printf.Fields.{
  padded, print_field, print_step, printed, Emits, Emits-then, emit-Emits, emit_str-Emits,
  emit_uint_width-Emits, emit_int_width-Emits, emit_str_width-Emits, padding_zero,
}

-- The loop of vprintf from the output `o`.
module _ (o : Out) where
  -- The output after the text `t`.
  abbrev After : Out → List ℕ → Type 0
  After o' t = Emits o t o'

  abbrev Step : List Arg × Out → List Arg × List ℕ → Type 0
  Step a b = (a.0 ≡ b.0) × After a.1 b.1

  -- One directive from the output `o'`, which holds `t`.
  module _ (o' : Out) (t : List ℕ) (h : Emits o t o') where
    abbrev Prints : Run (List Arg × Out) → Run (List Arg × List ℕ) → Type 0
    Prints r r' = Agree Step r (r' >>= λ (args', s). done (args', t ++ s))

    if_Prints :
        (b : Bool) (r u : Run (List Arg × Out)) (r' u' : Run (List Arg × List ℕ))
        → Prints r r'
        → Prints u u'
        → Prints (if b then r else u) (if b then r' else u')
    if_Prints true r u r' u' p q = p
    if_Prints false r u r' u' p q = q

    word_Prints :
        (args : List Arg) (f : ℕ → Out) (g : ℕ → List ℕ)
        → ((w : ℕ) → Emits o' (g w) (f w))
        → Prints
            (next_word args >>= λ (w, args'). done (args', f w))
            (next_word args >>= λ (w, args'). done (args', g w))
    word_Prints [] f g p = tt
    word_Prints (word w ∷ args) f g p = (refl, Emits-then h (p w))
    word_Prints (text s ∷ args) f g p = tt

    text_Prints :
        (args : List Arg) (f : List ℕ → Out) (g : List ℕ → List ℕ)
        → ((s : List ℕ) → Emits o' (g s) (f s))
        → Prints
            (next_text args >>= λ (s, args'). string_text s >>= λ u. done (args', f u))
            (next_text args >>= λ (s, args'). string_text s >>= λ u. done (args', g u))
    text_Prints [] f g p = tt
    text_Prints (word w ∷ args) f g p = tt
    text_Prints (text none ∷ args) f g p = (refl, Emits-then h (p (codes "(null)")))
    text_Prints (text (some s) ∷ args) f g p = elim (Bool-cases (ltb (length s) (2 ^ 31))) [
      | inl e ↦ rw e (refl, Emits-then h (p s))
      | inr e ↦ rw e tt
    ]

    directive_Prints :
        (d : Directive) (args : List Arg) → Prints (print_directive d args o') (print_field d args)
    directive_Prints d args =
        if_Prints ((d.spec == b'd') || (d.spec == b'i')) _ _ _ _
          (word_Prints args _ _
            (λ w. emit_int_width-Emits (signed_arg d.longflag w) d.width d.zero_pad o' h.is_out))
          (if_Prints (d.spec == b'u') _ _ _ _
            (word_Prints args _ _ (λ w. number 10 false (unsigned_arg d.longflag w)))
            (if_Prints ((d.spec == b'x') || (d.spec == b'X')) _ _ _ _
              (word_Prints args _ _ (λ w. number 16 (d.spec == b'X') (unsigned_arg d.longflag w)))
              (if_Prints (d.spec == b'p') _ _ _ _ (word_Prints args _ _ (λ w. pointer (w % 2 ^ 64)))
                (if_Prints (d.spec == b's') _ _ _ _
                  (text_Prints args _ _
                    (λ s. emit_str_width-Emits s d.width d.left_align o' h.is_out))
                  (if_Prints (d.spec == b'c') _ _ _ _
                    (word_Prints args _ _ (λ w. emit-Emits (w % 256) o' h.is_out))
                    (refl, Emits-then h other))))))
      where
        number :
            (base : ℕ) (upper : Bool) (v : ℕ)
            → Emits o'
                (padded d.width d.zero_pad (render base upper v))
                (emit_uint_width v base upper d.width d.zero_pad o')
        number base upper v = emit_uint_width-Emits v base upper d.width d.zero_pad o' h.is_out

        pointer :
            (v : ℕ)
            → Emits o'
                (codes "0x" ++ render 16 false v)
                (emit_uint v 16 false (emit_str (codes "0x") o'))
        pointer v =
            let prefix = emit_str-Emits (codes "0x") o' h.is_out in
            let o'' = emit_str (codes "0x") o' in
            let digits = emit_uint_width-Emits v 16 false 0 false o'' prefix.is_out in
            let tmp = render 16 false v in
            Emits-then prefix (
              subst (λ n. Emits o'' (replicate n b' ' ++ tmp) (emit_uint v 16 false o''))
                (padding_zero (length tmp)) digits)

        other : Emits o' (b'%' ∷ d.spec ∷ []) (emit d.spec (emit b'%' o'))
        other =
            let sign = emit-Emits b'%' o' h.is_out in
            Emits-then sign (emit-Emits d.spec (emit b'%' o') sign.is_out)

  print_directive-Agree :
      (d : Directive) (args : List Arg) (o' : Out) (t : List ℕ)
      → Emits o t o'
      → Agree Step (print_directive d args o') (print_step d args t)
  print_directive-Agree d args o' t h = directive_Prints o' t h d args

  pub walk-Emits :
      (fmt : List ℕ) (args : List Arg)
      → IsOut o
      → Agree After (walk emit print_directive (suc (length fmt)) fmt args o) (printed fmt args)
  walk-Emits fmt args is =
      walk-Agree After emit print_directive (λ c t. t ++ c ∷ []) print_step
        (λ c o' t h. Emits-then h (emit-Emits c o' h.is_out)) print_directive-Agree
        (suc (length fmt)) fmt args o []
        (record { is_out = is; behind = sym (append-nil (stream o)) })

-- printf on an output buffer whose next cell is in the array, where the format and the arguments
-- stand for the text `t`: the call returns 0, and what the blocks handed to `write` then hold is
-- what was emitted before the call, and `t`; nothing waits in the buffer.
pub printf-written :
    (fmt : List ℕ) (args : List Arg) (t : List ℕ) (o : Out)
    → IsOut o
    → printed fmt args ≡ done t
    → (o' : Out) × (printf fmt args o ≡ done (0, o'))
      × IsOut o'
      × (concat o'.written ≡ stream o ++ t)
      × (o'.outlen ≡ 0)
unfolding printf vprintf
printf-written fmt args t o is e =
    let (o', ran, h) =
      Agree-done (After o) (walk emit print_directive (suc (length fmt)) fmt args o) t
        (subst (Agree (After o) _) e (walk-Emits o fmt args is)) in
    let (is', whole, empty) = flush-written o' h.is_out in
    (flush o', rw ran refl, is', whole ∙ h.behind, empty)

-- puts returns 0 and hands to `write` what was emitted before the call, the string and a newline;
-- nothing waits in the buffer.
pub puts-written :
    (s : List ℕ) (o : Out)
    → IsOut o
    → ((puts s o).0 ≡ 0)
      × IsOut (puts s o).1
      × (concat (puts s o).1.written ≡ stream o ++ (s ++ b'\n' ∷ []))
      × ((puts s o).1.outlen ≡ 0)
unfolding puts
puts-written s o is =
    let first = emit_str-Emits s o is in
    let h = Emits-then first (emit-Emits b'\n' _ first.is_out) in
    let (is', whole, empty) = flush-written _ h.is_out in (refl, is', whole ∙ h.behind, empty)
