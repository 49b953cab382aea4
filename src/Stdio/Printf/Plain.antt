-- ===== src/Stdio/Printf/Plain.antt =====
-- The two formatters of sdk/src/stdio.c, printf and snprintf, on formats without widths.
use axiome_toolchain.Base.{
  ℕ, suc, ◌<◌, ◌≢◌, ◌-◌, ◌%◌, ◌^◌, ◌≡◌, refl, ◌∙◌, ap, Bool, true, false, ◌||◌, List, [], ◌∷◌, ◌++◌,
  codes, length, replicate, append-nil, ◌==◌, if◌then◌else◌, Bool-cases, inl, inr, arith,
}
use axiome_toolchain.Stdio.Digits.{render}
use axiome_toolchain.Stdio.Format.Directive.{Directive}
use axiome_toolchain.Stdio.Format.Run.{
  Run, done, undefined, Arg, word, text, ◌>>=◌, next_word, next_text, signed_arg, unsigned_arg,
  is_negative,
}
use axiome_toolchain.Stdio.Format.Loop.{walk}
use axiome_toolchain.Stdio.Format.Refined.{>>=_done, walk-done}
use axiome_toolchain.Stdio.Snprintf.{content, signed_text, string_text, padding, snprintf}
use axiome_toolchain.Stdio.Snprintf.Text.{append_field, field}
use axiome_toolchain.Memory.{Memory, null}
use axiome_toolchain.Stdio.Buffer.{Out}
use axiome_toolchain.Stdio.Buffer.Stream.{concat, stream, IsOut}
use axiome_toolchain.Stdio.Snprintf.Cut.{terminated, snprintf-terminated}
use axiome_toolchain.Stdio.Printf.{printf}
use axiome_toolchain.Stdio.Printf.Written.{printf-written}
use axiome_toolchain.Stdio.Printf.Fields.{
  padded, signed_field, string_field, print_field, print_step, padding_zero,
}

-- The text of a format with no width in its directives: each directive stands for its content.
abbrev pub plain_step : Directive → List Arg → List ℕ → Run (List Arg × List ℕ)
plain_step d args t =
    if d.width == 0
    then content d args >>= (λ (bytes, args'). done (args', t ++ bytes))
    else undefined

abbrev pub plain : List ℕ → List Arg → Run (List ℕ)
plain fmt args = walk (λ c t. t ++ c ∷ []) plain_step (suc (length fmt)) fmt args []

-- Where the content is defined, printf prints just that.
abbrev Same : Run (List ℕ × List Arg) → Run (List Arg × List ℕ) → Type 0
Same r r' = (bytes : List ℕ) (args : List Arg) → r ≡ done (bytes, args) → r' ≡ done (args, bytes)

if_Same :
    (b : Bool) (r u : Run (List ℕ × List Arg)) (r' u' : Run (List Arg × List ℕ))
    → Same r r'
    → Same u u'
    → Same (if b then r else u) (if b then r' else u')
if_Same true r u r' u' p q = p
if_Same false r u r' u' p q = q

turn :
    (bytes : List ℕ) (args : List Arg) (s : List ℕ) (rest : List Arg)
    → ◌≡◌ {A = Run (List ℕ × List Arg)} (done (s, rest)) (done (bytes, args))
    → ◌≡◌ {A = Run (List Arg × List ℕ)} (done (rest, s)) (done (args, bytes))
turn bytes args s rest e = cc

word_Same :
    (args : List Arg) (f : ℕ → Run (List ℕ)) (g : ℕ → List ℕ)
    → ((w : ℕ) (s : List ℕ) → f w ≡ done s → g w ≡ s)
    → Same
        (next_word args >>= λ (w, args'). f w >>= λ s. done (s, args'))
        (next_word args >>= λ (w, args'). done (args', g w))
word_Same [] f g p bytes rest e = absurd (cc)
word_Same (word w ∷ args) f g p bytes rest e =
    let (s, es, e') = >>=_done (f w) _ (bytes, rest) e in
    ap (λ x. done (args, x)) (p w s es) ∙ turn bytes rest s args e'
word_Same (text s ∷ args) f g p bytes rest e = absurd (cc)

text_Same :
    (args : List Arg) (g : List ℕ → List ℕ)
    → ((t : List ℕ) → g t ≡ t)
    → Same
        (next_text args >>= λ (s, args'). string_text s >>= λ t. done (t, args'))
        (next_text args >>= λ (s, args'). string_text s >>= λ t. done (args', g t))
text_Same [] g p bytes rest e = absurd (cc)
text_Same (word w ∷ args) g p bytes rest e = absurd (cc)
text_Same (text s ∷ args) g p bytes rest e =
    let (t, et, e') = >>=_done (string_text s) _ (bytes, rest) e in
    rw et (ap (λ x. done (args, x)) (p t) ∙ turn bytes rest t args e')

padded_zero : (zero_pad : Bool) (s : List ℕ) → padded 0 zero_pad s ≡ s
padded_zero zero_pad s = rw (padding_zero (length s)) refl

signed_field_zero :
    (v : ℕ) (zero_pad : Bool) (s : List ℕ) → signed_text v ≡ done s → signed_field v 0 zero_pad ≡ s
signed_field_zero v zero_pad s e = elim (Bool-cases (v == 2 ^ 63)) [
  | inl least ↦ let e' : ◌≡◌ {A = Run (List ℕ)} undefined (done s) = rw least at e in absurd (cc)
  | inr other ↦ elim (Bool-cases (is_negative v)) [
    | inl neg ↦
        let e' : ◌≡◌ {A = Run (List ℕ)} (done (b'-' ∷ render 10 false (2 ^ 64 - v))) (done s) =
          rw (other, neg) at e in
        rw neg (ap (◌∷◌ b'-') (padded_zero zero_pad (render 10 false (2 ^ 64 - v))) ∙ cc)
    | inr nonneg ↦
        let e' : ◌≡◌ {A = Run (List ℕ)} (done (render 10 false v)) (done s) =
          rw (other, nonneg) at e in
        rw nonneg (padded_zero zero_pad (render 10 false v) ∙ cc)
  ]
]

string_field_zero : (left_align : Bool) (t : List ℕ) → string_field t 0 left_align ≡ t
string_field_zero true t = rw (padding_zero (length t)) (append-nil t)
string_field_zero false t = rw (padding_zero (length t)) refl

content-Same :
    (d : Directive) (args : List Arg) → d.width ≡ 0 → Same (content d args) (print_field d args)
content-Same d args z =
    if_Same ((d.spec == b'd') || (d.spec == b'i')) _ _ _ _
      (word_Same args (λ w. signed_text (signed_arg d.longflag w)) _
        (λ w s e.
          ap (λ n. signed_field (signed_arg d.longflag w) n d.zero_pad) z
          ∙ signed_field_zero (signed_arg d.longflag w) d.zero_pad s e))
      (if_Same (d.spec == b'u') _ _ _ _
        (word_Same args (λ w. done (render 10 false (unsigned_arg d.longflag w))) _
          (λ w s e. number (render 10 false (unsigned_arg d.longflag w)) s e))
        (if_Same ((d.spec == b'x') || (d.spec == b'X')) _ _ _ _
          (word_Same args (λ w. done (render 16 (d.spec == b'X') (unsigned_arg d.longflag w))) _
            (λ w s e. number (render 16 (d.spec == b'X') (unsigned_arg d.longflag w)) s e))
          (if_Same (d.spec == b'p') _ _ _ _
            (word_Same args (λ w. done (codes "0x" ++ render 16 false (w % 2 ^ 64))) _
              (λ w s e. result (codes "0x" ++ render 16 false (w % 2 ^ 64)) s e))
            (if_Same (d.spec == b's') _ _ _ _
              (text_Same args _
                (λ t. ap (λ n. string_field t n d.left_align) z ∙ string_field_zero d.left_align t))
              (if_Same (d.spec == b'c') _ _ _ _
                (word_Same args (λ w. done (w % 256 ∷ [])) _ (λ w s e. result (w % 256 ∷ []) s e))
                (λ bytes rest e. turn bytes rest (b'%' ∷ d.spec ∷ []) args e))))))
  where
    result : (t s : List ℕ) → ◌≡◌ {A = Run (List ℕ)} (done t) (done s) → t ≡ s
    result t s e = cc

    number :
        (t s : List ℕ) → ◌≡◌ {A = Run (List ℕ)} (done t) (done s) → padded d.width d.zero_pad t ≡ s
    number t s e = ap (λ n. padded n d.zero_pad t) z ∙ padded_zero d.zero_pad t ∙ result t s e

print_plain :
    (d : Directive) (args : List Arg) (t : List ℕ) (r : List Arg × List ℕ)
    → plain_step d args t ≡ done r
    → print_step d args t ≡ done r
print_plain d args t r e = elim (Bool-cases (d.width == 0)) [
  | inl z ↦
      let (c, ec, e') = >>=_done (content d args) _ r (rw z at e) in
      rw (content-Same d args (ground arith) c.0 c.1 ec) e'
  | inr wide ↦
      let e' : ◌≡◌ {A = Run (List Arg × List ℕ)} undefined (done r) = rw wide at e in absurd (cc)
]

field_zero : (d : Directive) (bytes : List ℕ) → d.width ≡ 0 → field d bytes ≡ bytes
field_zero d bytes z =
    sides d.left_align (padding d.width (length bytes))
      (ap (λ n. padding n (length bytes)) z ∙ padding_zero (length bytes))
  where
    sides :
        (b : Bool) (pad : ℕ)
        → pad ≡ 0
        → replicate (if b then 0 else pad) (if d.zero_pad then b'0' else b' ')
            ++ (bytes ++ replicate (if b then pad else 0) b' ')
          ≡ bytes
    sides true pad e = rw e (append-nil bytes)
    sides false pad e = rw e (append-nil bytes)

format_plain :
    (d : Directive) (args : List Arg) (t : List ℕ) (r : List Arg × List ℕ)
    → plain_step d args t ≡ done r
    → append_field d args t ≡ done r
format_plain d args t r e = elim (Bool-cases (d.width == 0)) [
  | inl z ↦
      let (c, ec, e') = >>=_done (content d args) _ r (rw z at e) in
      rw (ec, field_zero d c.0 (ground arith)) e'
  | inr wide ↦
      let e' : ◌≡◌ {A = Run (List Arg × List ℕ)} undefined (done r) = rw wide at e in absurd (cc)
]

-- Where no directive of the format has a width and the least long is not printed, so that the text
-- `t` is that of the directives' contents: printf hands `t` to `write` behind what was emitted before,
-- and snprintf, to a buffer that is not null and has room for it, leaves `t` and a terminator there
-- and returns its length. The two functions produce the same bytes.
pub printf-snprintf :
    (fmt : List ℕ) (args : List Arg) (t : List ℕ) (o : Out) (str size : ℕ) (m : Memory)
    → IsOut o
    → str ≢ null
    → length t < size
    → size < 2 ^ 64
    → plain fmt args ≡ done t
    → (o' : Out) × (m' : Memory) × (printf fmt args o ≡ done (0, o'))
      × (concat o'.written ≡ stream o ++ t)
      × (snprintf str size fmt args m ≡ done (length t % 2 ^ 32, m'))
      × ((x : ℕ) → m' x ≡ terminated m str size t x)
printf-snprintf fmt args t o str size m is there room fits e =
    let by_printf =
      walk-done (λ c t. t ++ c ∷ []) plain_step print_step print_plain (suc (length fmt)) fmt args
        [] t e in
    let by_snprintf =
      walk-done (λ c t. t ++ c ∷ []) plain_step append_field format_plain (suc (length fmt)) fmt
        args [] t e in
    let (o', ran, is', whole, empty) = printf-written fmt args t o is by_printf in
    let (m', ran', same) =
      snprintf-terminated str size fmt args m t there (omega arith) fits by_snprintf
        (omega arith) in
    (o', m', ran, whole, ran', same)
