-- ===== src/Stdio/Format/Directive.antt =====
-- The parts of a `%` directive, lines 145 to 183 of sdk/src/stdio.c and the same code in vprintf.
use axiome_toolchain.Base.{
  ℕ, ◌+◌, ◌-◌, ◌*◌, ◌%◌, ◌^◌, ◌<◌, ◌≤◌, ◌≡◌, ◌≢◌, refl, ap, Bool, true, false, ◌||◌, List, [], ◌∷◌,
  Option, none, some, ◌>>=◌, arith, length, ◌==◌, if◌then◌else◌,
}
use axiome_toolchain.Stdlib.Number.{is_digit}

pub record Directive : Type 0 where
  pub left_align : Bool
  pub zero_pad : Bool
  pub width : ℕ
  pub longflag : Bool
  pub spec : ℕ

-- `if (*fmt == 0) break;`, four times in the source. The loops stop at the terminator by themselves,
-- so that the first three tests only leave early; the last one keeps it from being taken for the
-- conversion.
abbrev pub more : List ℕ → Option (List ℕ)
more [] = none
more (c ∷ s) = some (c ∷ s)

unfoldable pub read_flags : List ℕ → Bool → Bool → List ℕ × Bool × Bool
read_flags [] left z = ([], left, z)
read_flags (c ∷ s) left z =
    let rest = read_flags s (left || (c == b'-')) (z || (c == b'0')) in
    if (c == b'-') || (c == b'0') then rest else (c ∷ s, left, z)

-- `width` is an `int`, by its 32-bit pattern.
unfoldable pub read_width : List ℕ → ℕ → List ℕ × ℕ
read_width [] w = ([], w)
read_width (c ∷ s) w =
    let rest = read_width s ((w * 10 + (c - b'0')) % 2 ^ 32) in
    if is_digit c then rest else (c ∷ s, w)

unfoldable pub skip_digits : List ℕ → List ℕ
skip_digits [] = []
skip_digits (c ∷ s) = let rest = skip_digits s in if is_digit c then rest else c ∷ s

unfoldable pub skip_precision : List ℕ → List ℕ
skip_precision [] = []
skip_precision (c ∷ s) = if c == b'.' then skip_digits s else c ∷ s

unfoldable pub read_lengths : List ℕ → Bool → List ℕ × Bool
read_lengths [] flag = ([], flag)
read_lengths (c ∷ s) flag =
    let rest = read_lengths s true in
    if (c == b'l') || (c == b'h') || (c == b'z') then rest else (c ∷ s, flag)

-- `char spec = *fmt;` and the step of the loop behind it; `none` at the terminator.
unfoldable pub read_spec : Bool → Bool → ℕ → Bool → List ℕ → Option (Directive × List ℕ)
read_spec left z w flag [] = none
read_spec left z w flag (c ∷ s) =
    some (record { left_align = left; zero_pad = z; width = w; longflag = flag; spec = c }, s)

-- A directive from behind its `%` on, and the format behind it; `none` where the format ends. The
-- answer is `some none` where the terminator would be taken for the conversion, and the loop would go
-- on behind it.
unfoldable pub parse_directive : List ℕ → Option (Option (Directive × List ℕ))
parse_directive fmt = do
  let (s, left, z) = read_flags fmt false false
  s ← more s
  let (s, w) = read_width s 0
  s ← more s
  s ← more (skip_precision s)
  let (s, flag) = read_lengths s false
  s ← more s
  some (read_spec left z w flag s)

length-read_flags : (s : List ℕ) (l z : Bool) → length (read_flags s l z).0 ≤ length s
unfolding read_flags
length-read_flags [] l z = omega arith
length-read_flags (c ∷ s) l z =
    ground (arith, length-read_flags s (l || (c == b'-')) (z || (c == b'0')))

length-read_width : (s : List ℕ) (w : ℕ) → length (read_width s w).0 ≤ length s
unfolding read_width
length-read_width [] w = omega arith
length-read_width (c ∷ s) w = ground (arith, length-read_width s ((w * 10 + (c - b'0')) % 2 ^ 32))

length-skip_digits : (s : List ℕ) → length (skip_digits s) ≤ length s
unfolding skip_digits
length-skip_digits [] = omega arith
length-skip_digits (c ∷ s) = ground (arith, length-skip_digits s)

length-skip_precision : (s : List ℕ) → length (skip_precision s) ≤ length s
unfolding skip_precision
length-skip_precision [] = omega arith
length-skip_precision (c ∷ s) = ground (arith, length-skip_digits s)

length-read_lengths : (s : List ℕ) (f : Bool) → length (read_lengths s f).0 ≤ length s
unfolding read_lengths
length-read_lengths [] f = omega arith
length-read_lengths (c ∷ s) f = ground (arith, length-read_lengths s true)

length-read_spec :
    (l z : Bool) (w : ℕ) (f : Bool) (s : List ℕ) {d : Directive} {rest : List ℕ}
    → read_spec l z w f s ≡ some (d, rest)
    → length rest < length s
unfolding read_spec
length-read_spec l z w f [] e = absurd (cc)
length-read_spec l z w f (c ∷ s) e = ground arith

more-some : (s : List ℕ) {t : List ℕ} → more s ≡ some t → s ≡ t
more-some [] e = absurd (cc)
more-some (c ∷ s) e = ground arith

>>=-some :
    {A B : Type 0} (o : Option A) (f : A → Option B) {b : B}
    → (o >>= f) ≡ some b
    → (a : A) × (o ≡ some a) × (f a ≡ some b)
>>=-some none f e = absurd (cc)
>>=-some (some a) f e = (a, refl, e)

-- A directive takes up at least one byte of the format.
pub length-parse_directive :
    (fmt : List ℕ) {d : Directive} {rest : List ℕ}
    → parse_directive fmt ≡ some (some (d, rest))
    → length rest < length fmt
unfolding parse_directive
length-parse_directive fmt {d} {rest} e =
    let flags = read_flags fmt false false in
    let (s, m, e) = >>=-some (more flags.0) _ e in
    let wide = read_width s 0 in
    let (s', m', e') = >>=-some (more wide.0) _ e in
    let (s'', m'', e'') = >>=-some (more (skip_precision s')) _ e' in
    let lengths = read_lengths s'' false in
    let (last, m4, e4) = >>=-some (more lengths.0) _ e'' in
    let found : read_spec flags.1 flags.2 wide.1 lengths.1 last ≡ some (d, rest) = cc in
    omega (
      arith,
      length-read_spec flags.1 flags.2 wide.1 lengths.1 last found,
      ap length (more-some lengths.0 m4),
      length-read_lengths s'' false,
      ap length (more-some (skip_precision s') m''),
      length-skip_precision s',
      ap length (more-some wide.0 m'),
      length-read_width s 0,
      ap length (more-some flags.0 m),
      length-read_flags fmt false false,
    )

more-read_spec :
    (l z : Bool) (w : ℕ) (f : Bool) (s t : List ℕ) → more s ≡ some t → read_spec l z w f t ≢ none
unfolding read_spec
more-read_spec l z w f [] t e = absurd (cc)
more-read_spec l z w f (c ∷ s) [] e = absurd (cc)
more-read_spec l z w f (c ∷ s) (x ∷ t) e = λ h. cc

-- The terminator is never taken for a conversion.
pub parse_directive-inside : (fmt : List ℕ) → parse_directive fmt ≢ some none
unfolding parse_directive
parse_directive-inside fmt = λ e.
    let flags = read_flags fmt false false in
    let (s, m, e) = >>=-some (more flags.0) _ e in
    let wide = read_width s 0 in
    let (s', m', e') = >>=-some (more wide.0) _ e in
    let (s'', m'', e'') = >>=-some (more (skip_precision s')) _ e' in
    let lengths = read_lengths s'' false in
    let (last, m4, e4) = >>=-some (more lengths.0) _ e'' in
    let behind : read_spec flags.1 flags.2 wide.1 lengths.1 last ≡ none = cc in
    more-read_spec flags.1 flags.2 wide.1 lengths.1 lengths.0 last m4 behind
