-- ===== src/Stdio/Digits/Spelled.antt =====
-- The characters that sdk/src/stdio.c renders a number with.
use native.Mathlib.Nat.{div-add-mod', mod-lt, pow-suc, pow-zero}
use axiome_toolchain.Base.{
  ℕ, zero, suc, ◌+◌, ◌*◌, ◌/◌, ◌%◌, ◌^◌, ◌≤◌, ◌<◌, ◌≡◌, ◌≢◌, refl, sym, ap, ◌∙◌, ◌⊎◌, inl, inr,
  Bool, true, false, List, [], ◌∷◌, arith, All, length, get_or, leb, ◌==◌, ◌&&◌, ◌||◌,
  if◌then◌else◌, Bool-cases,
}
use axiome_toolchain.Stdio.Digits.{digit_table, digit_loop, render}
use axiome_toolchain.Stdio.Digits.Numeral.{
  digit_value, decode, decode-render, digit_value-table, halved,
}

-- A decimal digit, or a letter from A to F in upper or from a to f in lower case.
abbrev pub in_case : Bool → ℕ → Bool
in_case upper c =
    (leb b'0' c && leb c b'9')
    || (if upper then leb b'A' c && leb c b'F' else leb b'a' c && leb c b'f')

-- The characters of a number in this base and case.
abbrev pub AllIn : ℕ → Bool → List ℕ → Type 0
AllIn base upper = All (λ c. (in_case upper c ≡ true) × (digit_value c < base))

-- 0 is one digit, and any other number begins with another digit.
abbrev pub IsShort : ℕ → List ℕ → Type 0
IsShort v s = ((v ≡ 0) × (s ≡ b'0' ∷ [])) ⊎ ((c : ℕ) × (cs : List ℕ) × (s ≡ c ∷ cs) × (c ≢ b'0'))

abbrev all_in_case : Bool → List ℕ → Bool
all_in_case upper [] = true
all_in_case upper (c ∷ cs) = in_case upper c && all_in_case upper cs

all_in_case-get_or :
    (upper : Bool) (d : ℕ) (cs : List ℕ)
    → all_in_case upper cs ≡ true
    → d < length cs
    → in_case upper (get_or cs d 0) ≡ true
all_in_case-get_or upper d [] h lt = absurd (omega arith)
all_in_case-get_or upper zero (c ∷ cs) h lt = left (in_case upper c) (all_in_case upper cs) h
  where
    left : (a b : Bool) → (a && b) ≡ true → a ≡ true
    left a b e = ground arith
all_in_case-get_or upper (suc d) (c ∷ cs) h lt =
    all_in_case-get_or upper d cs (right (in_case upper c) (all_in_case upper cs) h) (omega arith)
  where
    right : (a b : Bool) → (a && b) ≡ true → b ≡ true
    right a b e = ground arith

digit_table-in_case :
    (upper : Bool) (d : ℕ) → d < 16 → in_case upper (get_or (digit_table upper) d 0) ≡ true
digit_table-in_case true d lt = all_in_case-get_or true d (digit_table true) refl lt
digit_table-in_case false d lt = all_in_case-get_or false d (digit_table false) refl lt

module _ (base : ℕ) (upper : Bool) (lo : 2 ≤ base) (hi : base ≤ 16) where
  digit_lem :
      (v : ℕ)
      → (in_case upper (get_or (digit_table upper) (v % base) 0) ≡ true)
        × (digit_value (get_or (digit_table upper) (v % base) 0) ≡ v % base)
        × (v % base < base)
  digit_lem v =
      let small : v % base < base = mod-lt v {m = base} (omega arith) in
      (
        digit_table-in_case upper (v % base) (omega arith),
        digit_value-table upper (v % base) (omega arith),
        small,
      )

  digit_loop-AllIn :
      (fuel v : ℕ) (tmp : List ℕ)
      → AllIn base upper tmp
      → AllIn base upper (digit_loop fuel base upper v tmp)
  unfolding digit_loop
  digit_loop-AllIn zero v tmp h = h
  digit_loop-AllIn (suc fuel) v tmp h =
      let (cased, value, small) = digit_lem v in
      elim (Bool-cases (v == 0)) [
        | inl e ↦ rw e h
        | inr e ↦ rw e (
            digit_loop-AllIn fuel (v / base) (get_or (digit_table upper) (v % base) 0 ∷ tmp)
              ((cased, rw value small), h))
      ]

  digit_loop_zero : (fuel : ℕ) (tmp : List ℕ) → digit_loop fuel base upper 0 tmp ≡ tmp
  unfolding digit_loop
  digit_loop_zero zero tmp = refl
  digit_loop_zero (suc fuel) tmp = refl

  last_digit : (v : ℕ) → v ≢ 0 → v / base ≡ 0 → get_or (digit_table upper) (v % base) 0 ≢ b'0'
  last_digit v ne whole = λ z.
      let (cased, value, small) = digit_lem v in
      let nothing : v % base ≡ 0 = sym value ∙ ap digit_value z in
      let split = div-add-mod' v base in
      ne (
        sym split
        ∙ ap (λ q. q * base + v % base) whole
        ∙ ap (λ r. 0 * base + r) nothing
        ∙ omega arith)

  digit_loop-IsShort :
      (fuel v : ℕ) (tmp : List ℕ)
      → v ≢ 0
      → v < 2 ^ fuel
      → (c : ℕ) × (cs : List ℕ) × (digit_loop fuel base upper v tmp ≡ c ∷ cs) × (c ≢ b'0')
  unfolding digit_loop
  digit_loop-IsShort zero v tmp ne lt = absurd (omega (arith, rw pow-zero at lt))
  digit_loop-IsShort (suc fuel) v tmp ne lt =
      let c : ℕ = get_or (digit_table upper) (v % base) 0 in
      let e : (v == 0) ≡ false = ground arith in
      elim (Bool-cases (v / base == 0)) [
        | inl last ↦
            let whole : v / base ≡ 0 = ground arith in
            (
              c,
              tmp,
              rw e (
                  ap (λ q. digit_loop fuel base upper q (c ∷ tmp)) whole
                  ∙ digit_loop_zero fuel (c ∷ tmp)),
              last_digit v ne whole,
            )
        | inr more ↦ rw e (
            digit_loop-IsShort fuel (v / base) (c ∷ tmp) (ground arith)
              (halved v base (2 ^ fuel) lo (rw pow-suc at lt)))
      ]

  shape_lem :
      (v : ℕ)
      → v < 2 ^ 64
      → AllIn base upper (render base upper v) × IsShort v (render base upper v)
  unfolding render
  shape_lem v lt = elim (Bool-cases (v == 0)) [
    | inl e ↦
        let nothing : v ≡ 0 = ground arith in
        rw e (((zero_in_case upper, omega arith), tt), inl (nothing, refl))
    | inr e ↦ rw e (digit_loop-AllIn 64 v [] tt, inr (digit_loop-IsShort 64 v [] (ground arith) lt))
  ]
    where
      zero_in_case : (upper : Bool) → in_case upper b'0' ≡ true
      zero_in_case true = refl
      zero_in_case false = refl

  -- For a 64-bit number, base 10 or 16 (any base from 2 to 16) and a case of letters: the characters
  -- that emit_uint_width and vsnprintf_internal produce are digits of that base, letters among them
  -- in that case only; they spell the number in that order; and there are no zeros in front, 0 itself
  -- being one digit.
  pub render-IsShort :
      (v : ℕ)
      → v < 2 ^ 64
      → AllIn base upper (render base upper v)
        × (decode base 0 (render base upper v) ≡ v)
        × IsShort v (render base upper v)
  render-IsShort v lt =
      let (cased, short) = shape_lem v lt in (cased, decode-render base upper v lo hi lt, short)
