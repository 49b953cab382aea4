-- ===== src/Stdio/Digits/Decimal.antt =====
-- The decimal numerals of sdk/src/stdio.c, as sdk/src/stdlib.c reads them.
use axiome_toolchain.Base.{
  ℕ, zero, suc, ◌+◌, ◌-◌, ◌*◌, ◌/◌, ◌%◌, ◌^◌, ◌≤◌, ◌<◌, ◌≡◌, ◌≢◌, refl, sym, ◌∙◌, ap, inl, inr,
  Bool, true, false, List, [], ◌∷◌, arith, All, length, get_or, ◌==◌, ◌&&◌, Bool-cases,
}
use axiome_toolchain.Memory.{NonZero}
use axiome_toolchain.Stdio.Digits.{digit_table, digit_loop, render}
use axiome_toolchain.Stdio.Digits.Numeral.{digit_value, decode, decode-render, length-digit_loop}
use axiome_toolchain.Stdlib.Number.{is_digit}
use axiome_toolchain.Stdlib.Number.Value.{value}

-- Are the first `k` characters digits?
abbrev digits_first : ℕ → List ℕ → Bool
digits_first zero cs = true
digits_first (suc k) [] = false
digits_first (suc k) (c ∷ cs) = is_digit c && digits_first k cs

digits_first-get_or :
    (k d : ℕ) (cs : List ℕ) → digits_first k cs ≡ true → d < k → is_digit (get_or cs d 0) ≡ true
digits_first-get_or zero d cs h lt = absurd (omega arith)
digits_first-get_or (suc k) d [] h lt = absurd (ground arith)
digits_first-get_or (suc k) zero (c ∷ cs) h lt = ground arith
digits_first-get_or (suc k) (suc d) (c ∷ cs) h lt =
    digits_first-get_or k d cs (ground arith) (omega arith)

abbrev pub AllDigits : List ℕ → Type 0
AllDigits = All (λ c. is_digit c ≡ true)

digit_loop-AllDigits :
    (fuel v : ℕ) (tmp : List ℕ) → AllDigits tmp → AllDigits (digit_loop fuel 10 false v tmp)
unfolding digit_loop
digit_loop-AllDigits zero v tmp h = h
digit_loop-AllDigits (suc fuel) v tmp h = elim (Bool-cases (v == 0)) [
  | inl e ↦ rw e h
  | inr e ↦ rw e (
      digit_loop-AllDigits fuel (v / 10) (get_or (digit_table false) (v % 10) 0 ∷ tmp)
        (digits_first-get_or 10 (v % 10) (digit_table false) refl (omega arith), h))
]

pub render-AllDigits : (v : ℕ) → AllDigits (render 10 false v)
unfolding render
render-AllDigits v = elim (Bool-cases (v == 0)) [
  | inl e ↦ rw e (refl, tt)
  | inr e ↦ rw e (digit_loop-AllDigits 64 v [] tt)
]

value-decode : (n : ℕ) (ds : List ℕ) → AllDigits ds → value n ds ≡ decode 10 n ds
value-decode n [] h = refl
value-decode n (d ∷ ds) h =
    let same : digit_value d ≡ d - b'0' = ground arith in
    rw same (value-decode (n * 10 + (d - b'0')) ds h.1)

pub value-render : (v : ℕ) → v < 2 ^ 64 → value 0 (render 10 false v) ≡ v
value-render v lt =
    value-decode 0 (render 10 false v) (render-AllDigits v)
    ∙ decode-render 10 false v (omega arith) (omega arith) lt

pub AllDigits-NonZero : (ds : List ℕ) → AllDigits ds → NonZero ds
AllDigits-NonZero [] h = tt
AllDigits-NonZero (d ∷ ds) h = (ground arith, AllDigits-NonZero ds h.1)

-- There is a first digit.
pub render_cons : (v : ℕ) → v < 2 ^ 64 → (d : ℕ) × (ds : List ℕ) × (render 10 false v ≡ d ∷ ds)
unfolding render
render_cons v lt = elim (Bool-cases (v == 0)) [
  | inl e ↦ (b'0', [], rw e refl)
  | inr e ↦ some_digit (render 10 false v) refl (ground arith)
]
  where
    some_digit :
        (xs : List ℕ)
        → render 10 false v ≡ xs
        → v ≢ 0
        → (d : ℕ) × (ds : List ℕ) × (render 10 false v ≡ d ∷ ds)
    some_digit [] e ne = absurd (ne (sym (value-render v lt) ∙ ap (value 0) e))
    some_digit (d ∷ ds) e ne = (d, ds, e)

-- The digits of an int.
pub length-render_int : (v : ℕ) → v < 2 ^ 32 → length (render 10 false v) ≤ 10
unfolding render
length-render_int v lt = elim (Bool-cases (v == 0)) [
  | inl e ↦ rw e (omega arith)
  | inr e ↦ rw e (omega (arith, length-digit_loop 10 64 10 false v [] (omega arith) (omega arith)))
]
