-- ===== src/Stdio/Digits/Numeral.antt =====
-- The numerals that sdk/src/stdio.c prints.
use native.Mathlib.Nat.{div-lt_iff_lt-mul, div-add-mod', mod-lt, pow-suc, pow-zero}
use axiome_toolchain.Base.{
  ℕ, zero, suc, ◌+◌, ◌-◌, ◌*◌, ◌/◌, ◌%◌, ◌^◌, ◌≤◌, ◌<◌, ◌≡◌, refl, ap, ◌∙◌, inl, inr, Bool, true,
  false, List, [], ◌∷◌, arith, length, get_or, ltb, ◌==◌, if◌then◌else◌, Bool-cases, ◌&&◌,
}
use axiome_toolchain.Stdio.Digits.{digit_table, digit_loop, render}

-- The value of a digit character.
abbrev pub digit_value : ℕ → ℕ
digit_value c = if ltb c 58 then c - b'0' else if ltb c 91 then c - 55 else c - 87

-- The number that the characters spell in base `base` behind `n`.
abbrev pub decode : ℕ → ℕ → List ℕ → ℕ
decode base n [] = n
decode base n (c ∷ cs) = decode base (n * base + digit_value c) cs

-- Do the characters spell the numbers from `k` on?
abbrev spells : ℕ → List ℕ → Bool
spells k [] = true
spells k (c ∷ cs) = (digit_value c == k) && spells (suc k) cs

spells-get_or :
    (k d : ℕ) (cs : List ℕ)
    → spells k cs ≡ true
    → d < length cs
    → digit_value (get_or cs d 0) ≡ k + d
spells-get_or k d [] h lt = absurd (omega arith)
spells-get_or k zero (c ∷ cs) h lt = ground arith
spells-get_or k (suc d) (c ∷ cs) h lt = ground (arith, spells-get_or (suc k) d cs)

pub digit_value-table :
    (upper : Bool) (d : ℕ) → d < 16 → digit_value (get_or (digit_table upper) d 0) ≡ d
digit_value-table true d lt = spells-get_or 0 d (digit_table true) refl lt ∙ omega arith
digit_value-table false d lt = spells-get_or 0 d (digit_table false) refl lt ∙ omega arith

pub halved : (v base p : ℕ) → 2 ≤ base → v < p * 2 → v / base < p
halved v base p lo lt = (div-lt_iff_lt-mul {k = base} {x = v} {y = p} (omega arith)).1 (grind arith)

decode-digit_loop :
    (fuel base : ℕ) (upper : Bool) (v : ℕ) (tmp : List ℕ)
    → 2 ≤ base
    → base ≤ 16
    → v < 2 ^ fuel
    → decode base 0 (digit_loop fuel base upper v tmp) ≡ decode base v tmp
unfolding digit_loop
decode-digit_loop zero base upper v tmp lo hi lt = ap (λ n. decode base n tmp) (grind arith)
decode-digit_loop (suc fuel) base upper v tmp lo hi lt = elim (Bool-cases (v == 0)) [
  | inl e ↦ rw e (ap (λ n. decode base n tmp) (ground arith))
  | inr e ↦
      let c : ℕ = get_or (digit_table upper) (v % base) 0 in
      let small : v % base < 16 = omega (arith, mod-lt v {m = base} (omega arith)) in
      let split : v / base * base + digit_value c ≡ v =
        rw (digit_value-table upper (v % base) small) (div-add-mod' v base) in
      rw e (
        decode-digit_loop fuel base upper (v / base) (c ∷ tmp) lo hi
          (halved v base (2 ^ fuel) lo (rw pow-suc at lt))
        ∙ ap (λ n. decode base n tmp) split)
]

-- The digits that emit_uint_width and vsnprintf_internal produce for a 64-bit number in base 10 or
-- 16 (any base from 2 to 16) spell that number: none is lost, and the order is right.
pub decode-render :
    (base : ℕ) (upper : Bool) (v : ℕ)
    → 2 ≤ base
    → base ≤ 16
    → v < 2 ^ 64
    → decode base 0 (render base upper v) ≡ v
unfolding render
decode-render base upper v lo hi lt = elim (Bool-cases (v == 0)) [
  | inl e ↦ rw e (ground arith)
  | inr e ↦ rw e (decode-digit_loop 64 base upper v [] lo hi lt)
]

pub length-digit_loop :
    (k fuel base : ℕ) (upper : Bool) (v : ℕ) (tmp : List ℕ)
    → 2 ≤ base
    → v < base ^ k
    → length (digit_loop fuel base upper v tmp) ≤ k + length tmp
unfolding digit_loop
length-digit_loop k zero base upper v tmp lo lt = omega arith
length-digit_loop zero (suc fuel) base upper v tmp lo lt =
    let z : (v == 0) ≡ true = ground (arith, rw pow-zero at lt) in rw z (omega arith)
length-digit_loop (suc k) (suc fuel) base upper v tmp lo lt = elim (Bool-cases (v == 0)) [
  | inl e ↦ rw e (omega arith)
  | inr e ↦
      let c : ℕ = get_or (digit_table upper) (v % base) 0 in
      let less : v / base < base ^ k =
        (div-lt_iff_lt-mul {k = base} {x = v} {y = base ^ k} (omega arith)).1 (rw pow-suc at lt) in
      rw e (omega (arith, length-digit_loop k fuel base upper (v / base) (c ∷ tmp) lo less))
]

-- A 64-bit number has at most 20 digits in base 10 and 16 in base 16, so the digits fit the
-- `char[24]` that collects them.
pub length-render :
    (upper : Bool) (v : ℕ)
    → v < 2 ^ 64
    → (length (render 10 upper v) ≤ 20) × (length (render 16 upper v) ≤ 16)
unfolding render
length-render upper v lt = elim (Bool-cases (v == 0)) [
  | inl e ↦ rw e (omega arith, omega arith)
  | inr e ↦ rw e (
    omega (arith, length-digit_loop 20 64 10 upper v [] (omega arith) (omega arith)),
    omega (arith, length-digit_loop 16 64 16 upper v [] (omega arith) (omega arith)),
  )
]
