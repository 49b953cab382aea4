-- ===== src/Stdlib/Number/Value.antt =====
-- The value that atoi and atol of sdk/src/stdlib.c read.
use mathlib.Core.Path.{subst}
use axiome_toolchain.Base.{
  ℕ, zero, suc, ◌+◌, ◌-◌, ◌*◌, ◌%◌, ◌^◌, ◌≤◌, ◌<◌, ◌≡◌, refl, ap, ◌∙◌, ◌⊎◌, Bool, true, false, ◌||◌,
  List, [], ◌∷◌, ◌++◌, some, arith, length, All, ◌==◌, if◌then◌else◌,
}
use axiome_toolchain.Base.Int.{pos, neg_ℤ}
use axiome_toolchain.Memory.{Memory, CString, CString-drop}
use axiome_toolchain.Stdlib.Number.{
  is_space, is_digit, skip_space, read_digits, signed, parse, atoi, atol,
}

-- The number that decimal digits spell behind `n`.
abbrev pub value : ℕ → List ℕ → ℕ
value n [] = n
value n (d ∷ ds) = value (n * 10 + (d - b'0')) ds

pub le-value : (n : ℕ) (ds : List ℕ) → n ≤ value n ds
le-value n [] = omega arith
le-value n (d ∷ ds) = omega (arith, le-value (n * 10 + (d - b'0')) ds)

-- Behind the digits comes the end of the string or a byte that is no digit.
abbrev pub NoDigit : List ℕ → Type 0
NoDigit [] = Unit {0}
NoDigit (c ∷ cs) = is_digit c ≡ false

-- A sign, and whether it is a minus.
abbrev pub IsSign : List ℕ → Bool → Type 0
IsSign [] neg = neg ≡ false
IsSign (c ∷ []) neg = ((c ≡ b'-') × (neg ≡ true)) ⊎ ((c ≡ b'+') × (neg ≡ false))
IsSign (c ∷ d ∷ cs) neg = ⊥

skip_space_lem :
    (fuel s : ℕ) (m : Memory) (sp : List ℕ) (c : ℕ) (cs : List ℕ)
    → CString m s (sp ++ c ∷ cs)
    → All (λ x. is_space x ≡ true) sp
    → is_space c ≡ false
    → length sp < fuel
    → skip_space fuel s m ≡ some (s + length sp)
unfolding skip_space
skip_space_lem zero s m sp c cs h all stop lt = absurd (omega arith)
skip_space_lem (suc fuel) s m [] c cs h all stop lt = rw (h.0, stop) (ap some (omega arith))
skip_space_lem (suc fuel) s m (x ∷ sp) c cs h all stop lt =
    rw (h.0, all.0)
      (skip_space_lem fuel (suc s) m sp c cs h.2 all.1 stop (omega arith) ∙ ap some (omega arith))

read_digits_lem :
    (width fuel s v : ℕ) (m : Memory) (ds cs : List ℕ)
    → CString m s (ds ++ cs)
    → All (λ x. is_digit x ≡ true) ds
    → NoDigit cs
    → value v ds < 2 ^ width
    → length ds < fuel
    → read_digits width fuel s v m ≡ some (value v ds)
unfolding read_digits
read_digits_lem width zero s v m ds cs h all stop fits lt = absurd (omega arith)
read_digits_lem width (suc fuel) s v m [] [] h all stop fits lt = rw h refl
read_digits_lem width (suc fuel) s v m [] (c ∷ cs) h all stop fits lt = rw (h.0, stop) refl
read_digits_lem width (suc fuel) s v m (d ∷ ds) cs h all stop fits lt =
    let n : ℕ = v * 10 + (d - b'0') in
    let small : n % 2 ^ width ≡ n = grind (arith, le-value n ds) in
    rw (h.0, all.0, small)
      (read_digits_lem width fuel (suc s) n m ds cs h.2 all.1 stop fits (omega arith))

wrapped_neg : (p h v : ℕ) → p ≡ 2 * h → v < h → 0 < v → (p - v) % p ≡ p - v
wrapped_neg p h v e lt pv = grind arith

wrapped_zero : (p : ℕ) → (p - 0) % p ≡ 0
wrapped_zero p = grind arith

signed_pos : (width v : ℕ) → v < 2 ^ (width - 1) → signed width v ≡ pos v
signed_pos width v lt = ground arith

signed_neg :
    (width v : ℕ)
    → 2 ^ width ≡ 2 * 2 ^ (width - 1)
    → v < 2 ^ (width - 1)
    → signed width ((2 ^ width - v) % 2 ^ width) ≡ neg_ℤ (pos v)
signed_neg width zero e lt = rw (wrapped_zero (2 ^ width)) (ground arith)
signed_neg width (suc v) e lt =
    rw (wrapped_neg (2 ^ width) (2 ^ (width - 1)) (suc v) e lt (omega arith)) (ground arith)

sign_is_not_space :
    (sg : List ℕ) (neg : Bool) (d : ℕ) (ds : List ℕ)
    → IsSign sg neg
    → is_digit d ≡ true
    → (c : ℕ) × (cs : List ℕ) × (sg ++ d ∷ ds ≡ c ∷ cs)
      × (is_space c ≡ false)
      × ((c == b'-') ≡ neg)
      × ((if neg || (c == b'+') then 1 else 0) ≡ length sg)
sign_is_not_space [] neg d ds sign dig = (d, ds, refl, ground arith, ground arith, ground arith)
sign_is_not_space (c ∷ []) neg d ds sign dig =
    (c, d ∷ ds, refl, ground arith, ground arith, ground arith)
sign_is_not_space (c ∷ x ∷ cs) neg d ds sign dig = absurd sign

after_sign :
    (neg : Bool) (c p : ℕ) (n : ℕ)
    → (if neg || (c == b'+') then 1 else 0) ≡ n
    → (if neg || (c == b'+') then suc p else p) ≡ p + n
after_sign neg c p n e = ground arith

parse-run :
    (width fuel s p q v : ℕ) (neg : Bool) (m : Memory)
    → skip_space fuel s m ≡ some p
    → (m p == b'-') ≡ neg
    → (if neg || (m p == b'+') then suc p else p) ≡ q
    → read_digits width fuel q 0 m ≡ some v
    → parse width fuel s m ≡ some (signed width (if neg then (2 ^ width - v) % 2 ^ width else v))
unfolding parse
parse-run width fuel s p q v neg m skip minus at run = rw (skip, minus, at, run) refl

signed_result :
    (width v : ℕ) (neg : Bool)
    → 2 ^ width ≡ 2 * 2 ^ (width - 1)
    → v < 2 ^ (width - 1)
    → signed width (if neg then (2 ^ width - v) % 2 ^ width else v)
      ≡ (if neg then neg_ℤ (pos v) else pos v)
signed_result width v true e lt = signed_neg width v e lt
signed_result width v false e lt = signed_pos width v lt

-- The fuel covers the text that is read, and the digits' value fits the type.
parse-value :
    (width fuel s : ℕ) (m : Memory) (sp sg : List ℕ) (neg : Bool) (d : ℕ) (ds cs : List ℕ)
    → 2 ^ width ≡ 2 * 2 ^ (width - 1)
    → CString m s (sp ++ (sg ++ ((d ∷ ds) ++ cs)))
    → All (λ x. is_space x ≡ true) sp
    → IsSign sg neg
    → All (λ x. is_digit x ≡ true) (d ∷ ds)
    → NoDigit cs
    → value 0 (d ∷ ds) < 2 ^ (width - 1)
    → length sp + length (d ∷ ds) < fuel
    → parse width fuel s m
      ≡ some (if neg then neg_ℤ (pos (value 0 (d ∷ ds))) else pos (value 0 (d ∷ ds)))
parse-value width fuel s m sp sg neg d ds cs half h spaces sign all stop fits lt =
    let (c, rest, cut, solid, minus, step) = sign_is_not_space sg neg d (ds ++ cs) sign all.0 in
    let p : ℕ = s + length sp in
    let v : ℕ = value 0 (d ∷ ds) in
    let skip =
      skip_space_lem fuel s m sp c rest (subst (λ xs. CString m s (sp ++ xs)) cut h) spaces solid
        (omega arith) in
    let tail : CString m p (sg ++ ((d ∷ ds) ++ cs)) =
      CString-drop m s sp (sg ++ ((d ∷ ds) ++ cs)) h in
    let first : m p ≡ c = (subst (CString m p) cut tail).0 in
    let digits : CString m (p + length sg) ((d ∷ ds) ++ cs) =
      CString-drop m p sg ((d ∷ ds) ++ cs) tail in
    let run =
      read_digits_lem width fuel (p + length sg) 0 m (d ∷ ds) cs digits all stop (omega arith)
        (omega arith) in
    parse-run width fuel s p (p + length sg) v neg m skip (rw first minus)
      (rw first (after_sign neg c p (length sg) step)) run
    ∙ ap some (signed_result width v neg half fits)

-- For a string of spaces, at most one sign, digits and a rest that begins with no digit, with the
-- digits' value below 2^31 and fuel above the number of spaces and digits, atoi ends and returns
-- that value, negated behind a minus sign.
pub atoi-value :
    (fuel s : ℕ) (m : Memory) (sp sg : List ℕ) (neg : Bool) (d : ℕ) (ds cs : List ℕ)
    → CString m s (sp ++ (sg ++ ((d ∷ ds) ++ cs)))
    → All (λ x. is_space x ≡ true) sp
    → IsSign sg neg
    → All (λ x. is_digit x ≡ true) (d ∷ ds)
    → NoDigit cs
    → value 0 (d ∷ ds) < 2 ^ 31
    → length sp + length (d ∷ ds) < fuel
    → atoi fuel s m ≡ some (if neg then neg_ℤ (pos (value 0 (d ∷ ds))) else pos (value 0 (d ∷ ds)))
unfolding atoi
atoi-value fuel s m sp sg neg d ds cs = parse-value 32 fuel s m sp sg neg d ds cs refl

-- For a string of spaces, at most one sign, digits and a rest that begins with no digit, with the
-- digits' value below 2^63 and fuel above the number of spaces and digits, atol ends and returns
-- that value, negated behind a minus sign.
pub atol-value :
    (fuel s : ℕ) (m : Memory) (sp sg : List ℕ) (neg : Bool) (d : ℕ) (ds cs : List ℕ)
    → CString m s (sp ++ (sg ++ ((d ∷ ds) ++ cs)))
    → All (λ x. is_space x ≡ true) sp
    → IsSign sg neg
    → All (λ x. is_digit x ≡ true) (d ∷ ds)
    → NoDigit cs
    → value 0 (d ∷ ds) < 2 ^ 63
    → length sp + length (d ∷ ds) < fuel
    → atol fuel s m ≡ some (if neg then neg_ℤ (pos (value 0 (d ∷ ds))) else pos (value 0 (d ∷ ds)))
unfolding atol
atol-value fuel s m sp sg neg d ds cs = parse-value 64 fuel s m sp sg neg d ds cs refl
