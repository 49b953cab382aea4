-- ===== src/Stdio/Snprintf/Readback.antt =====
-- snprintf of sdk/src/stdio.c and atoi of sdk/src/stdlib.c: a number printed and read back.
use mathlib.Core.Path.{subst}
use native.Mathlib.Nat.{add-zero}
use axiome_toolchain.Base.{
  ℕ, suc, ◌+◌, ◌-◌, ◌%◌, ◌^◌, ◌≤◌, ◌<◌, ◌≡◌, ◌≢◌, refl, sym, ◌∙◌, ap, inl, inr, Bool, true, false,
  not, List, [], ◌∷◌, ◌++◌, some, codes, arith, length, get_or, ltb, leb, ◌==◌, ◌&&◌, if◌then◌else◌,
  Bool-cases, append-nil, ==_self,
}
use axiome_toolchain.Base.Int.{pos, neg_ℤ}
use axiome_toolchain.Memory.{Memory, null, CString, NonZero}
use axiome_toolchain.Stdlib.Number.{signed, atoi}
use axiome_toolchain.Stdlib.Number.Value.{value, IsSign, atoi-value}
use axiome_toolchain.Stdio.Digits.{render}
use axiome_toolchain.Stdio.Digits.Decimal.{
  AllDigits, render-AllDigits, value-render, AllDigits-NonZero, render_cons, length-render_int,
}
use axiome_toolchain.Stdio.Format.Run.{done, word}
use axiome_toolchain.Stdio.Format.Loop.{walk}
use axiome_toolchain.Stdio.Format.Directive.{
  parse_directive, read_flags, read_width, skip_precision, skip_digits, read_lengths, read_spec,
}
use axiome_toolchain.Stdio.Snprintf.{snprintf}
use axiome_toolchain.Stdio.Snprintf.Text.{formatted, cut}
use axiome_toolchain.Stdio.Snprintf.Cut.{terminated, snprintf-terminated}

-- The absolute value of an int by its pattern, and its sign.
abbrev magnitude : ℕ → ℕ
magnitude x = if ltb x (2 ^ 31) then x else 2 ^ 32 - x

abbrev prefix : ℕ → List ℕ
prefix x = if ltb x (2 ^ 31) then [] else b'-' ∷ []

abbrev int_text : ℕ → List ℕ
int_text x = prefix x ++ render 10 false (magnitude x)

formatted_int : (x : ℕ) → x < 2 ^ 32 → formatted (codes "%d") (word x ∷ []) ≡ done (int_text x)
unfolding walk parse_directive read_flags read_width skip_precision skip_digits read_lengths
    read_spec
formatted_int x lt = elim (Bool-cases (ltb x (2 ^ 31))) [
  | inl e ↦
      let low : x % 2 ^ 32 ≡ x = omega arith in
      let least : (x == 2 ^ 63) ≡ false = ground arith in
      let high : leb (2 ^ 63) x ≡ false = ground arith in
      let pad : ltb (length (render 10 false x)) 0 ≡ false = ground arith in
      rw (low, e, least, high, pad) (ap (λ t. done t) (append-nil (render 10 false x)))
  | inr e ↦
      let low : x % 2 ^ 32 ≡ x = omega arith in
      let long : ℕ = x + (2 ^ 64 - 2 ^ 32) in
      let least : (long == 2 ^ 63) ≡ false = ground arith in
      let high : leb (2 ^ 63) long ≡ true = ground arith in
      let minus : 2 ^ 64 - long ≡ 2 ^ 32 - x = omega arith in
      let pad : ltb (suc (length (render 10 false (2 ^ 32 - x)))) 0 ≡ false = ground arith in
      rw (low, e, least, high, minus, pad)
        (ap (λ t. done (b'-' ∷ t)) (append-nil (render 10 false (2 ^ 32 - x))))
]

read-CString :
    (m : Memory) (a : ℕ) (xs : List ℕ)
    → ((i : ℕ) → i < length xs → m (a + i) ≡ get_or xs i 0)
    → NonZero xs
    → m (a + length xs) ≡ 0
    → CString m a xs
read-CString m a [] same nz z = rw add-zero at z
read-CString m a (x ∷ xs) same nz z = (
  rw add-zero at (same 0 (omega arith)),
  nz.0,
  read-CString m (suc a) xs (λ i lt. ap m (omega arith) ∙ same (suc i) (omega arith)) nz.1
      (ap m (omega arith) ∙ z),
)

-- A text that fits and has no byte 0 is a string in the buffer.
terminated-CString :
    (m g : Memory) (str size : ℕ) (t : List ℕ)
    → NonZero t
    → length t < size
    → ((x : ℕ) → g x ≡ terminated m str size t x)
    → CString g str t
terminated-CString m g str size t nz lt same =
    let end : (if ltb (length t) (size - 1) then length t else size - 1) ≡ length t =
      ground arith in
    let at : (x : ℕ) → g x ≡ (if x == str + length t then 0 else cut m str (size - 1) t x) =
      λ x. same x ∙ ap (λ e. if x == str + e then 0 else cut m str (size - 1) t x) end in
    read-CString g str t (λ i li. at (str + i) ∙ inside i li) nz
      (at (str + length t) ∙ rw ==_self refl)
  where
    inside :
        (i : ℕ)
        → i < length t
        → (if str + i == str + length t then 0 else cut m str (size - 1) t (str + i)) ≡ get_or t i 0
    inside i li =
        let other : (str + i == str + length t) ≡ false = ground arith in
        let back : str + i - str ≡ i = omega arith in
        let here : (leb str (str + i) && (ltb i (length t) && ltb i (size - 1))) ≡ true =
          ground arith in
        rw (other, back, here) refl

int_text_small :
    (x : ℕ) → x < 2 ^ 32 → x ≢ 2 ^ 31 → (magnitude x < 2 ^ 31) × (length (int_text x) < 12)
int_text_small x lt ne =
    let small : magnitude x < 2 ^ 31 = ground arith in
    let digits = length-render_int (magnitude x) (omega arith) in
    (
      small,
      elim (Bool-cases (ltb x (2 ^ 31))) [
        | inl e ↦ rw e (omega (arith, rw e at digits))
        | inr e ↦ rw e (omega (arith, rw e at digits))
      ],
    )

int_text-NonZero : (x : ℕ) → NonZero (int_text x)
int_text-NonZero x =
    cases (ltb x (2 ^ 31)) (render 10 false (magnitude x))
      (AllDigits-NonZero (render 10 false (magnitude x)) (render-AllDigits (magnitude x)))
  where
    cases : (b : Bool) (ds : List ℕ) → NonZero ds → NonZero ((if b then [] else b'-' ∷ []) ++ ds)
    cases true ds nz = nz
    cases false ds nz = (omega arith, nz)

prefix-IsSign : (b : Bool) → IsSign (if b then [] else b'-' ∷ []) (not b)
prefix-IsSign true = refl
prefix-IsSign false = inl (refl, refl)

signed_value :
    (x : ℕ)
    → x < 2 ^ 32
    → (if not (ltb x (2 ^ 31)) then neg_ℤ (pos (magnitude x)) else pos (magnitude x)) ≡ signed 32 x
signed_value x lt = ground arith

atoi_int :
    (fuel s x : ℕ) (m : Memory)
    → CString m s (int_text x)
    → x < 2 ^ 32
    → x ≢ 2 ^ 31
    → 10 < fuel
    → atoi fuel s m ≡ some (signed 32 x)
atoi_int fuel s x m h lt ne enough =
    let (small, short) = int_text_small x lt ne in
    let (d, ds, e) = render_cons (magnitude x) (omega arith) in
    let neg = not (ltb x (2 ^ 31)) in
    let digits : AllDigits (d ∷ ds) = subst AllDigits e (render-AllDigits (magnitude x)) in
    let whole : value 0 (d ∷ ds) ≡ magnitude x =
      ap (value 0) (sym e) ∙ value-render (magnitude x) (omega arith) in
    let few : length (d ∷ ds) ≤ 10 =
      subst (λ xs. length xs ≤ 10) e (length-render_int (magnitude x) (omega arith)) in
    let text : CString m s (prefix x ++ ((d ∷ ds) ++ [])) =
      subst (λ xs. CString m s (prefix x ++ xs)) (e ∙ sym (append-nil (d ∷ ds))) h in
    atoi-value fuel s m [] (prefix x) neg d ds [] text tt (prefix-IsSign (ltb x (2 ^ 31))) digits tt
      (rw whole small) (omega arith)
    ∙ ap (λ v. some (if neg then neg_ℤ (pos v) else pos v)) whole
    ∙ ap some (signed_value x lt)

-- For each int but the least, by its 32-bit pattern, a buffer of at least 12 bytes at an address that
-- is not null, and fuel above 10: what snprintf with the format "%d" leaves in the buffer is read by
-- atoi as that int.
pub atoi-snprintf :
    (fuel str size x : ℕ) (m : Memory)
    → str ≢ null
    → 12 ≤ size
    → size < 2 ^ 64
    → x < 2 ^ 32
    → x ≢ 2 ^ 31
    → 10 < fuel
    → (r : ℕ) × (m' : Memory) × (snprintf str size (codes "%d") (word x ∷ []) m ≡ done (r, m'))
      × (atoi fuel str m' ≡ some (signed 32 x))
atoi-snprintf fuel str size x m there room fits lt ne enough =
    let t = int_text x in
    let (small, short) = int_text_small x lt ne in
    let (m', ran, same) =
      snprintf-terminated str size (codes "%d") (word x ∷ []) m t there (omega arith) fits
        (formatted_int x lt) (omega arith) in
    let text = terminated-CString m m' str size t (int_text-NonZero x) (omega arith) same in
    (length t % 2 ^ 32, m', ran, atoi_int fuel str x m' text lt ne enough)
