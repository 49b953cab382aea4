-- ===== src/Strings/Build/Result.antt =====
-- The strings that the builders of sdk/src/string.c leave in memory, and what they leave alone.
use mathlib.Core.Path.{subst}
use native.Mathlib.Nat.{add-suc, add-zero}
use axiome_toolchain.Base.{
  ℕ, zero, suc, ◌+◌, ◌≤◌, ◌<◌, ◌≡◌, refl, ◌⊎◌, inl, inr, ◌∙◌, List, [], ◌∷◌, ◌++◌, Option, some,
  arith, length, take, get_or, ◌==◌, Bool-cases,
}
use axiome_toolchain.Memory.{
  Memory, store, CString, CString-frame, CString-append, SameOutside, Apart,
}
use axiome_toolchain.Strings.Copy.Exact.{fill_in, fill_out}
use axiome_toolchain.Strings.Scan.Place.{strlen-length}
use axiome_toolchain.Strings.Build.{
  put_string, strcpy, strcat, strncpy_loop, strncpy, strncat_loop, strncat,
}

-- The call ends, returns `dst`, and leaves a memory with property `P`.
abbrev pub Returns : Option (ℕ × Memory) → ℕ → (Memory → Type 0) → Type 0
Returns call dst P = (g : Memory) × (call ≡ some (dst, g)) × P g

put_string_lem :
    (fuel d s : ℕ) (m : Memory) (xs : List ℕ)
    → CString m s xs
    → Apart d (length xs + 1) s (length xs + 1)
    → length xs < fuel
    → (g : Memory) × (put_string fuel d s m ≡ some g)
      × CString g d xs
      × SameOutside d (length xs + 1) m g
unfolding put_string
put_string_lem zero d s m xs h apart lt = absurd (omega arith)
put_string_lem (suc fuel) d s m [] h apart lt =
    (store m d (m s), rw h refl, ground arith, λ x out. ground arith)
put_string_lem (suc fuel) d s m (x ∷ xs) h apart lt =
    let m' : Memory = store m d (m s) in
    let kept = CString-frame m m' (suc s) xs (λ y lo hi. ground arith) h.2 in
    let (g, run, made, same) =
      put_string_lem fuel (suc d) (suc s) m' xs kept (ground arith) (omega arith) in
    (g, ground arith, (ground (arith, same d), h.1, made), λ y out. ground (arith, same y))

-- With fuel above the length, and the two places of `length + 1` bytes apart, strcpy ends, returns
-- `dst`, leaves the source's bytes and a terminator there, and changes no other byte.
pub strcpy-CString :
    (fuel dst src : ℕ) (m : Memory) (xs : List ℕ)
    → CString m src xs
    → Apart dst (length xs + 1) src (length xs + 1)
    → length xs < fuel
    → Returns
        (strcpy fuel dst src m)
        dst
        (λ g. CString g dst xs × SameOutside dst (length xs + 1) m g)
unfolding strcpy
strcpy-CString fuel dst src m xs h apart lt =
    let (g, run, made, same) = put_string_lem fuel dst src m xs h apart lt in
    (g, rw run refl, (made, same))

-- With fuel above both lengths, and the place behind the target string apart from the source,
-- strcat ends, returns `dst`, leaves the target's bytes followed by the source's there, and changes
-- only the bytes from the old terminator on.
pub strcat-append :
    (fuel dst src : ℕ) (m : Memory) (ys xs : List ℕ)
    → CString m dst ys
    → CString m src xs
    → Apart (dst + length ys) (length xs + 1) src (length xs + 1)
    → length ys + length xs < fuel
    → Returns
        (strcat fuel dst src m)
        dst
        (λ g. CString g dst (ys ++ xs) × SameOutside (dst + length ys) (length xs + 1) m g)
unfolding strcat
strcat-append fuel dst src m ys xs hy hx apart lt =
    let (g, run, made, same) =
      put_string_lem fuel (dst + length ys) src m xs hx apart (omega arith) in
    let joined = CString-append m g dst ys xs hy (λ x lo hi. same x (omega arith)) made in
    (g, rw (strlen-length fuel dst m ys hy (omega arith), run) refl, (joined, same))

strncpy_loop_out :
    (left i d s : ℕ) (m : Memory) (x : ℕ)
    → (x < d + i) ⊎ (d + (i + left) ≤ x)
    → strncpy_loop left i d s m x ≡ m x
unfolding strncpy_loop
strncpy_loop_out zero i d s m x out = refl
strncpy_loop_out (suc left) i d s m x out = elim (Bool-cases (m (s + i) == 0)) [
  | inl e ↦ rw e (fill_out (suc left) i d 0 m x out)
  | inr e ↦ rw e (
      strncpy_loop_out left (suc i) d s (store m (d + i) (m (s + i))) x (omega arith)
      ∙ ground arith)
]

strncpy_loop_in :
    (left i d s : ℕ) (m : Memory) (xs : List ℕ) (j a : ℕ)
    → CString m (s + i) xs
    → Apart (d + i) left (s + i) (length xs + 1)
    → j < left
    → a ≡ d + (i + j)
    → strncpy_loop left i d s m a ≡ get_or xs j 0
unfolding strncpy_loop
strncpy_loop_in zero i d s m xs j a h apart lt e = absurd (omega arith)
strncpy_loop_in (suc left) i d s m [] j a h apart lt e =
    rw (h, e) (fill_in (suc left) i d 0 m (i + j) (omega arith) (omega arith))
strncpy_loop_in (suc left) i d s m (x ∷ xs) zero a h apart lt e =
    ground (arith, strncpy_loop_out left (suc i) d s (store m (d + i) (m (s + i))) a)
strncpy_loop_in (suc left) i d s m (x ∷ xs) (suc j) a h apart lt e =
    let m' : Memory = store m (d + i) (m (s + i)) in
    let next : CString m (s + suc i) xs = rw add-suc h.2 in
    let kept = CString-frame m m' (s + suc i) xs (λ y lo hi. ground arith) next in
    let rest = strncpy_loop_in left (suc i) d s m' xs j a kept (ground arith) in
    ground (arith, rest)

-- With the target's `n` bytes apart from the source string, strncpy returns `dst`, writes the first
-- `n` bytes of the string there, with 0 for those past its end, and changes no other byte. So the
-- result has a terminator only if the string is shorter than `n`.
pub strncpy-padded :
    (dst src n : ℕ) (m : Memory) (xs : List ℕ)
    → CString m src xs
    → Apart dst n src (length xs + 1)
    → ((strncpy dst src n m).0 ≡ dst)
      × ((j : ℕ) → j < n → (strncpy dst src n m).1 (dst + j) ≡ get_or xs j 0)
      × SameOutside dst n m (strncpy dst src n m).1
unfolding strncpy
strncpy-padded dst src n m xs h apart = (
  refl,
  λ j lt.
      strncpy_loop_in n 0 dst src m xs j (dst + j) (rw add-zero h) (ground arith) lt (omega arith),
  λ x out. strncpy_loop_out n 0 dst src m x (outside x out),
)
  where
    outside : (x : ℕ) → ¬ ((dst ≤ x) × (x < dst + n)) → (x < dst + 0) ⊎ (dst + (0 + n) ≤ x)
    outside x out = ground arith

strncat_loop_lem :
    (left i d s : ℕ) (m : Memory) (xs : List ℕ)
    → CString m (s + i) xs
    → Apart (d + i) (length xs + 1) (s + i) (length xs + 1)
    → CString (strncat_loop left i d s m) (d + i) (take left xs)
      × SameOutside (d + i) (length (take left xs) + 1) m (strncat_loop left i d s m)
unfolding strncat_loop
strncat_loop_lem zero i d s m xs h apart = (ground arith, λ x out. ground arith)
strncat_loop_lem (suc left) i d s m [] h apart = rw h (ground arith, λ x out. ground arith)
strncat_loop_lem (suc left) i d s m (x ∷ xs) h apart =
    let m' : Memory = store m (d + i) (m (s + i)) in
    let next : CString m (s + suc i) xs = rw add-suc h.2 in
    let kept = CString-frame m m' (s + suc i) xs (λ y lo hi. ground arith) next in
    let (made, same) = strncat_loop_lem left (suc i) d s m' xs kept (ground arith) in
    let step : strncat_loop left (suc i) d s m' ≡ strncat_loop (suc left) i d s m = ground arith in
    let made' : CString (strncat_loop left (suc i) d s m') (suc (d + i)) (take left xs) =
      subst (λ a. CString (strncat_loop left (suc i) d s m') a (take left xs)) (omega arith) made in
    subst
      (λ (g : Memory).
        CString g (d + i) (x ∷ take left xs)
        × SameOutside (d + i) (length (x ∷ take left xs) + 1) m g)
      step ((ground (arith, same (d + i)), h.1, made'), λ y out. ground (arith, same y))

-- With fuel above the target's length, and the place behind the target string apart from the
-- source, strncat ends, returns `dst`, leaves there the target's bytes followed by at most `n` of
-- the source's, always terminated, and changes only the bytes from the old terminator on.
pub strncat-append :
    (fuel dst src n : ℕ) (m : Memory) (ys xs : List ℕ)
    → CString m dst ys
    → CString m src xs
    → Apart (dst + length ys) (length xs + 1) src (length xs + 1)
    → length ys < fuel
    → Returns (strncat fuel dst src n m) dst (λ g.
      CString g dst (ys ++ take n xs) × SameOutside (dst + length ys) (length (take n xs) + 1) m g)
unfolding strncat
strncat-append fuel dst src n m ys xs hy hx apart lt =
    let at = dst + length ys in
    let (made, same) = strncat_loop_lem n 0 at src m xs (rw add-zero hx) (ground arith) in
    let g = strncat_loop n 0 at src m in
    let made' : CString g at (take n xs) =
      subst (λ a. CString g a (take n xs)) (add-zero at) made in
    (
      g,
      rw (strlen-length fuel dst m ys hy lt) refl,
      (
        CString-append m g dst ys (take n xs) hy (λ x lo hi. same x (omega arith)) made',
        λ x out. same x (omega arith),
      ),
    )
