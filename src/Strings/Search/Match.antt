-- ===== src/Strings/Search/Match.antt =====
-- The place that strstr of sdk/src/string.c finds.
use axiome_toolchain.Base.{
  ℕ, zero, suc, ◌+◌, ◌≤◌, ◌<◌, ◌≡◌, refl, ◌⊎◌, inl, inr, List, [], ◌∷◌, some, Bool, true, false,
  ◌&&◌, arith, length, drop, ◌==◌, Bool-cases,
}
use axiome_toolchain.Memory.{Memory, null, CString}
use axiome_toolchain.Strings.Search.{walk, strstr_loop, strstr}

-- Does `xs` begin with `ys`?
abbrev pub begins_with : List ℕ → List ℕ → Bool
begins_with [] xs = true
begins_with (y ∷ ys) [] = false
begins_with (y ∷ ys) (x ∷ xs) = (x == y) && begins_with ys xs

walk-begins_with :
    (fuel hn n : ℕ) (m : Memory) (xs ys : List ℕ)
    → CString m hn xs
    → CString m n ys
    → length xs < fuel
    → (r : ℕ) × (walk fuel hn n m ≡ some r) × ((m r == 0) ≡ begins_with ys xs)
unfolding walk
walk-begins_with zero hn n m xs ys hx hy lt = absurd (omega arith)
walk-begins_with (suc fuel) hn n m [] [] hx hy lt = (n, ground arith, ground arith)
walk-begins_with (suc fuel) hn n m [] (y ∷ ys) hx hy lt = (n, ground arith, ground arith)
walk-begins_with (suc fuel) hn n m (x ∷ xs) [] hx hy lt = (n, ground arith, ground arith)
walk-begins_with (suc fuel) hn n m (x ∷ xs) (y ∷ ys) hx hy lt =
    let (r, run, hit) = walk-begins_with fuel (suc hn) (suc n) m xs ys hx.2 hy.2 (omega arith) in
    elim (Bool-cases (x == y)) [
      | inl e ↦ (r, ground arith, rw e hit)
      | inr e ↦ (n, ground arith, rw e (ground arith))
    ]

-- What strstr answers for the bytes `xs` at `s`: the first place from which they begin with the
-- needle `ys`, or the null pointer when they do so nowhere.
abbrev pub FirstMatch : List ℕ → List ℕ → ℕ → ℕ → Type 0
FirstMatch ys xs s r =
    ((k : ℕ) × (k ≤ length xs)
      × (begins_with ys (drop k xs) ≡ true)
      × ((j : ℕ) → j < k → begins_with ys (drop j xs) ≡ false)
      × (r ≡ s + k))
    ⊎ (((j : ℕ) → begins_with ys (drop j xs) ≡ false) × (r ≡ null))

FirstMatch-cons :
    (ys : List ℕ) (x : ℕ) (xs : List ℕ) (s r : ℕ)
    → begins_with ys (x ∷ xs) ≡ false
    → FirstMatch ys xs (suc s) r
    → FirstMatch ys (x ∷ xs) s r
FirstMatch-cons ys x xs s r e (inl (k, le, hit, before, at)) =
    inl (suc k, omega arith, hit, earlier, omega arith)
  where
    earlier : (j : ℕ) → j < suc k → begins_with ys (drop j (x ∷ xs)) ≡ false
    earlier zero lt = e
    earlier (suc j) lt = before j (omega arith)
FirstMatch-cons ys x xs s r e (inr (none_hit, at)) = inr (nowhere, at)
  where
    nowhere : (j : ℕ) → begins_with ys (drop j (x ∷ xs)) ≡ false
    nowhere zero = e
    nowhere (suc j) = none_hit j

drop-nil : (j : ℕ) → drop {A = ℕ} j [] ≡ []
drop-nil zero = refl
drop-nil (suc j) = refl

strstr_loop-FirstMatch :
    (fuel inner h n y : ℕ) (m : Memory) (xs ys : List ℕ)
    → CString m h xs
    → CString m n (y ∷ ys)
    → length xs < fuel
    → length xs < inner
    → (r : ℕ) × (strstr_loop fuel inner h n m ≡ some r) × FirstMatch (y ∷ ys) xs h r
unfolding strstr_loop
strstr_loop-FirstMatch zero inner h n y m xs ys hx hy lt li = absurd (omega arith)
strstr_loop-FirstMatch (suc fuel) inner h n y m [] ys hx hy lt li =
    (null, rw hx refl, inr (λ j. rw drop-nil refl, refl))
strstr_loop-FirstMatch (suc fuel) inner h n y m (x ∷ xs) ys hx hy lt li =
    let z : (m h == 0) ≡ false = ground arith in
    let (r, run, hit) = walk-begins_with inner h n m (x ∷ xs) (y ∷ ys) hx hy li in
    elim (Bool-cases (begins_with (y ∷ ys) (x ∷ xs))) [
      | inl e ↦ (
        h,
        rw (z, run, hit, e) refl,
        inl (0, omega arith, e, λ j l. absurd (omega arith), omega arith),
      )
      | inr e ↦
          let (q, later, place) =
            strstr_loop-FirstMatch fuel inner (suc h) n y m xs ys hx.2 hy (omega arith)
              (omega arith) in
          (q, rw (z, run, hit, e) later, FirstMatch-cons (y ∷ ys) x xs h q e place)
    ]

-- With fuel above the haystack's length, strstr ends with the address of the first place from which
-- the haystack begins with the needle, or with the null pointer when there is no such place.
pub strstr-FirstMatch :
    (fuel s n : ℕ) (m : Memory) (xs ys : List ℕ)
    → CString m s xs
    → CString m n ys
    → length xs < fuel
    → (r : ℕ) × (strstr fuel s n m ≡ some r) × FirstMatch ys xs s r
unfolding strstr
strstr-FirstMatch fuel s n m xs [] hx hy lt =
    (s, rw hy refl, inl (0, omega arith, refl, λ j l. absurd (omega arith), omega arith))
strstr-FirstMatch fuel s n m xs (y ∷ ys) hx hy lt =
    let z : (m n == 0) ≡ false = ground arith in
    let (r, run, place) = strstr_loop-FirstMatch fuel fuel s n y m xs ys hx hy lt lt in
    (r, rw z run, place)
