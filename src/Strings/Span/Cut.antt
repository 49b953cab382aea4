-- ===== src/Strings/Span/Cut.antt =====
-- Where the set scans of sdk/src/string.c cut a string.
use native.Mathlib.Nat.{add-suc, add-zero}
use axiome_toolchain.Base.{
  ℕ, zero, suc, ◌+◌, ◌<◌, ◌≡◌, refl, ap, ◌⊎◌, inl, inr, List, [], ◌∷◌, ◌++◌, some, Bool, true,
  false, not, ◌||◌, arith, length, All, ◌==◌, Bool-cases,
}
use axiome_toolchain.Memory.{Memory, null, CString}
use axiome_toolchain.Strings.Span.{found, span_loop, strspn, strcspn, strpbrk_loop, strpbrk}

-- Is `c` one of `set`?
abbrev pub elem : ℕ → List ℕ → Bool
elem c [] = false
elem c (x ∷ xs) = (c == x) || elem c xs

found-elem :
    (fuel c r : ℕ) (m : Memory) (set : List ℕ)
    → CString m r set
    → length set < fuel
    → found fuel c r m ≡ some (elem c set)
unfolding found
found-elem zero c r m set h lt = absurd (omega arith)
found-elem (suc fuel) c r m [] h lt = rw h refl
found-elem (suc fuel) c r m (x ∷ set) h lt =
    rw h.0 (ground (arith, found-elem fuel c (suc r) m set h.2))

-- The rest of the string is empty or begins with a byte whose membership is `b`.
abbrev pub StopsAt : Bool → List ℕ → List ℕ → Type 0
StopsAt b set [] = Unit {0}
StopsAt b set (z ∷ zs) = elem z set ≡ b

-- `i` is the length of the longest front of `xs` whose bytes all have membership `b` in `set`.
abbrev pub FrontLength : Bool → List ℕ → List ℕ → ℕ → Type 0
FrontLength b set xs i =
    (ys : List ℕ) × (zs : List ℕ) × (xs ≡ ys ++ zs)
    × All (λ x. elem x set ≡ b) ys
    × StopsAt (not b) set zs
    × (i ≡ length ys)

FrontLength-cons :
    (b : Bool) (set : List ℕ) (x : ℕ) (xs : List ℕ) (i : ℕ)
    → elem x set ≡ b
    → FrontLength b set xs i
    → FrontLength b set (x ∷ xs) (suc i)
FrontLength-cons b set x xs i e (ys, zs, cut, all, stop, len) =
    (x ∷ ys, zs, ap (◌∷◌ x) cut, (e, all), stop, omega arith)

span_step :
    (stop : Bool) (fuel inner i s set : ℕ) (m : Memory) (b : Bool)
    → found inner (m (s + i)) set m ≡ some b
    → (m (s + i) == 0) ≡ false
    → b ≡ not stop
    → span_loop stop (suc fuel) inner i s set m ≡ span_loop stop fuel inner (suc i) s set m
unfolding span_loop
span_step true fuel inner i s set m b e z h = rw (z, e, h) refl
span_step false fuel inner i s set m b e z h = rw (z, e, h) refl

span_leave :
    (stop : Bool) (fuel inner i s set : ℕ) (m : Memory) (b : Bool)
    → found inner (m (s + i)) set m ≡ some b
    → (m (s + i) == 0) ≡ false
    → b ≡ stop
    → span_loop stop (suc fuel) inner i s set m ≡ some i
unfolding span_loop
span_leave true fuel inner i s set m b e z h = rw (z, e, h) refl
span_leave false fuel inner i s set m b e z h = rw (z, e, h) refl

span_end :
    (stop : Bool) (fuel inner i s set : ℕ) (m : Memory)
    → m (s + i) ≡ 0
    → span_loop stop (suc fuel) inner i s set m ≡ some i
unfolding span_loop
span_end true fuel inner i s set m z = rw z refl
span_end false fuel inner i s set m z = rw z refl

eq_or_not : (b stop : Bool) → (b ≡ stop) ⊎ (b ≡ not stop)
eq_or_not b stop = ground arith

not-not : (b : Bool) → not (not b) ≡ b
not-not b = ground arith

span_loop_lem :
    (stop : Bool) (fuel inner i s a : ℕ) (m : Memory) (xs set : List ℕ)
    → CString m (s + i) xs
    → CString m a set
    → length xs < fuel
    → length set < inner
    → (n : ℕ) × (span_loop stop fuel inner i s a m ≡ some (i + n)) × FrontLength (not stop) set xs n
span_loop_lem stop zero inner i s a m xs set h hs lt ls = absurd (omega arith)
span_loop_lem stop (suc fuel) inner i s a m [] set h hs lt ls =
    (0, rw add-zero (span_end stop fuel inner i s a m h), ([], [], refl, tt, tt, refl))
span_loop_lem stop (suc fuel) inner i s a m (x ∷ xs) set h hs lt ls =
    let z : (m (s + i) == 0) ≡ false = ground arith in
    let seen : found inner (m (s + i)) a m ≡ some (elem x set) =
      rw h.0 (found-elem inner x a m set hs ls) in
    elim (eq_or_not (elem x set) stop) [
      | inl e ↦ (
        0,
        rw add-zero (span_leave stop fuel inner i s a m (elem x set) seen z e),
        ([], x ∷ xs, refl, tt, rw not-not e, refl),
      )
      | inr e ↦
          let next : CString m (s + suc i) xs = rw add-suc h.2 in
          let (n, run, front) =
            span_loop_lem stop fuel inner (suc i) s a m xs set next hs (omega arith) ls in
          (
            suc n,
            rw (span_step stop fuel inner i s a m (elem x set) seen z e, run) (ground arith),
            FrontLength-cons (not stop) set x xs n e front,
          )
    ]

module _ (fuel s a : ℕ) (m : Memory) (xs set : List ℕ) (string : CString m s xs)
    (bytes : CString m a set) (enough : length xs + length set < fuel) where
  -- With fuel above the two lengths, strspn ends with the length of the longest front of the
  -- string made of bytes of `accept`.
  pub strspn-FrontLength : (n : ℕ) × (strspn fuel s a m ≡ some n) × FrontLength true set xs n
  unfolding strspn
  strspn-FrontLength =
      let (n, run, front) =
        span_loop_lem false fuel fuel 0 s a m xs set (rw add-zero string) bytes (omega arith)
          (omega arith) in
      (n, rw run (ground arith), front)

  -- With fuel above the two lengths, strcspn ends with the length of the longest front of the
  -- string free of the bytes of `reject`.
  pub strcspn-FrontLength : (n : ℕ) × (strcspn fuel s a m ≡ some n) × FrontLength false set xs n
  unfolding strcspn
  strcspn-FrontLength =
      let (n, run, front) =
        span_loop_lem true fuel fuel 0 s a m xs set (rw add-zero string) bytes (omega arith)
          (omega arith) in
      (n, rw run (ground arith), front)

-- What strpbrk answers for the bytes `xs` at `s`: the address of the first that is in `set`, or the
-- null pointer when none is.
abbrev pub FirstIn : List ℕ → List ℕ → ℕ → ℕ → Type 0
FirstIn set xs s r =
    ((ys : List ℕ) × (z : ℕ) × (zs : List ℕ) × (xs ≡ ys ++ z ∷ zs)
      × All (λ x. elem x set ≡ false) ys
      × (elem z set ≡ true)
      × (r ≡ s + length ys))
    ⊎ (All (λ x. elem x set ≡ false) xs × (r ≡ null))

FirstIn-cons :
    (set : List ℕ) (x : ℕ) (xs : List ℕ) (s r : ℕ)
    → elem x set ≡ false
    → FirstIn set xs (suc s) r
    → FirstIn set (x ∷ xs) s r
FirstIn-cons set x xs s r e (inl (ys, z, zs, cut, out, hit, at)) =
    inl (x ∷ ys, z, zs, ap (◌∷◌ x) cut, (e, out), hit, omega arith)
FirstIn-cons set x xs s r e (inr (out, at)) = inr ((e, out), at)

strpbrk_loop-FirstIn :
    (fuel inner s a : ℕ) (m : Memory) (xs set : List ℕ)
    → CString m s xs
    → CString m a set
    → length xs < fuel
    → length set < inner
    → (r : ℕ) × (strpbrk_loop fuel inner s a m ≡ some r) × FirstIn set xs s r
unfolding strpbrk_loop
strpbrk_loop-FirstIn zero inner s a m xs set h hs lt ls = absurd (omega arith)
strpbrk_loop-FirstIn (suc fuel) inner s a m [] set h hs lt ls = (null, rw h refl, inr (tt, refl))
strpbrk_loop-FirstIn (suc fuel) inner s a m (x ∷ xs) set h hs lt ls =
    let z : (m s == 0) ≡ false = ground arith in
    let seen : found inner (m s) a m ≡ some (elem x set) =
      rw h.0 (found-elem inner x a m set hs ls) in
    elim (Bool-cases (elem x set)) [
      | inl e ↦ (s, rw (z, seen, e) refl, inl ([], x, xs, refl, tt, e, omega arith))
      | inr e ↦
          let (r, run, place) =
            strpbrk_loop-FirstIn fuel inner (suc s) a m xs set h.2 hs (omega arith) ls in
          (r, rw (z, seen, e) run, FirstIn-cons set x xs s r e place)
    ]

-- With fuel above the two lengths, strpbrk ends with the address of the first byte of the string
-- that is in `accept`, or with the null pointer when there is none.
pub strpbrk-FirstIn :
    (fuel s a : ℕ) (m : Memory) (xs set : List ℕ)
    → CString m s xs
    → CString m a set
    → length xs + length set < fuel
    → (r : ℕ) × (strpbrk fuel s a m ≡ some r) × FirstIn set xs s r
unfolding strpbrk
strpbrk-FirstIn fuel s a m xs set h hs lt =
    strpbrk_loop-FirstIn fuel fuel s a m xs set h hs (omega arith) (omega arith)
