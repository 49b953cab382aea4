-- ===== src/Strings/Token/Sequence.antt =====
-- What a run of strtok calls yields: the maximal delimiter-free pieces of the string, in order.
use mathlib.Core.Path.{subst}
use axiome_toolchain.Base.{
  ℕ, zero, suc, ◌+◌, ◌≤◌, ◌<◌, ◌≡◌, refl, sym, ap, ◌∙◌, ◌≢◌, ◌⊎◌, inl, inr, List, [], ◌∷◌, ◌++◌,
  some, Option, true, false, arith, length, length-append, All, ◌==◌, if◌then◌else◌, append-nil,
  append_assoc,
}
use axiome_toolchain.Memory.{
  Memory, null, store, CString, CString-frame, CString-drop, CString-cut, Apart,
}
use axiome_toolchain.Strings.Span.{strspn, strcspn}
use axiome_toolchain.Strings.Span.Cut.{elem, StopsAt, strspn-FrontLength, strcspn-FrontLength}
use axiome_toolchain.Strings.Token.{end_token, next_token, strtok}

-- The piece read so far, as a list of pieces: an empty one is dropped.
abbrev pub piece : List ℕ → List (List ℕ)
piece [] = []
piece (c ∷ cs) = (c ∷ cs) ∷ []

-- The pieces of `xs` between delimiters, `cur` being read.
abbrev pub tokens_from : List ℕ → List ℕ → List ℕ → List (List ℕ)
tokens_from set cur [] = piece cur
tokens_from set cur (x ∷ xs) =
    if elem x set then piece cur ++ tokens_from set [] xs else tokens_from set (cur ++ x ∷ []) xs

abbrev pub tokens : List ℕ → List ℕ → List (List ℕ)
tokens set xs = tokens_from set [] xs

tokens_skip :
    (set ds zs : List ℕ) → All (λ x. elem x set ≡ true) ds → tokens set (ds ++ zs) ≡ tokens set zs
tokens_skip set [] zs all = refl
tokens_skip set (d ∷ ds) zs all = rw all.0 (tokens_skip set ds zs all.1)

tokens_take :
    (set cur us zs : List ℕ)
    → All (λ x. elem x set ≡ false) us
    → tokens_from set cur (us ++ zs) ≡ tokens_from set (cur ++ us) zs
tokens_take set cur [] zs all = rw append-nil refl
tokens_take set cur (u ∷ us) zs all =
    rw all.0 (tokens_take set (cur ++ u ∷ []) us zs all.1 ∙ rw append_assoc refl)

-- The calls `strtok(str, delim)`, `strtok(NULL, delim)`, ... from `saveptr` and `m` on return the
-- strings `ts`, each as it stands in memory when its call returns, and then the null pointer.
abbrev pub Yields : ℕ → ℕ → ℕ → ℕ → Memory → List (List ℕ) → Type 0
Yields fuel delim str saveptr m [] =
    (g : Memory) × (strtok fuel str delim saveptr m ≡ some (null, null, g))
Yields fuel delim str saveptr m (t ∷ ts) =
    (token : ℕ) × (saved : ℕ) × (g : Memory) × (strtok fuel str delim saveptr m
      ≡ some (token, saved, g))
    × (token ≢ null)
    × CString g token t
    × Yields fuel delim null saved g ts

-- A call with `str` null goes on at the saved pointer, as one with that pointer for `str`.
strtok-resume :
    (fuel p delim saveptr : ℕ) (m : Memory)
    → p ≢ null
    → (strtok fuel p delim saveptr m ≡ next_token fuel p delim m)
      × (strtok fuel null delim p m ≡ next_token fuel p delim m)
unfolding strtok
strtok-resume fuel p delim saveptr m ne = (ground arith, ground arith)

strtok-null : (fuel delim : ℕ) (m : Memory) → strtok fuel null delim null m ≡ some (null, null, m)
unfolding strtok
strtok-null fuel delim m = refl

end_token-some :
    (fuel q d k : ℕ) (m : Memory)
    → strcspn fuel q d m ≡ some k
    → end_token fuel q d m
      ≡ (if m (q + k) == 0 then some (q, null, m) else some (q, suc (q + k), store m (q + k) 0))
unfolding end_token
end_token-some fuel q d k m e = rw e refl

next_token-some :
    (fuel p d n : ℕ) (m : Memory)
    → strspn fuel p d m ≡ some n
    → next_token fuel p d m
      ≡ (if m (p + n) == 0 then some (null, null, m) else end_token fuel (p + n) d m)
unfolding next_token
next_token-some fuel p d n m e = rw e refl

-- What a call leaves from its token `t` on, at `q`: no rest, or the rest `ws` behind a 0 written to
-- its delimiter at `e`. `call` is the value of the call.
abbrev Cut : ℕ → Memory → List ℕ → List ℕ → Option (ℕ × ℕ × Memory) → Type 0
Cut q m set xs call =
    ((t : List ℕ) × (tokens set xs ≡ t ∷ []) × (call ≡ some (q, null, m)) × CString m q t)
    ⊎ ((t : List ℕ) × (ws : List ℕ) × (e : ℕ) × (tokens set xs ≡ t ∷ tokens set ws)
        × (call ≡ some (q, suc e, store m e 0))
        × CString (store m e 0) q t
        × CString (store m e 0) (suc e) ws
        × (q ≤ e)
        × (e + suc (length ws) ≡ q + length xs))

end_token-Cut :
    (fuel q d : ℕ) (m : Memory) (u : ℕ) (us ws set : List ℕ)
    → CString m q ((u ∷ us) ++ ws)
    → All (λ x. elem x set ≡ false) (u ∷ us)
    → StopsAt true set ws
    → strcspn fuel q d m ≡ some (length (u ∷ us))
    → Cut q m set ((u ∷ us) ++ ws) (end_token fuel q d m)
end_token-Cut fuel q d m u us [] set h all stop run =
    let z : m (q + length (u ∷ us)) ≡ 0 = CString-drop m q (u ∷ us) [] h in
    inl (
      u ∷ us,
      tokens_take set [] (u ∷ us) [] all,
      rw (end_token-some fuel q d _ m run, z) refl,
      CString-cut m m q (u ∷ us) [] h (λ x lo hi. refl) z,
    )
end_token-Cut fuel q d m u us (w ∷ ws) set h all stop run =
    let e = q + length (u ∷ us) in
    let tail : CString m e (w ∷ ws) = CString-drop m q (u ∷ us) (w ∷ ws) h in
    let nz : (m e == 0) ≡ false = ground arith in
    inr (
      u ∷ us,
      ws,
      e,
      tokens_take set [] (u ∷ us) (w ∷ ws) all ∙ rw stop refl,
      rw (end_token-some fuel q d _ m run, nz) refl,
      CString-cut m (store m e 0) q (u ∷ us) (w ∷ ws) h (λ x lo hi. ground arith) (ground arith),
      CString-frame m (store m e 0) (suc e) ws (λ x lo hi. ground arith) tail.2,
      omega arith,
      omega (arith, length-append {0} (u ∷ us) (w ∷ ws)),
    )

token-Cut :
    (fuel q d : ℕ) (m : Memory) (z : ℕ) (zs set : List ℕ)
    → CString m q (z ∷ zs)
    → CString m d set
    → length (z ∷ zs) + length set < fuel
    → elem z set ≡ false
    → Cut q m set (z ∷ zs) (end_token fuel q d m)
token-Cut fuel q d m z zs set h hs lt out =
    let (k, run, (us, ws, cut, all, stop, len)) =
      strcspn-FrontLength fuel q d m (z ∷ zs) set h hs lt in
    go k us ws cut all stop len run
  where
    go :
        (k : ℕ) (us ws : List ℕ)
        → z ∷ zs ≡ us ++ ws
        → All (λ x. elem x set ≡ false) us
        → StopsAt true set ws
        → k ≡ length us
        → strcspn fuel q d m ≡ some k
        → Cut q m set (z ∷ zs) (end_token fuel q d m)
    go k [] [] cut all stop len run = absurd (cc)
    go k [] (w ∷ ws) cut all stop len run = absurd (ground arith)
    go k (u ∷ us) ws cut all stop len run =
        subst (λ v. Cut q m set v (end_token fuel q d m)) (sym cut)
          (end_token-Cut fuel q d m u us ws set (subst (CString m q) cut h) all stop
            (run ∙ ap some len))

-- One call from the rest `xs` of the string at `p`: no token is left, or it cuts one at some `q`.
next_token-Cut :
    (fuel p d : ℕ) (m : Memory) (xs set : List ℕ)
    → CString m p xs
    → CString m d set
    → length xs + length set < fuel
    → ((tokens set xs ≡ []) × (next_token fuel p d m ≡ some (null, null, m)))
      ⊎ ((n : ℕ) × (zs : List ℕ) × (tokens set xs ≡ tokens set zs)
          × (n + length zs ≡ length xs)
          × Cut (p + n) m set zs (next_token fuel p d m))
next_token-Cut fuel p d m xs set h hs lt =
    let (n, run, (ys, zs, cut, all, stop, len)) = strspn-FrontLength fuel p d m xs set h hs lt in
    go n ys zs cut all stop len run
  where
    go :
        (n : ℕ) (ys zs : List ℕ)
        → xs ≡ ys ++ zs
        → All (λ x. elem x set ≡ true) ys
        → StopsAt false set zs
        → n ≡ length ys
        → strspn fuel p d m ≡ some n
        → ((tokens set xs ≡ []) × (next_token fuel p d m ≡ some (null, null, m)))
          ⊎ ((n : ℕ) × (zs : List ℕ) × (tokens set xs ≡ tokens set zs)
              × (n + length zs ≡ length xs)
              × Cut (p + n) m set zs (next_token fuel p d m))
    go n ys [] cut all stop len run =
        let z : m (p + n) ≡ 0 = rw len (CString-drop m p ys [] (rw cut at h)) in
        inl (rw cut (tokens_skip set ys [] all), rw (next_token-some fuel p d n m run, z) refl)
    go n ys (z ∷ zs) cut all stop len run =
        let tail : CString m (p + n) (z ∷ zs) =
          rw len (CString-drop m p ys (z ∷ zs) (rw cut at h)) in
        let nz : (m (p + n) == 0) ≡ false = ground arith in
        let size : n + length (z ∷ zs) ≡ length xs =
          omega (arith, length-append {0} ys (z ∷ zs), ap length cut) in
        inr (
          n,
          z ∷ zs,
          rw cut (tokens_skip set ys (z ∷ zs) all),
          size,
          rw (next_token-some fuel p d n m run, nz)
              (token-Cut fuel (p + n) d m z zs set tail hs (omega arith) stop),
        )

store_frame :
    (m : Memory) (c d : ℕ) (set : List ℕ)
    → (c < d) ⊎ (d + length set < c)
    → CString m d set
    → CString (store m c 0) d set
store_frame m c d set out hs = CString-frame m (store m c 0) d set (λ x lo hi. ground arith) hs

-- The rest of the calls, from a saved pointer `p` on; `bound` bounds what is left of the string.
Yields-rest :
    (bound fuel p d str saveptr : ℕ) (m : Memory) (xs set : List ℕ)
    → strtok fuel str d saveptr m ≡ next_token fuel p d m
    → p ≢ null
    → CString m p xs
    → CString m d set
    → Apart p (length xs + 1) d (length set + 1)
    → length xs + length set < fuel
    → length xs < bound
    → Yields fuel d str saveptr m (tokens set xs)
Yields-rest zero fuel p d str saveptr m xs set call ne h hs apart lt lb = absurd (omega arith)
Yields-rest (suc bound) fuel p d str saveptr m xs set call ne h hs apart lt lb =
    elim (next_token-Cut fuel p d m xs set h hs lt) [
      | inl (e, run) ↦ subst (Yields fuel d str saveptr m) (sym e) (m, call ∙ run)
      | inr (n, zs, e, size, inl (t, e', run, made)) ↦
          subst (Yields fuel d str saveptr m) (sym (e ∙ e'))
            (p + n, null, m, call ∙ run, omega arith, made, (m, strtok-null fuel d m))
      | inr (n, zs, e, size, inr (t, ws, c, e', run, made, rest, lo, len)) ↦
          subst (Yields fuel d str saveptr m) (sym (e ∙ e')) (
            p + n,
            suc c,
            store m c 0,
            call ∙ run,
            omega arith,
            made,
            Yields-rest bound fuel (suc c) d null (suc c) (store m c 0) ws set
                (strtok-resume fuel (suc c) d (suc c) (store m c 0) (omega arith)).1 (omega arith)
                rest (store_frame m c d set (omega arith) hs) (omega arith) (omega arith)
                (omega arith),
          )
    ]

-- With fuel above the two lengths, a string that is not at the null pointer, and the delimiters'
-- string apart from it, a call `strtok(str, delim)` and calls `strtok(NULL, delim)` after it
-- return, one after the other, the pieces of the string between delimiters, empty ones left out,
-- and then the null pointer, whatever pointer an earlier use had saved.
pub strtok-tokens :
    (fuel str delim saveptr : ℕ) (m : Memory) (xs set : List ℕ)
    → str ≢ null
    → CString m str xs
    → CString m delim set
    → Apart str (length xs + 1) delim (length set + 1)
    → length xs + length set < fuel
    → Yields fuel delim str saveptr m (tokens set xs)
strtok-tokens fuel str delim saveptr m xs set ne h hs apart lt =
    Yields-rest (suc (length xs)) fuel str delim str saveptr m xs set
      (strtok-resume fuel str delim saveptr m ne).0 ne h hs apart lt (omega arith)
