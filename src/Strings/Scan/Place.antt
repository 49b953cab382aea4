-- ===== src/Strings/Scan/Place.antt =====
-- Where the single-character scans of sdk/src/string.c stop.
use native.Mathlib.Nat.{add-suc, add-zero}
use axiome_toolchain.Base.{
  ℕ, zero, suc, ◌+◌, ◌%◌, ◌≤◌, ◌<◌, ◌≡◌, refl, ap, ◌≢◌, ◌⊎◌, inl, inr, List, [], ◌∷◌, ◌++◌, some,
  arith, length, ◌==◌, if◌then◌else◌, Bool-cases,
}
use axiome_toolchain.Memory.{Memory, null, CString, Absent}
use axiome_toolchain.Strings.Scan.{
  strlen_loop, strlen, memchr_loop, memchr, strchr, strrchr_loop, strrchr,
}

strlen_loop_lem :
    (fuel i s : ℕ) (m : Memory) (xs : List ℕ)
    → CString m (s + i) xs
    → length xs < fuel
    → strlen_loop fuel i s m ≡ some (i + length xs)
unfolding strlen_loop
strlen_loop_lem zero i s m xs h lt = absurd (omega arith)
strlen_loop_lem (suc fuel) i s m [] h lt = ground arith
strlen_loop_lem (suc fuel) i s m (x ∷ xs) h lt =
    let next : CString m (s + suc i) xs = rw add-suc h.2 in
    ground (arith, strlen_loop_lem fuel (suc i) s m xs next)

-- On a string shorter than the fuel, strlen ends and returns the number of bytes before the
-- terminator.
pub strlen-length :
    (fuel s : ℕ) (m : Memory) (xs : List ℕ)
    → CString m s xs
    → length xs < fuel
    → strlen fuel s m ≡ some (length xs)
unfolding strlen
strlen-length fuel s m xs h lt = ground (arith, strlen_loop_lem fuel 0 s m xs (rw add-zero h) lt)

-- `r` is the address of the first `c` of the bytes `xs` that stand at `s`.
abbrev pub FirstAt : ℕ → List ℕ → ℕ → ℕ → Type 0
FirstAt c xs s r =
    (ys : List ℕ) × (zs : List ℕ) × (xs ≡ ys ++ c ∷ zs) × Absent c ys × (r ≡ s + length ys)

-- `r` is the address of the last `c` of the bytes `xs` that stand at `s`.
abbrev pub LastAt : ℕ → List ℕ → ℕ → ℕ → Type 0
LastAt c xs s r =
    (ys : List ℕ) × (zs : List ℕ) × (xs ≡ ys ++ c ∷ zs) × Absent c zs × (r ≡ s + length ys)

FirstAt-cons :
    (c x : ℕ) (xs : List ℕ) (s r : ℕ) → x ≢ c → FirstAt c xs (suc s) r → FirstAt c (x ∷ xs) s r
FirstAt-cons c x xs s r ne (ys, zs, e, out, at) = (x ∷ ys, zs, ap (◌∷◌ x) e, (ne, out), omega arith)

LastAt-cons : (c x : ℕ) (xs : List ℕ) (s r : ℕ) → LastAt c xs (suc s) r → LastAt c (x ∷ xs) s r
LastAt-cons c x xs s r (ys, zs, e, out, at) = (x ∷ ys, zs, ap (◌∷◌ x) e, out, omega arith)

-- What strchr and strrchr answer where the byte is not in the string.
abbrev pub at_end : ℕ → ℕ → List ℕ → ℕ
at_end c s xs = if c == 0 then s + length xs else null

-- On a string shorter than the fuel, strchr ends: at the first byte equal to `(char)c`, or, if
-- there is none, with the terminator's address when `c` is 0 and the null pointer when it is not.
pub strchr-FirstAt :
    (fuel s c : ℕ) (m : Memory) (xs : List ℕ)
    → CString m s xs
    → length xs < fuel
    → (r : ℕ) × (strchr fuel s c m ≡ some r)
      × (FirstAt (c % 256) xs s r ⊎ Absent (c % 256) xs × (r ≡ at_end c s xs))
unfolding strchr
strchr-FirstAt zero s c m xs h lt = absurd (omega arith)
strchr-FirstAt (suc fuel) s c m [] h lt =
    (if c == 0 then s else null, ground arith, inr (tt, ground arith))
strchr-FirstAt (suc fuel) s c m (x ∷ xs) h lt = elim (Bool-cases (m s == c % 256)) [
  | inl e ↦ (s, ground arith, inl ([], xs, ground arith, tt, omega arith))
  | inr e ↦
      let (r, run, place) = strchr-FirstAt fuel (suc s) c m xs h.2 (omega arith) in
      let ne : x ≢ c % 256 = ground arith in
      (
        r,
        ground arith,
        elim place [
          | inl first ↦ inl (FirstAt-cons (c % 256) x xs s r ne first)
          | inr (out, at) ↦ inr ((ne, out), ground arith)
        ],
      )
]

strrchr_loop_lem :
    (fuel last s c : ℕ) (m : Memory) (xs : List ℕ)
    → CString m s xs
    → length xs < fuel
    → (r : ℕ) × (strrchr_loop fuel last s c m ≡ some (r, s + length xs))
      × (LastAt (c % 256) xs s r ⊎ Absent (c % 256) xs × (r ≡ last))
unfolding strrchr_loop
strrchr_loop_lem zero last s c m xs h lt = absurd (omega arith)
strrchr_loop_lem (suc fuel) last s c m [] h lt = (last, ground arith, inr (tt, refl))
strrchr_loop_lem (suc fuel) last s c m (x ∷ xs) h lt =
    let (r, run, place) =
      strrchr_loop_lem fuel (if m s == c % 256 then s else last) (suc s) c m xs h.2 (omega arith) in
    (
      r,
      ground arith,
      elim place [
        | inl first ↦ inl (LastAt-cons (c % 256) x xs s r first)
        | inr (out, at) ↦ elim (Bool-cases (m s == c % 256)) [
          | inl e ↦ inl ([], xs, ground arith, out, ground arith)
          | inr e ↦ inr ((ground arith, out), ground arith)
        ]
      ],
    )

-- On a string shorter than the fuel, strrchr ends. For `c` 0 it returns the terminator's address;
-- for any other `c` the address of the last byte equal to `(char)c`, or the null pointer if there
-- is none.
pub strrchr-LastAt :
    (fuel s c : ℕ) (m : Memory) (xs : List ℕ)
    → CString m s xs
    → length xs < fuel
    → (r : ℕ) × (strrchr fuel s c m ≡ some r)
      × ((c ≡ 0) × (r ≡ s + length xs)
          ⊎ ((c ≢ 0) × (LastAt (c % 256) xs s r ⊎ Absent (c % 256) xs × (r ≡ null))))
unfolding strrchr
strrchr-LastAt fuel s c m xs h lt =
    let (r, run, place) = strrchr_loop_lem fuel null s c m xs h lt in
    elim (Bool-cases (c == 0)) [
      | inl e ↦ (s + length xs, rw run (ground arith), inl (ground arith, refl))
      | inr e ↦ (r, rw run (ground arith), inr (ground arith, place))
    ]

-- Of the bytes of `m` at `s + lo` up to `s + n`, the first that equals `v` is that at `s + j`.
abbrev pub HitAt : Memory → ℕ → ℕ → ℕ → ℕ → ℕ → Type 0
HitAt m s v lo n j =
    (lo ≤ j) × (j < n) × (m (s + j) ≡ v) × ((i : ℕ) → lo ≤ i → i < j → m (s + i) ≢ v)

memchr_loop_lem :
    (left i s v : ℕ) (m : Memory)
    → ((j : ℕ) × HitAt m s v i (i + left) j × (memchr_loop left i s v m ≡ s + j))
      ⊎ (((j : ℕ) → i ≤ j → j < i + left → m (s + j) ≢ v) × (memchr_loop left i s v m ≡ null))
unfolding memchr_loop
memchr_loop_lem zero i s v m = inr (λ j lo hi. absurd (omega arith), refl)
memchr_loop_lem (suc left) i s v m = elim (Bool-cases (m (s + i) == v)) [
  | inl e ↦
      inl
        (i, (omega arith, omega arith, ground arith, λ k lo hi. absurd (omega arith)), ground arith)
  | inr e ↦ elim (memchr_loop_lem left (suc i) s v m) [
    | inl (j, (lo, hi, hit, before), at) ↦
        inl (j, (omega arith, omega arith, hit, λ k l u. ground (arith, before k)), ground arith)
    | inr (all, at) ↦ inr (λ k l u. ground (arith, all k), ground arith)
  ]
]

-- memchr returns the address of the first of the `n` bytes at `s` that equals the low eight bits
-- of `c`, or the null pointer when none of them does.
pub memchr-HitAt :
    (s c n : ℕ) (m : Memory)
    → ((j : ℕ) × HitAt m s (c % 256) 0 n j × (memchr s c n m ≡ s + j))
      ⊎ (((j : ℕ) → j < n → m (s + j) ≢ c % 256) × (memchr s c n m ≡ null))
unfolding memchr
memchr-HitAt s c n m = elim (memchr_loop_lem n 0 s (c % 256) m) [
  | inl (j, (lo, hi, hit, before), at) ↦ inl (j, (lo, omega arith, hit, before), at)
  | inr (all, at) ↦ inr (λ j lt. all j (omega arith) (omega arith), at)
]
