-- ===== src/Strings/Compare/Order.antt =====
-- What the comparisons of sdk/src/string.c answer.
use native.Mathlib.Nat.{add-suc, add-zero}
use axiome_toolchain.Base.{
  ℕ, zero, suc, ◌+◌, ◌≤◌, ◌<◌, ◌≡◌, refl, ◌≢◌, ◌↔◌, ◌⊎◌, inl, inr, List, [], ◌∷◌, some, arith,
  length, take, ◌==◌, if◌then◌else◌, Bool-cases,
}
use axiome_toolchain.Base.Int.{ℤ, pos, sub_ℕ}
use axiome_toolchain.Memory.{Memory, CString}
use axiome_toolchain.Strings.Compare.{memcmp_loop, memcmp, strcmp, strncmp_loop, strncmp}

memcmp_loop_lem :
    (left i a b : ℕ) (m : Memory)
    → (((j : ℕ) → i ≤ j → j < i + left → m (a + j) ≡ m (b + j))
        × (memcmp_loop left i a b m ≡ pos 0))
      ⊎ ((j : ℕ) × (i ≤ j)
          × (j < i + left)
          × ((k : ℕ) → i ≤ k → k < j → m (a + k) ≡ m (b + k))
          × (m (a + j) ≢ m (b + j))
          × (memcmp_loop left i a b m ≡ sub_ℕ (m (a + j)) (m (b + j))))
unfolding memcmp_loop
memcmp_loop_lem zero i a b m = inl (λ j lo hi. absurd (omega arith), refl)
memcmp_loop_lem (suc left) i a b m = elim (Bool-cases (m (a + i) == m (b + i))) [
  | inr e ↦
      inr (i, omega arith, omega arith, λ k lo hi. absurd (omega arith), ground arith, rw e refl)
  | inl e ↦ elim (memcmp_loop_lem left (suc i) a b m) [
    | inl (same, out) ↦ inl (λ j lo hi. ground (arith, same j), rw e out)
    | inr (j, lo, hi, same, ne, out) ↦
        inr (j, omega arith, omega arith, λ k l u. ground (arith, same k), ne, rw e out)
  ]
]

-- memcmp returns 0 if the two blocks of `n` bytes are equal, and otherwise the difference of the
-- first two bytes that differ.
pub memcmp-first_difference :
    (a b n : ℕ) (m : Memory)
    → (((j : ℕ) → j < n → m (a + j) ≡ m (b + j)) × (memcmp a b n m ≡ pos 0))
      ⊎ ((j : ℕ) × (j < n)
          × ((k : ℕ) → k < j → m (a + k) ≡ m (b + k))
          × (m (a + j) ≢ m (b + j))
          × (memcmp a b n m ≡ sub_ℕ (m (a + j)) (m (b + j))))
unfolding memcmp
memcmp-first_difference a b n m = elim (memcmp_loop_lem n 0 a b m) [
  | inl (same, out) ↦ inl (λ j lt. same j (omega arith) (omega arith), out)
  | inr (j, lo, hi, same, ne, out) ↦ inr (j, omega arith, λ k lt. same k (omega arith) lt, ne, out)
]

-- The order that the comparisons answer for: by the first bytes that differ, the end counting as 0.
abbrev pub diff : List ℕ → List ℕ → ℤ
diff [] [] = pos 0
diff [] (y ∷ ys) = sub_ℕ 0 y
diff (x ∷ xs) [] = sub_ℕ x 0
diff (x ∷ xs) (y ∷ ys) = if x == y then diff xs ys else sub_ℕ x y

strcmp_lem :
    (fuel a b : ℕ) (m : Memory) (xs ys : List ℕ)
    → CString m a xs
    → CString m b ys
    → length xs < fuel
    → strcmp fuel a b m ≡ some (diff xs ys)
unfolding strcmp
strcmp_lem zero a b m xs ys ha hb lt = absurd (omega arith)
strcmp_lem (suc fuel) a b m [] [] ha hb lt = rw (ha, hb) refl
strcmp_lem (suc fuel) a b m [] (y ∷ ys) ha hb lt = rw (ha, hb.0) refl
strcmp_lem (suc fuel) a b m (x ∷ xs) [] ha hb lt = rw (ha.0, hb) (ground arith)
strcmp_lem (suc fuel) a b m (x ∷ xs) (y ∷ ys) ha hb lt =
    rw (ha.0, hb.0) (ground (arith, strcmp_lem fuel (suc a) (suc b) m xs ys ha.2 hb.2))

diff-eq :
    (m : Memory) (a b : ℕ) (xs ys : List ℕ)
    → CString m a xs
    → CString m b ys
    → diff xs ys ≡ pos 0
    → xs ≡ ys
diff-eq m a b [] [] ha hb e = refl
diff-eq m a b [] (y ∷ ys) ha hb e = absurd (ground arith)
diff-eq m a b (x ∷ xs) [] ha hb e = absurd (ground arith)
diff-eq m a b (x ∷ xs) (y ∷ ys) ha hb e = ground (arith, diff-eq m (suc a) (suc b) xs ys ha.2 hb.2)

diff_self : (xs : List ℕ) → diff xs xs ≡ pos 0
diff_self [] = refl
diff_self (x ∷ xs) = ground (arith, diff_self xs)

-- On two strings, the first shorter than the fuel, strcmp ends with their lexicographic difference
-- `diff`, and that is 0 just when the strings are equal.
pub strcmp-diff :
    (fuel a b : ℕ) (m : Memory) (xs ys : List ℕ)
    → CString m a xs
    → CString m b ys
    → length xs < fuel
    → (strcmp fuel a b m ≡ some (diff xs ys)) × ((diff xs ys ≡ pos 0) ↔ (xs ≡ ys))
strcmp-diff fuel a b m xs ys ha hb lt = (
  strcmp_lem fuel a b m xs ys ha hb lt,
  (diff-eq m a b xs ys ha hb, λ e. rw (← e) (diff_self xs)),
)

strncmp_loop_lem :
    (left i a b : ℕ) (m : Memory) (xs ys : List ℕ)
    → CString m (a + i) xs
    → CString m (b + i) ys
    → strncmp_loop left i a b m ≡ diff (take left xs) (take left ys)
unfolding strncmp_loop
strncmp_loop_lem zero i a b m xs ys ha hb = refl
strncmp_loop_lem (suc left) i a b m [] [] ha hb = rw (ha, hb) refl
strncmp_loop_lem (suc left) i a b m [] (y ∷ ys) ha hb = rw (ha, hb.0) (ground arith)
strncmp_loop_lem (suc left) i a b m (x ∷ xs) [] ha hb = rw (ha.0, hb) (ground arith)
strncmp_loop_lem (suc left) i a b m (x ∷ xs) (y ∷ ys) ha hb =
    let na : CString m (a + suc i) xs = rw add-suc ha.2 in
    let nb : CString m (b + suc i) ys = rw add-suc hb.2 in
    rw (ha.0, hb.0) (ground (arith, strncmp_loop_lem left (suc i) a b m xs ys na nb))

-- On two strings strncmp answers as the comparison of their first `n` bytes does.
pub strncmp-diff :
    (a b n : ℕ) (m : Memory) (xs ys : List ℕ)
    → CString m a xs
    → CString m b ys
    → strncmp a b n m ≡ diff (take n xs) (take n ys)
unfolding strncmp
strncmp-diff a b n m xs ys ha hb =
    strncmp_loop_lem n 0 a b m xs ys (rw add-zero ha) (rw add-zero hb)
