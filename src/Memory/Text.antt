-- ===== src/Memory/Text.antt =====
-- NUL-terminated strings and runs of bytes in memory.
use mathlib.Core.Path.{subst}
use native.Mathlib.Nat.{add-zero}
use axiome_toolchain.Base.{
  ℕ, zero, suc, ◌+◌, ◌≤◌, ◌<◌, ◌≡◌, ◌≢◌, ◌⊎◌, List, [], ◌∷◌, ◌++◌, arith, length,
}

-- The string at `s`: the bytes `xs`, none of them 0, and the terminator behind them.
abbrev pub CString : (ℕ → ℕ) → ℕ → List ℕ → Type 0
CString m s [] = m s ≡ 0
CString m s (x ∷ xs) = (m s ≡ x) × (x ≢ 0) × CString m (suc s) xs

-- The bytes `xs` stand at `a`, 0 allowed among them.
abbrev pub Holds : (ℕ → ℕ) → ℕ → List ℕ → Type 0
Holds m a [] = Unit {0}
Holds m a (x ∷ xs) = (m a ≡ x) × Holds m (suc a) xs

-- `c` is not among `xs`.
abbrev pub Absent : ℕ → List ℕ → Type 0
Absent c [] = Unit {0}
Absent c (x ∷ xs) = (x ≢ c) × Absent c xs

-- No byte of `xs` is 0.
abbrev pub NonZero : List ℕ → Type 0
NonZero [] = Unit {0}
NonZero (x ∷ xs) = (x ≢ 0) × NonZero xs

-- Memory `g` equals `m` outside the `n` bytes at `a`.
abbrev pub SameOutside : ℕ → ℕ → (ℕ → ℕ) → (ℕ → ℕ) → Type 0
SameOutside a n m g = (x : ℕ) → ¬ ((a ≤ x) × (x < a + n)) → g x ≡ m x

-- A string survives a change that spares its bytes and terminator.
pub CString-frame :
    (m g : ℕ → ℕ) (s : ℕ) (xs : List ℕ)
    → ((x : ℕ) → s ≤ x → x ≤ s + length xs → g x ≡ m x)
    → CString m s xs
    → CString g s xs
CString-frame m g s [] same h = ground (arith, same s)
CString-frame m g s (x ∷ xs) same h = (
  ground (arith, same s),
  h.1,
  CString-frame m g (suc s) xs (λ y lo hi. same y (omega arith) (omega arith)) h.2,
)

pub CString-NonZero : (m : ℕ → ℕ) (s : ℕ) (xs : List ℕ) → CString m s xs → NonZero xs
CString-NonZero m s [] h = tt
CString-NonZero m s (x ∷ xs) h = (h.1, CString-NonZero m (suc s) xs h.2)

-- A byte inside the string is not the terminator, and the one behind it is.
pub CString-nonzero_at :
    (m : ℕ → ℕ) (s i : ℕ) (xs : List ℕ) → CString m s xs → i < length xs → m (s + i) ≢ 0
CString-nonzero_at m s i [] h lt = absurd (omega arith)
CString-nonzero_at m s zero (x ∷ xs) h lt = grind arith
CString-nonzero_at m s (suc i) (x ∷ xs) h lt = grind (arith, CString-nonzero_at m (suc s) i xs h.2)

pub CString-zero_at : (m : ℕ → ℕ) (s : ℕ) (xs : List ℕ) → CString m s xs → m (s + length xs) ≡ 0
CString-zero_at m s [] h = grind arith
CString-zero_at m s (x ∷ xs) h = grind (arith, CString-zero_at m (suc s) xs h.2)

-- The `n` bytes at `a` and the `k` bytes at `b` do not overlap.
abbrev pub Apart : ℕ → ℕ → ℕ → ℕ → Type 0
Apart a n b k = (a + n ≤ b) ⊎ (b + k ≤ a)

-- A string behind the bytes of another makes one string with them.
pub CString-append :
    (m g : ℕ → ℕ) (s : ℕ) (ys xs : List ℕ)
    → CString m s ys
    → ((x : ℕ) → s ≤ x → x < s + length ys → g x ≡ m x)
    → CString g (s + length ys) xs
    → CString g s (ys ++ xs)
CString-append m g s [] xs h same t = rw add-zero at t
CString-append m g s (y ∷ ys) xs h same t = (
  ground (arith, same s),
  h.1,
  CString-append m g (suc s) ys xs h.2 (λ x lo hi. same x (omega arith) (omega arith))
      (subst (λ a. CString g a xs) (omega arith) t),
)

-- The tail of a string is a string.
pub CString-drop :
    (m : ℕ → ℕ) (s : ℕ) (ys xs : List ℕ) → CString m s (ys ++ xs) → CString m (s + length ys) xs
CString-drop m s [] xs h = rw add-zero h
CString-drop m s (y ∷ ys) xs h =
    subst (λ a. CString m a xs) (omega arith) (CString-drop m (suc s) ys xs h.2)

-- A 0 written behind the front of a string makes that front a string.
pub CString-cut :
    (m g : ℕ → ℕ) (s : ℕ) (ys xs : List ℕ)
    → CString m s (ys ++ xs)
    → ((x : ℕ) → s ≤ x → x < s + length ys → g x ≡ m x)
    → g (s + length ys) ≡ 0
    → CString g s ys
CString-cut m g s [] xs h same z = rw add-zero at z
CString-cut m g s (y ∷ ys) xs h same z = (
  ground (arith, same s),
  h.1,
  CString-cut m g (suc s) ys xs h.2 (λ x lo hi. same x (omega arith) (omega arith))
      (subst (λ a. g a ≡ 0) (omega arith) z),
)
