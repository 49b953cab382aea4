-- ===== src/Memory/Runs.antt =====
-- Runs of bytes in memory, and the strings that they make.
use mathlib.Core.Path.{subst}
use native.Mathlib.Nat.{add-zero}
use axiome_toolchain.Base.{
  ℕ, zero, suc, ◌+◌, ◌≤◌, ◌<◌, ◌≡◌, List, [], ◌∷◌, ◌++◌, arith, length, take, get_or,
}
use axiome_toolchain.Memory.{Memory, store, CString, NonZero, Holds}

pub Holds-frame :
    (m g : Memory) (a : ℕ) (xs : List ℕ)
    → Holds m a xs
    → ((x : ℕ) → a ≤ x → x < a + length xs → g x ≡ m x)
    → Holds g a xs
Holds-frame m g a [] h same = tt
Holds-frame m g a (x ∷ xs) h same = (
  ground (arith, same a),
  Holds-frame m g (suc a) xs h.1 (λ y lo hi. same y (omega arith) (omega arith)),
)

pub Holds-append :
    (m : Memory) (a : ℕ) (ys xs : List ℕ)
    → Holds m a ys
    → Holds m (a + length ys) xs
    → Holds m a (ys ++ xs)
Holds-append m a [] xs hy hx = rw add-zero at hx
Holds-append m a (y ∷ ys) xs hy hx =
    (hy.0, Holds-append m (suc a) ys xs hy.1 (subst (λ b. Holds m b xs) (omega arith) hx))

pub Holds-get_or :
    (m : Memory) (a i d : ℕ) (xs : List ℕ)
    → Holds m a xs
    → i < length xs
    → m (a + i) ≡ get_or xs i d
Holds-get_or m a i d [] h lt = absurd (omega arith)
Holds-get_or m a zero d (x ∷ xs) h lt = ground arith
Holds-get_or m a (suc i) d (x ∷ xs) h lt = ground (arith, Holds-get_or m (suc a) i d xs h.1)

Holds-CString :
    (m : Memory) (a : ℕ) (xs : List ℕ)
    → Holds m a xs
    → NonZero xs
    → m (a + length xs) ≡ 0
    → CString m a xs
Holds-CString m a [] h nz z = rw add-zero at z
Holds-CString m a (x ∷ xs) h nz z =
    (h.0, nz.0, Holds-CString m (suc a) xs h.1 nz.1 (subst (λ b. m b ≡ 0) (omega arith) z))

pub NonZero-take : (n : ℕ) (xs : List ℕ) → NonZero xs → NonZero (take n xs)
NonZero-take zero xs h = tt
NonZero-take (suc n) [] h = tt
NonZero-take (suc n) (x ∷ xs) h = (h.0, NonZero-take n xs h.1)

pub NonZero-append : (xs ys : List ℕ) → NonZero xs → NonZero ys → NonZero (xs ++ ys)
NonZero-append [] ys hx hy = hy
NonZero-append (x ∷ xs) ys hx hy = (hx.0, NonZero-append xs ys hx.1 hy)

-- The terminator behind what has been copied.
pub Holds-closed :
    (m : Memory) (a : ℕ) (xs : List ℕ)
    → Holds m a xs
    → NonZero xs
    → CString (store m (a + length xs) 0) a xs
Holds-closed m a xs h nz =
    let g : Memory = store m (a + length xs) 0 in
    Holds-CString g a xs (Holds-frame m g a xs h (λ x lo hi. ground arith)) nz (ground arith)
