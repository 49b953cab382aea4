-- ===== src/System/Sys/Distinct.antt =====
-- The numbers of sdk/include/syscall_numbers.h do not collide.
use axiome_toolchain.Base.{
  ℕ, zero, suc, ◌<◌, ◌≤◌, ◌≡◌, refl, Bool, true, not, ◌&&◌, List, [], ◌∷◌, arith, length, get_or,
  ltb,
}
use axiome_toolchain.System.Sys.{numbers, last}

-- Do the numbers grow from `n` on, and stay below `top`?
abbrev grows : ℕ → ℕ → List ℕ → Bool
grows n top [] = true
grows n top (x ∷ xs) = not (ltb x n) && (ltb x top && grows (suc x) top xs)

grows-bounds :
    (n top : ℕ) (xs : List ℕ) (i : ℕ)
    → grows n top xs ≡ true
    → i < length xs
    → (n ≤ get_or xs i 0) × (get_or xs i 0 < top)
grows-bounds n top [] i h lt = absurd (omega arith)
grows-bounds n top (x ∷ xs) zero h lt = ground arith
grows-bounds n top (x ∷ xs) (suc i) h lt =
    let (le, small) = grows-bounds (suc x) top xs i (ground arith) (omega arith) in
    (ground arith, small)

grows-get_or :
    (n top : ℕ) (xs : List ℕ) (i j : ℕ)
    → grows n top xs ≡ true
    → i < j
    → j < length xs
    → get_or xs i 0 < get_or xs j 0
grows-get_or n top [] i j h lt le = absurd (omega arith)
grows-get_or n top (x ∷ xs) i zero h lt le = absurd (omega arith)
grows-get_or n top (x ∷ xs) zero (suc j) h lt le =
    let (above, small) = grows-bounds (suc x) top xs j (ground arith) (omega arith) in omega arith
grows-get_or n top (x ∷ xs) (suc i) (suc j) h lt le =
    grows-get_or (suc x) top xs i j (ground arith) (omega arith) (omega arith)

-- The numbers of the header grow in its order, so no two system calls share one, and each is below
-- `__SYS_LAST`.
numbers_grow :
    (i j : ℕ)
    → i < j
    → j < length numbers
    → (get_or numbers i 0 < get_or numbers j 0) × (get_or numbers j 0 < last)
numbers_grow i j lt le =
    (grows-get_or 0 last numbers i j refl lt le, (grows-bounds 0 last numbers j refl le).1)
