-- ===== src/Examples.antt =====
-- Concrete inputs for the theorems: memories with strings, a heap, an output buffer.
mod Blocks
mod Clients
mod Texts
mod Allocation
mod Output
mod Dates
mod Kernels
mod Streams
mod Tools
mod Programs
use axiome_toolchain.Base.{
  ℕ, zero, suc, ◌+◌, ◌≡◌, ◌≢◌, refl, Bool, true, false, not, ◌&&◌, List, [], ◌∷◌, codes, arith,
  ◌==◌, if◌then◌else◌, Bool-cases, inl, inr,
}
use axiome_toolchain.Memory.{Memory, CString}

-- Memory `m` with the bytes `xs` at `a`.
abbrev pub with_bytes : ℕ → List ℕ → Memory → Memory
with_bytes a [] m = m
with_bytes a (x ∷ xs) m = λ i. if i == a then x else with_bytes (suc a) xs m i

-- A test for a string in memory.
abbrev pub is_string : Memory → ℕ → List ℕ → Bool
is_string m s [] = m s == 0
is_string m s (x ∷ xs) = (m s == x) && (not (x == 0) && is_string m (suc s) xs)

pub is_string-CString :
    (m : Memory) (s : ℕ) (xs : List ℕ) → is_string m s xs ≡ true → CString m s xs
is_string-CString m s [] h = ground arith
is_string-CString m s (x ∷ xs) h =
    (ground arith, ground arith, is_string-CString m (suc s) xs (ground arith))

-- A memory with some strings, and 0 elsewhere.
abbrev pub page : Memory
page = with_bytes 16 (codes "a, bc,") (
    with_bytes 32 (codes ", ") (
      with_bytes 48 (codes "  -042x") (
        with_bytes 64 (codes "PATH=/bin")
          (with_bytes 80 (codes "HOME=/root") (with_bytes 96 (codes "HOME") (λ i. 0))))))

pub line_CString : CString page 16 (codes "a, bc,")
line_CString = is_string-CString page 16 (codes "a, bc,") refl

pub set_CString : CString page 32 (codes ", ")
set_CString = is_string-CString page 32 (codes ", ") refl
