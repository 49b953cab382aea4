-- ===== src/Stdlib/Client/Blocks.antt =====
-- The regions among the blocks of sdk/src/stdlib.c: what first fit adds and what merging takes away.
use axiome_toolchain.Base.{
  ℕ, ◌+◌, ◌-◌, ◌≤◌, ◌≡◌, ◌≢◌, refl, ◌⊎◌, inl, inr, Bool, true, false, List, [], ◌∷◌, Option, none,
  some, arith, leb, Bool-cases,
}
use axiome_toolchain.Memory.{Apart}
use axiome_toolchain.Stdlib.Heap.{block_size}
use axiome_toolchain.Stdlib.Heap.Chain.{Cell, carve, behind, fit}
use axiome_toolchain.Stdlib.Heap.Regions.{Region, Region-le}
use axiome_toolchain.Stdlib.Heap.Merged.{Separated, StartsUsed}

pub Region-unique : (a p s t : ℕ) (cs : List Cell) → Region a p s cs → Region a p t cs → s ≡ t
Region-unique a p s t [] r r' = absurd r
Region-unique a p s t ((z, b) ∷ cs) (inl r) (inl r') = omega arith
Region-unique a p s t ((z, b) ∷ cs) (inl r) (inr r') =
    absurd (omega (arith, Region-le (a + block_size + z) p t cs r'))
Region-unique a p s t ((z, b) ∷ cs) (inr r) (inl r') =
    absurd (omega (arith, Region-le (a + block_size + z) p s cs r))
Region-unique a p s t ((z, b) ∷ cs) (inr r) (inr r') =
    Region-unique (a + block_size + z) p s t cs r r'

pub Region-Apart :
    (a p q s t : ℕ) (cs : List Cell) → Region a p s cs → Region a q t cs → p ≢ q → Apart p s q t
Region-Apart a p q s t [] r r' ne = absurd r
Region-Apart a p q s t ((z, b) ∷ cs) (inl r) (inl r') ne = absurd (omega arith)
Region-Apart a p q s t ((z, b) ∷ cs) (inl r) (inr r') ne =
    inl (omega (arith, Region-le (a + block_size + z) q t cs r'))
Region-Apart a p q s t ((z, b) ∷ cs) (inr r) (inl r') ne =
    inr (omega (arith, Region-le (a + block_size + z) p s cs r))
Region-Apart a p q s t ((z, b) ∷ cs) (inr r) (inr r') ne =
    Region-Apart (a + block_size + z) p q s t cs r r' ne

-- The blocks `ds` have no regions but that at `p` and those of `cs`, and no two free neighbours.
abbrev pub Keeps : ℕ → ℕ → List Cell → List Cell → Type 0
Keeps a p cs ds =
    Separated ds
    × (StartsUsed cs → StartsUsed ds)
    × ((q t : ℕ) → Region a q t ds → (q ≡ p) ⊎ Region a q t cs)

abbrev pub KeepsIf : ℕ → List Cell → Option (ℕ × List Cell) → Type 0
KeepsIf a cs none = Unit {0}
KeepsIf a cs (some (p, ds)) = Keeps a p cs ds

carve-Keeps :
    (a n s : ℕ) (cs : List Cell)
    → n ≤ s
    → Separated ((s, true) ∷ cs)
    → Keeps a (a + block_size) ((s, true) ∷ cs) (carve n s cs)
carve-Keeps a n s cs le sep = elim (Bool-cases (leb (n + block_size + 16) s)) [
  | inl e ↦
      let at : a + block_size + n + block_size + (s - n - block_size) ≡ a + block_size + s =
        ground arith in
      rw e (
        (inl refl, (ground arith, sep.1)),
        (λ u. refl),
        λ q t r. elim r [
          | inl head ↦ inl head.0
          | inr (inl none_here) ↦ absurd (cc)
          | inr (inr tail) ↦ inr (inr (rw at at tail))
        ],
      )
  | inr e ↦ rw e (
    (inl refl, sep.1),
    (λ u. refl),
    λ q t r. elim r [ inl head ↦ inl head.0 | inr tail ↦ inr (inr tail) ],
  )
]

Keeps-behind :
    (a p s : ℕ) (b : Bool) (cs ds : List Cell)
    → Separated ((s, b) ∷ cs)
    → Keeps (a + block_size + s) p cs ds
    → Keeps a p ((s, b) ∷ cs) ((s, b) ∷ ds)
Keeps-behind a p s b cs ds (head, sep) (sep', first, back) = (
  (elim head [ inl used ↦ inl used | inr next ↦ inr (first next) ], sep'),
  (λ u. u),
  λ q t r. elim r [
    | inl here ↦ inr (inl here)
    | inr tail ↦ elim (back q t tail) [ inl e ↦ inl e | inr old ↦ inr (inr old) ]
  ],
)

KeepsIf-behind :
    (a s : ℕ) (b : Bool) (cs : List Cell) (o : Option (ℕ × List Cell))
    → Separated ((s, b) ∷ cs)
    → KeepsIf (a + block_size + s) cs o
    → KeepsIf a ((s, b) ∷ cs) (behind (s, b) o)
KeepsIf-behind a s b cs none sep g = tt
KeepsIf-behind a s b cs (some (p, ds)) sep g = Keeps-behind a p s b cs ds sep g

pub fit-Keeps : (a n : ℕ) (cs : List Cell) → Separated cs → KeepsIf a cs (fit a n cs)
fit-Keeps a n [] sep = tt
fit-Keeps a n ((s, true) ∷ cs) sep = elim (Bool-cases (leb n s)) [
  | inl e ↦ rw e (carve-Keeps a n s cs (ground arith) sep)
  | inr e ↦ rw e (
      KeepsIf-behind a s true cs (fit (a + block_size + s) n cs) sep
        (fit-Keeps (a + block_size + s) n cs sep.1))
]
fit-Keeps a n ((s, false) ∷ cs) sep =
    KeepsIf-behind a s false cs (fit (a + block_size + s) n cs) sep
      (fit-Keeps (a + block_size + s) n cs sep.1)
