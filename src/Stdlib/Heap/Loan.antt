-- ===== src/Stdlib/Heap/Loan.antt =====
-- A block of sdk/src/stdlib.c that malloc gives out and free takes back.
use mathlib.Core.Path.{subst}
use axiome_toolchain.Base.{
  ℕ, ◌+◌, ◌≤◌, ◌<◌, ◌≡◌, ◌≢◌, sym, ◌∙◌, ◌⊎◌, inl, inr, List, some, arith, length,
}
use axiome_toolchain.Memory.{null}
use axiome_toolchain.Stdlib.Heap.{Heap, heap_size, word, malloc, free}
use axiome_toolchain.Stdlib.Heap.Chain.{Cell, IsHeap}
use axiome_toolchain.Stdlib.Heap.Regions.{Grants, malloc-Serves, Region-bounds}
use axiome_toolchain.Stdlib.Heap.Merged.{Separated, free-malloc}

-- What malloc gives: null and the blocks as they were, or `n` bytes of the array that free takes back.
abbrev pub Lends : ℕ → ℕ → ℕ → List Cell → ℕ → Heap → Type 0
Lends n heap fuel cs p h =
    ((p ≡ null) × IsHeap heap h cs)
    ⊎ ((heap < p)
        × (p + n ≤ heap + heap_size)
        × ((h' : Heap) × (free fuel p h ≡ some h') × IsHeap heap h' cs))

pub malloc-Lends :
    (n heap fuel : ℕ) (cs : List Cell) (h : Heap)
    → 0 < n
    → n + 16 ≤ word
    → IsHeap heap h cs
    → Separated cs
    → heap ≢ null
    → heap + heap_size + 16 ≤ word
    → length cs < fuel
    → (p : ℕ) × (h' : Heap) × (malloc heap fuel n h ≡ some (p, h')) × Lends n heap fuel cs p h'
malloc-Lends n heap fuel cs h pos fits is sep ne small lt =
    let (p, h1, h2, run, freed, back) =
      free-malloc fuel heap n cs h is sep ne small lt (omega arith) in
    let (q, g, ds, run', made, how) =
      malloc-Serves fuel heap n cs h is ne small lt (omega arith) (omega arith) in
    let same_p : q ≡ p = cc in
    let same_h : g ≡ h1 = cc in (p, h1, run, cases p h1 h2 ds q g same_p same_h freed back made how)
  where
    cases :
        (p : ℕ) (h1 h2 : Heap) (ds : List Cell) (q : ℕ) (g : Heap)
        → q ≡ p
        → g ≡ h1
        → free fuel p h1 ≡ some h2
        → IsHeap heap h2 cs
        → IsHeap heap g ds
        → ((q ≡ null) × (ds ≡ cs)) ⊎ (Grants heap n q cs ds × (heap + 24 ≤ q))
        → Lends n heap fuel cs p h1
    cases p h1 h2 ds q g e e' freed back made (inl (z, same)) =
        inl (sym e ∙ z, subst (λ x. IsHeap heap x cs) e' (subst (IsHeap heap g) same made))
    cases p h1 h2 ds q g e e' freed back made (inr ((size, region, fits, apart, len), above)) =
        inr (
          omega (arith, e),
          omega (arith, e, Region-bounds heap q size ds g made region),
          (h2, freed, back),
        )
