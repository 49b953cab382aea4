-- ===== src/Stdlib/Heap/Regions.antt =====
-- The bytes that the allocator of sdk/src/stdlib.c has given out.
use mathlib.Core.Path.{subst}
use axiome_toolchain.Base.{
  ℕ, ◌+◌, ◌-◌, ◌≤◌, ◌<◌, ◌≡◌, refl, ◌⊎◌, inl, inr, ◌≢◌, Bool, true, false, List, [], ◌∷◌, Option,
  none, some, arith, length, leb, ◌==◌, Bool-cases,
}
use axiome_toolchain.Memory.{null, Apart}
use axiome_toolchain.Stdlib.Heap.{Block, block_size, heap_size, word, align16, Heap, malloc, free}
use axiome_toolchain.Stdlib.Heap.Chain.{
  Cell, Chain, IsHeap, fresh_cells, carve, behind, fit, join, coalesce, IsUsed, mark,
}
use axiome_toolchain.Stdlib.Heap.Malloc.{Allocates, malloc-fit}
use axiome_toolchain.Stdlib.Heap.Free.{free-coalesce}

-- An allocated block of `size` bytes was given out at `p`.
abbrev pub Region : ℕ → ℕ → ℕ → List Cell → Type 0
Region a p size [] = ⊥
Region a p size ((s, b) ∷ cs) =
    ((p ≡ a + block_size) × (b ≡ false) × (size ≡ s)) ⊎ Region (a + block_size + s) p size cs

pub Region-le : (a p size : ℕ) (cs : List Cell) → Region a p size cs → a + block_size ≤ p
Region-le a p size [] r = absurd r
Region-le a p size ((s, b) ∷ cs) (inl r) = omega arith
Region-le a p size ((s, b) ∷ cs) (inr r) = omega (arith, Region-le (a + block_size + s) p size cs r)

-- A region ends inside the array.
Region-end :
    (f : ℕ → Block) (top a p size : ℕ) (cs : List Cell)
    → Chain f top a cs
    → Region a p size cs
    → p + size ≤ top
Region-end f top a p size [] chain r = absurd r
Region-end f top a p size ((s, b) ∷ cs) (e, rest) (inl r) = omega (arith, reach f top _ cs rest)
  where
    reach : (f : ℕ → Block) (top a : ℕ) (cs : List Cell) → Chain f top a cs → a ≤ top
    reach f top a [] h = omega arith
    reach f top a ((s, b) ∷ cs) h = omega (arith, reach f top (a + block_size + s) cs h.1)
Region-end f top a p size ((s, b) ∷ cs) (e, rest) (inr r) =
    Region-end f top (a + block_size + s) p size cs rest r

pub fresh_cells-Region : (a p size : ℕ) → ¬ Region a p size fresh_cells
fresh_cells-Region a p size (inl r) = absurd (cc)
fresh_cells-Region a p size (inr r) = r

pub IsHeap-Region_end :
    (heap p size : ℕ) (h : Heap) (cs : List Cell)
    → IsHeap heap h cs
    → Region heap p size cs
    → p + size ≤ heap + heap_size
IsHeap-Region_end heap p size h cs (inl (init, fl, chain)) r =
    Region-end h.header (heap + heap_size) heap p size cs chain r
IsHeap-Region_end heap p size h cs (inr (init, e)) r =
    absurd (fresh_cells-Region heap p size (subst (Region heap p size) e r))

-- The blocks `ds` hold a new region of at least `n` bytes at `p`, apart from those of `cs` by the
-- bytes of a header at least. They hold those of `cs` too, and are one more at most.
abbrev pub Grants : ℕ → ℕ → ℕ → List Cell → List Cell → Type 0
Grants a n p cs ds =
    (size : ℕ) × Region a p size ds
    × (n ≤ size)
    × ((q s : ℕ)
        → Region a q s cs
        → Region a q s ds × Apart p (size + block_size) q (s + block_size))
    × (length ds ≤ length cs + 1)

carve-Grants :
    (a n s : ℕ) (cs : List Cell)
    → n ≤ s
    → Grants a n (a + block_size) ((s, true) ∷ cs) (carve n s cs)
carve-Grants a n s cs le = elim (Bool-cases (leb (n + block_size + 16) s)) [
  | inl e ↦
      let at : a + block_size + s ≡ a + block_size + n + block_size + (s - n - block_size) =
        ground arith in
      rw e (
        n,
        inl (refl, refl, refl),
        omega arith,
        λ q z r. elim r [
          | inl old ↦ absurd (cc)
          | inr old ↦ (
            inr (inr (subst (λ b. Region b q z cs) at old)),
            omega (arith, Region-le (a + block_size + s) q z cs old),
          )
        ],
        omega arith,
      )
  | inr e ↦ rw e (
    s,
    inl (refl, refl, refl),
    le,
    λ q z r. elim r [
      | inl old ↦ absurd (cc)
      | inr old ↦ (inr old, omega (arith, Region-le (a + block_size + s) q z cs old))
    ],
    omega arith,
  )
]

Grants-behind :
    (a n p s : ℕ) (b : Bool) (cs ds : List Cell)
    → Grants (a + block_size + s) n p cs ds
    → Grants a n p ((s, b) ∷ cs) ((s, b) ∷ ds)
Grants-behind a n p s b cs ds (size, r, le, keep, len) = (
  size,
  inr r,
  le,
  λ q z old. elim old [
    | inl head ↦ (inl head, omega (arith, Region-le (a + block_size + s) p size ds r))
    | inr tail ↦ (inr (keep q z tail).0, (keep q z tail).1)
  ],
  omega arith,
)

abbrev pub GrantsIf : ℕ → ℕ → List Cell → Option (ℕ × List Cell) → Type 0
GrantsIf a n cs none = Unit {0}
GrantsIf a n cs (some (p, ds)) = Grants a n p cs ds

GrantsIf-behind :
    (a n s : ℕ) (b : Bool) (cs : List Cell) (o : Option (ℕ × List Cell))
    → GrantsIf (a + block_size + s) n cs o
    → GrantsIf a n ((s, b) ∷ cs) (behind (s, b) o)
GrantsIf-behind a n s b cs none g = tt
GrantsIf-behind a n s b cs (some (p, ds)) g = Grants-behind a n p s b cs ds g

pub fit-Grants : (a n : ℕ) (cs : List Cell) → GrantsIf a n cs (fit a n cs)
fit-Grants a n [] = tt
fit-Grants a n ((s, true) ∷ cs) = elim (Bool-cases (leb n s)) [
  | inl e ↦ rw e (carve-Grants a n s cs (ground arith))
  | inr e ↦ rw e (
      GrantsIf-behind a n s true cs (fit (a + block_size + s) n cs)
        (fit-Grants (a + block_size + s) n cs))
]
fit-Grants a n ((s, false) ∷ cs) =
    GrantsIf-behind a n s false cs (fit (a + block_size + s) n cs)
      (fit-Grants (a + block_size + s) n cs)

-- The request is rounded up, if the sum with 15 does not pass 2^64.
pub le-align16 : (n : ℕ) → n + 16 ≤ word → n ≤ align16 n
le-align16 n small = omega arith

-- What a call to malloc for `n` bytes does to the blocks `cs`.
abbrev pub Serves : ℕ → ℕ → List Cell → Heap → Option (ℕ × Heap) → Type 0
Serves heap n cs h call =
    (p : ℕ) × (h' : Heap) × (ds : List Cell) × (call ≡ some (p, h'))
    × IsHeap heap h' ds
    × (((p ≡ null) × (ds ≡ cs)) ⊎ (Grants heap n p cs ds × (heap + block_size ≤ p)))

Allocates-Serves :
    (heap n k : ℕ) (cs : List Cell) (h : Heap) (o : Option (ℕ × List Cell))
    (call : Option (ℕ × Heap))
    → n ≤ k
    → GrantsIf heap k cs o
    → Allocates heap cs h o call
    → Serves heap n cs h call
Allocates-Serves heap n k cs h none call le g (h', run, made, err) =
    (null, h', cs, run, made, inl (refl, refl))
Allocates-Serves heap n k cs h (some (p, ds)) call le (size, r, lk, keep, len)
      (h', run, made, err) =
    (p, h', ds, run, made, inr ((size, r, omega arith, keep, len), Region-le heap p size ds r))

-- With the array inside the address space and fuel above the number of blocks, and for 0 < n <=
-- 2^64 - 16, malloc either returns null and leaves the blocks as they were, or gives out a region
-- of at least `n` bytes, apart from every region given out before, all of which remain.
pub malloc-Serves :
    (fuel heap n : ℕ) (cs : List Cell) (h : Heap)
    → IsHeap heap h cs
    → heap ≢ null
    → heap + heap_size + 16 ≤ word
    → length cs < fuel
    → 0 < n
    → n + 16 ≤ word
    → Serves heap n cs h (malloc heap fuel n h)
malloc-Serves fuel heap n cs h is ne small lt pos_n no_wrap =
    Allocates-Serves heap n (align16 n) cs h (fit heap (align16 n) cs) _ (le-align16 n no_wrap)
      (fit-Grants heap (align16 n) cs) (malloc-fit fuel heap n cs h is ne small lt pos_n)

join-Region :
    (a q z s : ℕ) (b : Bool) (cs : List Cell)
    → Region a q z ((s, b) ∷ cs)
    → Region a q z (join s b cs)
join-Region a q z s b [] r = r
join-Region a q z s true ((t, true) ∷ cs) (inl r) = absurd (ground arith)
join-Region a q z s true ((t, true) ∷ cs) (inr (inl r)) = absurd (ground arith)
join-Region a q z s true ((t, true) ∷ cs) (inr (inr r)) =
    join-Region a q z (s + (block_size + t)) true cs
      (inr (subst (λ x. Region x q z cs) (omega arith) r))
join-Region a q z s true ((t, false) ∷ cs) (inl r) = absurd (ground arith)
join-Region a q z s true ((t, false) ∷ cs) (inr r) =
    inr (join-Region (a + block_size + s) q z t false cs r)
join-Region a q z s false ((t, c) ∷ cs) (inl r) = inl r
join-Region a q z s false ((t, c) ∷ cs) (inr r) =
    inr (join-Region (a + block_size + s) q z t c cs r)

pub coalesce-Region : (a q z : ℕ) (cs : List Cell) → Region a q z cs → Region a q z (coalesce cs)
coalesce-Region a q z [] r = r
coalesce-Region a q z ((s, b) ∷ cs) r = join-Region a q z s b cs r

pub mark-Region :
    (a p q z : ℕ) (cs : List Cell) → q ≢ p → Region a q z cs → Region a q z (mark a p cs)
mark-Region a p q z [] ne r = r
mark-Region a p q z ((s, b) ∷ cs) ne (inl r) =
    let other : (a + block_size == p) ≡ false = ground arith in rw other (inl r)
mark-Region a p q z ((s, b) ∷ cs) ne (inr r) = elim (Bool-cases (a + block_size == p)) [
  | inl e ↦ rw e (inr r)
  | inr e ↦ rw e (inr (mark-Region (a + block_size + s) p q z cs ne r))
]

-- With the array inside the address space and fuel for the number of blocks, free of a pointer
-- given out for a block still allocated ends and leaves every other region given out as it was.
pub free-Region :
    (fuel heap p : ℕ) (cs : List Cell) (h : Heap)
    → IsHeap heap h cs
    → IsUsed heap p cs
    → heap ≢ null
    → heap + heap_size + 16 ≤ word
    → length cs ≤ fuel
    → (h' : Heap) × (ds : List Cell) × (free fuel p h ≡ some h')
      × IsHeap heap h' ds
      × ((q size : ℕ) → q ≢ p → Region heap q size cs → Region heap q size ds)
free-Region fuel heap p cs h is used ne small lt =
    let (h', run, made, err) = free-coalesce fuel heap p cs h is used ne small lt in
    (
      h',
      coalesce (mark heap p cs),
      run,
      made,
      λ q z other r. coalesce-Region heap q z (mark heap p cs) (mark-Region heap p q z cs other r),
    )

-- A region given out ends inside the array.
pub Region-bounds :
    (heap p size : ℕ) (cs : List Cell) (h : Heap)
    → IsHeap heap h cs
    → Region heap p size cs
    → p + size ≤ heap + heap_size
Region-bounds heap p size cs h (inl (init, fl, chain)) r =
    Region-end h.header (heap + heap_size) heap p size cs chain r
Region-bounds heap p size cs h (inr (init, e)) r =
    absurd (ground (arith, subst (Region heap p size) e r))
