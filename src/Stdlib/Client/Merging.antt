-- ===== src/Stdlib/Client/Merging.antt =====
-- The regions that are left when a block of sdk/src/stdlib.c is set free and merged with its
-- neighbours, how many blocks there can be, and what is left when none is given out.
use axiome_toolchain.Base.{
  ℕ, ◌+◌, ◌*◌, ◌≤◌, ◌≡◌, ◌≢◌, refl, ap, inl, inr, Bool, true, false, List, [], ◌∷◌, arith, length,
  ◌==◌, Bool-cases,
}
use mathlib.Core.Path.{subst}
use axiome_toolchain.Stdlib.Heap.{Block, Heap, block_size, heap_size}
use axiome_toolchain.Stdlib.Heap.Chain.{Cell, Chain, IsHeap, fresh_cells, join, coalesce, mark}
use axiome_toolchain.Stdlib.Heap.Regions.{Region, Region-le}
use axiome_toolchain.Stdlib.Heap.Merged.{Separated}

mark-Region_back :
    (a p q t : ℕ) (cs : List Cell) → Region a q t (mark a p cs) → (q ≢ p) × Region a q t cs
mark-Region_back a p q t [] r = absurd r
mark-Region_back a p q t ((s, b) ∷ cs) r = elim (Bool-cases (a + block_size == p)) [
  | inl e ↦ here e (rw e at r)
  | inr e ↦ other e (λ tail. mark-Region_back (a + block_size + s) p q t cs tail) (rw e at r)
]
  where
    here :
        (a + block_size == p) ≡ true
        → Region a q t ((s, true) ∷ cs)
        → (q ≢ p) × Region a q t ((s, b) ∷ cs)
    here e (inl (at, used, len)) = absurd (cc)
    here e (inr tail) = (ground (arith, Region-le (a + block_size + s) q t cs tail), inr tail)

    other :
        (a + block_size == p) ≡ false
        → (Region (a + block_size + s) q t (mark (a + block_size + s) p cs)
            → (q ≢ p) × Region (a + block_size + s) q t cs)
        → Region a q t ((s, b) ∷ mark (a + block_size + s) p cs)
        → (q ≢ p) × Region a q t ((s, b) ∷ cs)
    other e back (inl head) = (ground arith, inl head)
    other e back (inr tail) = let (ne, old) = back tail in (ne, inr old)

join-Region_back :
    (a q z s : ℕ) (b : Bool) (cs : List Cell)
    → Region a q z (join s b cs)
    → Region a q z ((s, b) ∷ cs)
join-Region_back a q z s b [] r = r
join-Region_back a q z s true ((t, true) ∷ cs) r =
    elim (join-Region_back a q z (s + (block_size + t)) true cs r) [
      | inl head ↦ absurd (cc)
      | inr tail ↦ inr (inr (subst (λ x. Region x q z cs) (omega arith) tail))
    ]
join-Region_back a q z s true ((t, false) ∷ cs) (inl head) = inl head
join-Region_back a q z s true ((t, false) ∷ cs) (inr r) =
    inr (join-Region_back (a + block_size + s) q z t false cs r)
join-Region_back a q z s false ((t, c) ∷ cs) (inl head) = inl head
join-Region_back a q z s false ((t, c) ∷ cs) (inr r) =
    inr (join-Region_back (a + block_size + s) q z t c cs r)

-- After a free of `p` each region was there before and is not that of `p`.
pub coalesce-Region_back :
    (a p q t : ℕ) (cs : List Cell)
    → Region a q t (coalesce (mark a p cs))
    → (q ≢ p) × Region a q t cs
coalesce-Region_back a p q t cs r = mark-Region_back a p q t cs (merged (mark a p cs) r)
  where
    merged : (ds : List Cell) → Region a q t (coalesce ds) → Region a q t ds
    merged [] r = r
    merged ((s, b) ∷ ds) r = join-Region_back a q t s b ds r

Chain-length :
    (f : ℕ → Block) (top a : ℕ) (cs : List Cell)
    → Chain f top a cs
    → a + block_size * length cs ≤ top
Chain-length f top a [] h = omega arith
Chain-length f top a ((s, b) ∷ cs) (e, rest) =
    omega (arith, Chain-length f top (a + block_size + s) cs rest)

-- Each block has a header, so that there are at most 174762 of them.
pub IsHeap-length : (heap : ℕ) (h : Heap) (cs : List Cell) → IsHeap heap h cs → length cs ≤ 174762
IsHeap-length heap h cs (inl (init, fl, chain)) =
    omega (arith, Chain-length h.header (heap + heap_size) heap cs chain)
IsHeap-length heap h cs (inr (init, e)) = omega (arith, ap length e)

-- Where no region is given out and no two free blocks are neighbours, the array is one free block.
pub IsHeap-whole :
    (heap : ℕ) (h : Heap) (cs : List Cell)
    → IsHeap heap h cs
    → Separated cs
    → ((q t : ℕ) → ¬ Region heap q t cs)
    → cs ≡ fresh_cells
IsHeap-whole heap h [] (inl (init, fl, chain)) sep none_out = absurd (omega arith)
IsHeap-whole heap h [] (inr (init, e)) sep none_out = e
IsHeap-whole heap h ((s, false) ∷ cs) is sep none_out =
    absurd (none_out (heap + block_size) s (inl (refl, refl, refl)))
IsHeap-whole heap h ((s, true) ∷ []) (inl (init, fl, chain)) sep none_out =
    ap (λ (n : ℕ). (n, true) ∷ []) (omega arith)
IsHeap-whole heap h ((s, true) ∷ []) (inr (init, e)) sep none_out = e
IsHeap-whole heap h ((s, true) ∷ (t, false) ∷ cs) is sep none_out =
    absurd (none_out (heap + block_size + s + block_size) t (inr (inl (refl, refl, refl))))
IsHeap-whole heap h ((s, true) ∷ (t, true) ∷ cs) is sep none_out = absurd (ground arith)
