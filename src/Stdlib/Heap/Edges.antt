-- ===== src/Stdlib/Heap/Edges.antt =====
-- Two results of malloc of sdk/src/stdlib.c at the edges: the largest sizes, and alignment.
use mathlib.Core.Path.{subst}
use axiome_toolchain.Base.{
  ℕ, ◌+◌, ◌-◌, ◌%◌, ◌≤◌, ◌<◌, ◌≡◌, refl, inr, ◌≢◌, true, false, [], ◌∷◌, some, arith, leb,
}
use axiome_toolchain.Memory.{null}
use axiome_toolchain.Stdlib.Heap.{block_size, heap_size, word, align16, Heap, malloc}
use axiome_toolchain.Stdlib.Heap.Chain.{IsHeap, carve, fit, fresh_cells}
use axiome_toolchain.Stdlib.Heap.Malloc.{Allocates, malloc-fit}

-- With the array inside the address space and not yet in use, and fuel of at least 2, a size in the
-- last 15 below 2^64 wraps around in ALIGN16 to 0, and malloc answers it with a non-null pointer to
-- a block of no bytes.
malloc_wraps :
    (fuel heap n : ℕ) (h : Heap)
    → h.heap_init ≡ false
    → heap ≢ null
    → heap + heap_size + 16 ≤ word
    → 1 < fuel
    → word < n + 16
    → n < word
    → (h' : Heap) × (malloc heap fuel n h ≡ some (heap + block_size, h'))
      × IsHeap heap h' ((0, false) ∷ (heap_size - block_size - block_size, true) ∷ [])
malloc_wraps fuel heap n h init ne small lt lo hi =
    let wraps : align16 n ≡ 0 = omega arith in
    let (h', run, made, err) =
      subst (λ k. Allocates heap fresh_cells h (fit heap k fresh_cells) (malloc heap fuel n h))
        wraps (malloc-fit fuel heap n fresh_cells h (inr (init, refl)) ne small lt (omega arith)) in
    (h', run, made)

-- With the array inside the address space, not yet in use and aligned to 16 bytes, and fuel of at
-- least 2, the pointer that malloc gives out for a positive size up to the array's less 40 is 8
-- modulo 16.
malloc_misaligned :
    (fuel heap n : ℕ) (h : Heap)
    → h.heap_init ≡ false
    → heap ≢ null
    → heap + heap_size + 16 ≤ word
    → 1 < fuel
    → 0 < n
    → n + 40 ≤ heap_size
    → heap % 16 ≡ 0
    → (p : ℕ) × (h' : Heap) × (malloc heap fuel n h ≡ some (p, h')) × (p % 16 ≡ 8)
malloc_misaligned fuel heap n h init ne small lt pos_n room aligned =
    let fits : leb (align16 n) (heap_size - block_size) ≡ true = ground arith in
    let found : fit heap (align16 n) fresh_cells
        ≡ some (heap + block_size, carve (align16 n) (heap_size - block_size) []) =
      rw fits refl in
    let (h', run, made, err) =
      subst (λ o. Allocates heap fresh_cells h o (malloc heap fuel n h)) found
        (malloc-fit fuel heap n fresh_cells h (inr (init, refl)) ne small lt pos_n) in
    (heap + block_size, h', run, omega arith)
