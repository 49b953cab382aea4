-- ===== src/Stdlib/Alloc/Moved.antt =====
-- The bytes behind realloc of sdk/src/stdlib.c.
use mathlib.Core.Path.{subst}
use axiome_toolchain.Base.{
  ℕ, ◌+◌, ◌-◌, ◌≤◌, ◌<◌, ◌≡◌, refl, sym, ◌∙◌, ◌⊎◌, inl, inr, ◌≢◌, true, false, List, [], ◌∷◌, some,
  arith, length, ltb, leb, ◌==◌, Bool-cases,
}
use axiome_toolchain.Memory.{Memory, null, Apart}
use axiome_toolchain.Stdlib.Heap.{Block, Heap, block_size, heap_size, word, malloc, free}
use axiome_toolchain.Stdlib.Heap.Chain.{Cell, Chain, IsHeap, IsUsed}
use axiome_toolchain.Stdlib.Heap.Regions.{Region, Region-le, Serves, malloc-Serves, free-Region}
use axiome_toolchain.Stdlib.Alloc.{Answer, realloc}
use axiome_toolchain.Strings.Copy.{memcpy}
use axiome_toolchain.Strings.Copy.Exact.{moved, ForwardSafe, memcpy-moved}

pub Region-IsUsed : (a p size : ℕ) (cs : List Cell) → Region a p size cs → IsUsed a p cs
Region-IsUsed a p size [] r = r
Region-IsUsed a p size ((s, b) ∷ cs) (inl r) = inl (r.0, r.1)
Region-IsUsed a p size ((s, b) ∷ cs) (inr r) = inr (Region-IsUsed (a + block_size + s) p size cs r)

Region-header :
    (f : ℕ → Block) (top a p size : ℕ) (cs : List Cell)
    → Chain f top a cs
    → Region a p size cs
    → (f (p - block_size)).size ≡ size
Region-header f top a p size [] chain r = absurd r
Region-header f top a p size ((s, b) ∷ cs) (e, rest) (inl (at, used, len)) =
    let head : p - block_size ≡ a = omega arith in rw (head, e) (sym len)
Region-header f top a p size ((s, b) ∷ cs) (e, rest) (inr r) =
    Region-header f top (a + block_size + s) p size cs rest r

-- The header that realloc reads holds the size of the block given out.
pub IsHeap-header :
    (heap p size : ℕ) (cs : List Cell) (h : Heap)
    → IsHeap heap h cs
    → Region heap p size cs
    → (h.header (p - block_size)).size ≡ size
IsHeap-header heap p size cs h (inl (init, fl, chain)) r =
    Region-header h.header (heap + heap_size) heap p size cs chain r
IsHeap-header heap p size cs h (inr (init, e)) r =
    absurd (ground (arith, subst (Region heap p size) e r))

pub realloc_grow :
    (heap fuel ptr size old p : ℕ) (h h' h'' : Heap) (m : Memory)
    → ptr ≢ null
    → 0 < size
    → (h.header (ptr - block_size)).size ≡ old
    → old < size
    → malloc heap fuel size h ≡ some (p, h')
    → p ≢ null
    → (h'.header (ptr - block_size)).size ≡ old
    → free fuel ptr h' ≡ some h''
    → realloc heap fuel ptr size h m ≡ some (p, h'', (memcpy p ptr old m).1)
unfolding realloc
realloc_grow heap fuel ptr size old p h h' h'' m nptr ps head grow run np head' freed =
    let a : (ptr == null) ≡ false = ground arith in
    let b : (size == 0) ≡ false = ground arith in
    let c : leb size old ≡ false = ground arith in
    let d : (p == null) ≡ false = ground arith in
    let e : ltb old size ≡ true = ground arith in rw (a, b, head, c, run, head', d, e, freed) refl

pub realloc_fail :
    (heap fuel ptr size old : ℕ) (h h' : Heap) (m : Memory)
    → ptr ≢ null
    → 0 < size
    → (h.header (ptr - block_size)).size ≡ old
    → old < size
    → malloc heap fuel size h ≡ some (null, h')
    → realloc heap fuel ptr size h m ≡ some (null, h', m)
unfolding realloc
realloc_fail heap fuel ptr size old h h' m nptr ps head grow run =
    let a : (ptr == null) ≡ false = ground arith in
    let b : (size == 0) ≡ false = ground arith in
    let c : leb size old ≡ false = ground arith in rw (a, b, head, c, run) refl

pub realloc_stay :
    (heap fuel ptr size old : ℕ) (h : Heap) (m : Memory)
    → ptr ≢ null
    → 0 < size
    → (h.header (ptr - block_size)).size ≡ old
    → size ≤ old
    → realloc heap fuel ptr size h m ≡ some (ptr, h, m)
unfolding realloc
realloc_stay heap fuel ptr size old h m nptr ps head fits =
    let a : (ptr == null) ≡ false = ground arith in
    let b : (size == 0) ≡ false = ground arith in
    let c : leb size old ≡ true = ground arith in rw (a, b, head, c) refl

pub ForwardSafe-of_Apart :
    (p k q n : ℕ) → Apart p (k + block_size) q (n + block_size) → ForwardSafe p q n
ForwardSafe-of_Apart p k q n apart = omega arith

pub Region_ne : (p k q n : ℕ) → Apart p (k + block_size) q (n + block_size) → p ≢ q
Region_ne p k q n apart = omega arith

pub moved_in : (p q n j : ℕ) (m : Memory) → j < n → moved p q n m (p + j) ≡ m (q + j)
moved_in p q n j m lt = let e : p + j - p ≡ j = omega arith in ground (arith, e)

pub moved_out :
    (p q n x j : ℕ) (m : Memory) → (x + j < p) ⊎ (p + n ≤ x + j) → moved p q n m (x + j) ≡ m (x + j)
moved_out p q n x j m out = ground arith

-- What realloc has to answer for the region of `old` bytes at `ptr`: the region itself, null with
-- the blocks as they were, or a region elsewhere that begins with the old bytes. Other regions
-- remain, and their bytes too.
abbrev pub Moves : ℕ → ℕ → ℕ → ℕ → List Cell → Memory → Answer → Type 0
Moves heap ptr old size cs m call =
    (p : ℕ) × (h' : Heap) × (g : Memory) × (ds : List Cell) × (call ≡ some (p, h', g))
    × IsHeap heap h' ds
    × (((p ≡ ptr) × (size ≤ old) × (ds ≡ cs) × (g ≡ m))
        ⊎ (((p ≡ null) × (ds ≡ cs) × (g ≡ m))
            ⊎ ((k : ℕ) × Region heap p k ds
                × (size ≤ k)
                × ((j : ℕ) → j < old → g (p + j) ≡ m (ptr + j))
                × ((q n : ℕ)
                    → q ≢ ptr
                    → Region heap q n cs
                    → Region heap q n ds × ((j : ℕ) → j < n → g (q + j) ≡ m (q + j))))))

Serves-Moves :
    (heap fuel ptr old size : ℕ) (cs : List Cell) (h : Heap) (m : Memory)
    → ptr ≢ null
    → 0 < size
    → (h.header (ptr - block_size)).size ≡ old
    → old < size
    → Region heap ptr old cs
    → heap ≢ null
    → heap + heap_size + 16 ≤ word
    → length cs < fuel
    → Serves heap size cs h (malloc heap fuel size h)
    → Moves heap ptr old size cs m (realloc heap fuel ptr size h m)
Serves-Moves heap fuel ptr old size cs h m nptr ps head grow r ne small lt
      (p, h', ds, run, is, inl (e, same)) =
    let fail = realloc_fail heap fuel ptr size old h h' m nptr ps head grow in
    (null, h', m, ds, fail (run ∙ rw e refl), is, inr (inl (refl, same, refl)))
Serves-Moves heap fuel ptr old size cs h m nptr ps head grow r ne small lt
      (p, h', ds, run, is, inr ((k, new, le, keep, len), lo)) =
    let (there, apart) = keep ptr old r in
    let used = Region-IsUsed heap ptr old ds there in
    let (h'', es, freed, is', others) =
      free-Region fuel heap ptr ds h' is used ne small (omega arith) in
    let head' = IsHeap-header heap ptr old ds h' is there in
    let (_, copy) = memcpy-moved p ptr old m (ForwardSafe-of_Apart p k ptr old apart) in
    (
      p,
      h'',
      (memcpy p ptr old m).1,
      es,
      realloc_grow heap fuel ptr size old p h h' h'' m nptr ps head grow run (omega arith) head'
          freed,
      is',
      inr (
          inr (
            k,
            others p k (Region_ne p k ptr old apart) new,
            le,
            λ j l. copy (p + j) ∙ moved_in p ptr old j m l,
            λ q n other reg. (
              others q n other (keep q n reg).0,
              λ j l. copy (q + j) ∙ moved_out p ptr old q j m (omega (arith, (keep q n reg).1)),
            ),
          )),
    )

-- With the array inside the address space and fuel above the number of blocks, for a pointer given
-- out for `old` bytes and 0 < size <= 2^64 - 16, realloc ends. It answers with the same pointer if
-- the block is large enough already; or with null, blocks and bytes as they were; or with a region
-- of at least `size` bytes that begins with the old bytes. All other regions remain, with their
-- bytes.
pub realloc-Moves :
    (fuel heap ptr old size : ℕ) (cs : List Cell) (h : Heap) (m : Memory)
    → IsHeap heap h cs
    → Region heap ptr old cs
    → heap ≢ null
    → heap + heap_size + 16 ≤ word
    → length cs < fuel
    → 0 < size
    → size + 16 ≤ word
    → Moves heap ptr old size cs m (realloc heap fuel ptr size h m)
realloc-Moves fuel heap ptr old size cs h m is r ne small lt ps fits =
    let nptr : ptr ≢ null = omega (arith, Region-le heap ptr old cs r) in
    let head = IsHeap-header heap ptr old cs h is r in
    elim (Bool-cases (ltb old size)) [
      | inl grow ↦
          Serves-Moves heap fuel ptr old size cs h m nptr ps head (ground arith) r ne small lt
            (malloc-Serves fuel heap size cs h is ne small lt ps fits)
      | inr stay ↦ (
        ptr,
        h,
        m,
        cs,
        realloc_stay heap fuel ptr size old h m nptr ps head (ground arith),
        is,
        inl (refl, ground arith, refl, refl),
      )
    ]
