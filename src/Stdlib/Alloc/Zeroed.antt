-- ===== src/Stdlib/Alloc/Zeroed.antt =====
-- The bytes behind calloc of sdk/src/stdlib.c.
use native.Mathlib.Nat.{le-div_iff_mul-le}
use axiome_toolchain.Base.{
  ℕ, ◌+◌, ◌-◌, ◌*◌, ◌/◌, ◌%◌, ◌≤◌, ◌<◌, ◌≡◌, refl, ◌∙◌, ◌⊎◌, inl, inr, ◌≢◌, ◌↔◌, true, false, ◌&&◌,
  ◌||◌, List, some, arith, length, ltb, leb, ◌==◌, if◌then◌else◌,
}
use axiome_toolchain.Memory.{Memory, null}
use axiome_toolchain.Stdlib.Heap.{Heap, heap_size, word, enomem, malloc}
use axiome_toolchain.Stdlib.Heap.Chain.{Cell, IsHeap}
use axiome_toolchain.Stdlib.Heap.Regions.{Grants, Serves, malloc-Serves}
use axiome_toolchain.Stdlib.Alloc.{Answer, calloc}
use axiome_toolchain.Strings.Copy.{memset}
use axiome_toolchain.Strings.Copy.Exact.{memset-fill}

-- calloc's division test is true just when the product does not fit a `size_t`.
overflow_iff :
    (nmemb size : ℕ) → 0 < size → (ltb ((word - 1) / size) nmemb ≡ true) ↔ (word ≤ nmemb * size)
overflow_iff nmemb size pos_size =
    let e = le-div_iff_mul-le {k = size} {x = nmemb} {y = word - 1} pos_size in
    (
      λ h. ground (arith, λ (fits : nmemb * size ≤ word - 1). e.1 fits),
      λ h. ground (arith, λ (fits : nmemb ≤ (word - 1) / size). e.0 fits),
    )

-- What calloc has to answer for `total` bytes on the blocks `cs`.
abbrev pub Zeroes : ℕ → ℕ → List Cell → Memory → Answer → Type 0
Zeroes heap total cs m call =
    (p : ℕ) × (h' : Heap) × (g : Memory) × (ds : List Cell) × (call ≡ some (p, h', g))
    × IsHeap heap h' ds
    × (((p ≡ null) × (ds ≡ cs) × (g ≡ m))
        ⊎ (Grants heap total p cs ds
            × ((x : ℕ) → g x ≡ (if leb p x && ltb x (p + total) then 0 else m x))))

pub calloc-run :
    (heap fuel nmemb size p : ℕ) (h h' : Heap) (m : Memory)
    → 0 < nmemb
    → 0 < size
    → nmemb * size < word
    → malloc heap fuel (nmemb * size) h ≡ some (p, h')
    → calloc heap fuel nmemb size h m
      ≡ some (p, h', if p == null then m else (memset p 0 (nmemb * size) m).1)
unfolding calloc
calloc-run heap fuel nmemb size p h h' m pn ps fits run =
    let none_zero : (nmemb == 0 || size == 0) ≡ false = ground arith in
    let no_overflow : ltb ((word - 1) / size) nmemb ≡ false =
      ground (arith, (overflow_iff nmemb size ps).0) in
    let total : nmemb * size % word ≡ nmemb * size = ground arith in
    rw (none_zero, no_overflow, total, run) refl

-- When the product of two positive arguments passes 2^64 - 1, calloc returns null, sets `errno` to
-- ENOMEM and changes nothing else.
pub calloc-overflow :
    (heap fuel nmemb size : ℕ) (h : Heap) (m : Memory)
    → 0 < nmemb
    → 0 < size
    → word ≤ nmemb * size
    → calloc heap fuel nmemb size h m ≡ some (null, record h { errno = enomem }, m)
unfolding calloc
calloc-overflow heap fuel nmemb size h m pn ps over =
    let none_zero : (nmemb == 0 || size == 0) ≡ false = ground arith in
    rw (none_zero, (overflow_iff nmemb size ps).1 over) refl

Serves-Zeroes :
    (heap fuel nmemb size : ℕ) (cs : List Cell) (h : Heap) (m : Memory)
    → 0 < nmemb
    → 0 < size
    → nmemb * size < word
    → Serves heap (nmemb * size) cs h (malloc heap fuel (nmemb * size) h)
    → Zeroes heap (nmemb * size) cs m (calloc heap fuel nmemb size h m)
Serves-Zeroes heap fuel nmemb size cs h m pn ps fits (p, h', ds, run, is, inl (e, same)) =
    let call = calloc-run heap fuel nmemb size p h h' m pn ps fits run in
    (p, h', m, ds, call ∙ rw e refl, is, inl (e, same, refl))
Serves-Zeroes heap fuel nmemb size cs h m pn ps fits (p, h', ds, run, is, inr (grants, le)) =
    let call = calloc-run heap fuel nmemb size p h h' m pn ps fits run in
    let z : (p == null) ≡ false = ground arith in
    (
      p,
      h',
      (memset p 0 (nmemb * size) m).1,
      ds,
      call ∙ rw z refl,
      is,
      inr (grants, (memset-fill p 0 (nmemb * size) m).1),
    )

-- With the array inside the address space and fuel above the number of blocks, for positive
-- arguments whose product is at most 2^64 - 16, calloc either returns null and leaves blocks and
-- bytes as they were, or gives out a region that holds the product, apart from those given out
-- before, sets that many bytes of it to 0 and changes no other byte.
calloc-Zeroes :
    (fuel heap nmemb size : ℕ) (cs : List Cell) (h : Heap) (m : Memory)
    → IsHeap heap h cs
    → heap ≢ null
    → heap + heap_size + 16 ≤ word
    → length cs < fuel
    → 0 < nmemb
    → 0 < size
    → nmemb * size + 16 ≤ word
    → Zeroes heap (nmemb * size) cs m (calloc heap fuel nmemb size h m)
calloc-Zeroes fuel heap nmemb size cs h m is ne small lt pn ps fits =
    Serves-Zeroes heap fuel nmemb size cs h m pn ps (omega arith)
      (malloc-Serves fuel heap (nmemb * size) cs h is ne small lt (grind arith) fits)
