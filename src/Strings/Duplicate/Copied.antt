-- ===== src/Strings/Duplicate/Copied.antt =====
-- The copy that strdup of sdk/src/string.c makes.
use axiome_toolchain.Base.{
  ℕ, suc, ◌+◌, ◌-◌, ◌≤◌, ◌<◌, ◌≡◌, refl, ◌∙◌, ◌≢◌, ◌⊎◌, inl, inr, List, [], ◌∷◌, false, some, arith,
  length, ◌==◌, if◌then◌else◌,
}
use axiome_toolchain.Memory.{Memory, null, CString, SameOutside, Apart}
use axiome_toolchain.Stdlib.Heap.{Heap, block_size, heap_size, word, malloc}
use axiome_toolchain.Stdlib.Heap.Chain.{Cell, IsHeap}
use axiome_toolchain.Stdlib.Heap.Regions.{Region, Region-bounds, Grants, Serves, malloc-Serves}
use axiome_toolchain.Stdlib.Alloc.{Answer}
use axiome_toolchain.Strings.Copy.{memcpy}
use axiome_toolchain.Strings.Copy.Exact.{moved, memcpy-moved}
use axiome_toolchain.Strings.Scan.Place.{strlen-length}
use axiome_toolchain.Strings.Duplicate.{strdup}

-- The `n` bytes at `s` are no spare bytes of the array: they lie outside it or in a region that was
-- given out.
abbrev pub IsOwned : ℕ → List Cell → ℕ → ℕ → Type 0
IsOwned heap cs s n =
    Apart s n heap heap_size ⊎ ((q : ℕ) × (k : ℕ) × Region heap q k cs × (q ≤ s) × (s + n ≤ q + k))

-- Bytes moved to a place apart from a string make a copy of it.
moved-CString :
    (m g : Memory) (d s : ℕ) (xs : List ℕ)
    → ((j : ℕ) → j < length xs + 1 → g (d + j) ≡ m (s + j))
    → CString m s xs
    → CString g d xs
moved-CString m g d s [] same h = ground (arith, same 0)
moved-CString m g d s (x ∷ xs) same h = (
  ground (arith, same 0),
  h.1,
  moved-CString m g (suc d) (suc s) xs (λ j lt. shift j (same (suc j) (omega arith))) h.2,
)
  where
    shift : (j : ℕ) → g (d + suc j) ≡ m (s + suc j) → g (suc d + j) ≡ m (suc s + j)
    shift j e = ground arith

strdup-run :
    (heap fuel s p : ℕ) (xs : List ℕ) (h h' : Heap) (m : Memory)
    → s ≢ null
    → CString m s xs
    → length xs < fuel
    → malloc heap fuel (length xs + 1) h ≡ some (p, h')
    → strdup heap fuel s h m
      ≡ some (p, h', if p == null then m else (memcpy p s (length xs + 1) m).1)
unfolding strdup
strdup-run heap fuel s p xs h h' m ns str lt run =
    let a : (s == null) ≡ false = ground arith in rw (a, strlen-length fuel s m xs str lt, run) refl

-- What strdup has to answer for the string `xs` at `s`: null with blocks and bytes as they were, or
-- the address of a copy in a region of its own, no byte outside the copy being changed.
abbrev pub Duplicates : ℕ → List ℕ → List Cell → Memory → Answer → Type 0
Duplicates heap xs cs m call =
    (p : ℕ) × (h' : Heap) × (g : Memory) × (ds : List Cell) × (call ≡ some (p, h', g))
    × IsHeap heap h' ds
    × (((p ≡ null) × (ds ≡ cs) × (g ≡ m))
        ⊎ (Grants heap (length xs + 1) p cs ds
            × CString g p xs
            × SameOutside p (length xs + 1) m g))

owned-Apart :
    (heap s p n : ℕ) (cs ds : List Cell)
    → IsOwned heap cs s n
    → Grants heap n p cs ds
    → heap + block_size ≤ p
    → ((size : ℕ) → Region heap p size ds → p + size ≤ heap + heap_size)
    → Apart p n s n
owned-Apart heap s p n cs ds (inl out) (k, r, le, keep, len) lo end = omega (arith, end k r)
owned-Apart heap s p n cs ds (inr (q, z, old, from, to)) (k, r, le, keep, len) lo end =
    omega (arith, (keep q z old).1)

Serves-Duplicates :
    (heap fuel s : ℕ) (xs : List ℕ) (cs : List Cell) (h : Heap) (m : Memory)
    → s ≢ null
    → CString m s xs
    → length xs < fuel
    → IsOwned heap cs s (length xs + 1)
    → Serves heap (length xs + 1) cs h (malloc heap fuel (length xs + 1) h)
    → Duplicates heap xs cs m (strdup heap fuel s h m)
Serves-Duplicates heap fuel s xs cs h m ns str lt own (p, h', ds, run, is, inl (e, same)) =
    let call = strdup-run heap fuel s p xs h h' m ns str lt run in
    (p, h', m, ds, call ∙ rw e refl, is, inl (e, same, refl))
Serves-Duplicates heap fuel s xs cs h m ns str lt own (p, h', ds, run, is, inr (grants, lo)) =
    let n : ℕ = length xs + 1 in
    let z : (p == null) ≡ false = ground arith in
    let apart =
      owned-Apart heap s p n cs ds own grants lo (λ k r. Region-bounds heap p k ds h' is r) in
    let g : Memory = (memcpy p s n m).1 in
    let (_, copy) = memcpy-moved p s n m (omega arith) in
    (
      p,
      h',
      g,
      ds,
      strdup-run heap fuel s p xs h h' m ns str lt run ∙ rw z refl,
      is,
      inr (
        grants,
        moved-CString m g p s xs (λ j l. copy (p + j) ∙ inside p s n j m l) str,
        λ x out. copy x ∙ outside p s n x m out,
      ),
    )
  where
    inside : (p s n j : ℕ) (m : Memory) → j < n → moved p s n m (p + j) ≡ m (s + j)
    inside p s n j m l = let e : p + j - p ≡ j = omega arith in ground (arith, e)

    outside : (p s n x : ℕ) (m : Memory) → ¬ ((p ≤ x) × (x < p + n)) → moved p s n m x ≡ m x
    outside p s n x m out = ground arith

-- With the array inside the address space, for a string that does not lie in spare bytes of the
-- array and is shorter than 2^64 - 16 bytes, with fuel above its length and the number of blocks,
-- strdup either returns null and leaves blocks and bytes as they were, or returns a new region,
-- apart from those given out before, that holds the string. No other byte changes.
pub strdup-Duplicates :
    (fuel heap s : ℕ) (xs : List ℕ) (cs : List Cell) (h : Heap) (m : Memory)
    → s ≢ null
    → CString m s xs
    → IsOwned heap cs s (length xs + 1)
    → IsHeap heap h cs
    → heap ≢ null
    → heap + heap_size + 16 ≤ word
    → length cs < fuel
    → length xs < fuel
    → length xs + 17 ≤ word
    → Duplicates heap xs cs m (strdup heap fuel s h m)
strdup-Duplicates fuel heap s xs cs h m ns str own is ne small lt ls fits =
    Serves-Duplicates heap fuel s xs cs h m ns str ls own
      (malloc-Serves fuel heap (length xs + 1) cs h is ne small lt (omega arith) (omega arith))
