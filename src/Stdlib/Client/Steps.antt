-- ===== src/Stdlib/Client/Steps.antt =====
-- Every call of a program to the allocator of sdk/src/stdlib.c, calloc and realloc included.
use axiome_toolchain.Base.{
  ℕ, ◌+◌, ◌*◌, ◌≤◌, ◌<◌, ◌≡◌, ◌≢◌, refl, ◌∙◌, ◌⊎◌, inl, inr, true, false, List, Option, some, arith,
  ◌==◌, ◌||◌, Bool-cases,
}
use axiome_toolchain.Memory.{Memory, null, store}
use axiome_toolchain.Stdlib.Heap.{Heap, heap_size, word, enomem, malloc}
use axiome_toolchain.Stdlib.Heap.Chain.{Cell}
use axiome_toolchain.Stdlib.Heap.Merged.{Separated}
use axiome_toolchain.Stdlib.Alloc.{calloc}
use axiome_toolchain.Stdlib.Alloc.Zeroed.{calloc-run, calloc-overflow}
use axiome_toolchain.Strings.Copy.{memset}
use axiome_toolchain.Strings.Copy.Exact.{memset-fill}
use axiome_toolchain.Stdlib.Client.{
  Object, Objects, Call, allocate, zeroed, resize, release, poke, run, Allowed, zeros, written,
}
use axiome_toolchain.Stdlib.Client.Tracks.{Tracks, Tracks-fresh, Tracks-insert, Tracks-replace}
use axiome_toolchain.Stdlib.Client.Resizing.{resize-Steps}
use axiome_toolchain.Stdlib.Client.Serving.{
  Represents, Steps, Gets, malloc-Gets, allocate-Steps, release-Steps,
}

calloc_none :
    (heap fuel count size : ℕ) (h : Heap) (m : Memory)
    → (count ≡ 0) ⊎ (size ≡ 0)
    → calloc heap fuel count size h m ≡ some (null, h, m)
unfolding calloc
calloc_none heap fuel count size h m e =
    let test : (count == 0 || size == 0) ≡ true = ground arith in rw test refl

module _ (heap fuel : ℕ) (in_place : heap ≢ null) (small : heap + heap_size + 16 ≤ word)
    (enough : 174762 < fuel) where
  Gets-zeroed :
      (count size : ℕ) (cs : List Cell) (h : Heap) (m : Memory) (o : Objects)
      → 0 < count
      → 0 < size
      → count * size < word
      → Separated cs
      → Tracks heap cs m o
      → Gets heap (count * size) cs (malloc heap fuel (count * size) h)
      → Steps heap o (zeroed count size) (calloc heap fuel count size h m)
  Gets-zeroed count size cs h m o pc ps fits sep t (inl (h', ran, is)) = (
    null,
    h',
    m,
    calloc-run heap fuel count size null h h' m pc ps fits ran,
    inl refl,
    (cs, is, sep, t),
  )
  Gets-zeroed count size cs h m o pc ps fits sep t (inr (p, h', ds, ran, is, grants, keeps, ne)) =
      let there : (p == null) ≡ false = ground arith in
      let n = count * size in
      let fill = (memset-fill p 0 n m).1 in
      (
        p,
        h',
        (memset p 0 n m).1,
        calloc-run heap fuel count size p h h' m pc ps fits ran ∙ rw there refl,
        inr (Tracks-fresh heap n p cs ds m o t grants),
        (
          ds,
          is,
          keeps.0,
          rw there (
              Tracks-insert heap n p cs ds m (memset p 0 n m).1 o (zeros n) t grants keeps
                (omega arith) (λ x out. ground (arith, fill x))
                (λ i v lt b. ground (arith, fill (p + i)))),
        ),
      )

  zeroed-Steps :
      (count size : ℕ) (h : Heap) (m : Memory) (o : Objects)
      → Represents heap h m o
      → Allowed o (zeroed count size)
      → Steps heap o (zeroed count size) (calloc heap fuel count size h m)
  zeroed-Steps count size h m o (cs, is, sep, t) allowed =
      elim (Bool-cases (count == 0 || size == 0)) [
        | inl empty ↦ (
          null,
          h,
          m,
          calloc_none heap fuel count size h m (ground arith),
          inl refl,
          (cs, is, sep, t),
        )
        | inr positive ↦ elim allowed [
          | inl fits ↦
              Gets-zeroed count size cs h m o (ground arith) (ground arith) (omega arith) sep t
                (malloc-Gets heap fuel in_place small enough (count * size) cs h is sep fits)
          | inr over ↦ (
            null,
            record h { errno = enomem },
            m,
            calloc-overflow heap fuel count size h m (ground arith) (ground arith) over,
            inl refl,
            (cs, is, sep, t),
          )
        ]
      ]

  poke-Steps :
      (p i v : ℕ) (h : Heap) (m : Memory) (o : Objects)
      → Represents heap h m o
      → Allowed o (poke p i v)
      → Steps heap o (poke p i v) (run heap fuel (poke p i v) h m)
  unfolding run
  poke-Steps p i v h m o (cs, is, sep, t) (x, e, lt) =
      let (s, r, fits) = t.live_lem p x e in
      let x' : Object = written i v (some x) in
      (
        null,
        h,
        store m (p + i) v,
        refl,
        refl,
        (
          cs,
          is,
          sep,
          rw e (
              Tracks-replace heap p s cs m (store m (p + i) v) o x' t r fits (λ a out. ground arith)
                (λ j u lj b. elim (Bool-cases (j == i)) [
                  | inl here ↦
                      let b' : ◌≡◌ {A = Option ℕ} (some v) (some u) = rw here at b in ground arith
                  | inr other ↦ ground (arith, t.bytes_lem p j u x e lj (rw other at b))
                ])),
        ),
      )

  -- With the array inside the address space and fuel above 174762, where the allocator and memory
  -- stand for a store of separate objects, each call that heeds the rules ends, whatever it is: the
  -- answer is null or a pointer at which there was no object, or for realloc the pointer that it was
  -- given, and the allocator and memory stand for the store that the call makes of the old one. There
  -- an object keeps its bytes until it is freed or written to, calloc sets them to 0, and realloc
  -- takes them along, as far as the new object reaches.
  pub run-Steps :
      (c : Call) (h : Heap) (m : Memory) (o : Objects)
      → Represents heap h m o
      → Allowed o c
      → Steps heap o c (run heap fuel c h m)
  unfolding run
  run-Steps (allocate n) h m o r a = allocate-Steps heap fuel in_place small enough n h m o r a
  run-Steps (zeroed count size) h m o r a = zeroed-Steps count size h m o r a
  run-Steps (resize p n) h m o r a = resize-Steps heap fuel in_place small enough p n h m o r a
  run-Steps (release p) h m o r a = release-Steps heap fuel in_place small enough p h m o r a
  run-Steps (poke p i v) h m o r a = poke-Steps p i v h m o r a
