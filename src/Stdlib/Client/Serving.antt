-- ===== src/Stdlib/Client/Serving.antt =====
-- malloc, calloc and free of sdk/src/stdlib.c on the objects of a program.
use axiome_toolchain.Base.{
  ℕ, ◌+◌, ◌≤◌, ◌<◌, ◌≡◌, ◌≢◌, refl, sym, ◌∙◌, ap, ◌⊎◌, inl, inr, false, List, Option, none, some,
  arith, ltb, ◌==◌, Bool-cases, fun_ext,
}
use axiome_toolchain.Memory.{Memory, null}
use axiome_toolchain.Stdlib.Heap.{Heap, heap_size, word, align16, malloc, free}
use axiome_toolchain.Stdlib.Heap.Chain.{Cell, IsHeap, mark, coalesce, fit}
use axiome_toolchain.Stdlib.Heap.Malloc.{Allocates, malloc-fit}
use axiome_toolchain.Stdlib.Heap.Free.{free-coalesce}
use axiome_toolchain.Stdlib.Heap.Regions.{Region-le, Grants, GrantsIf, fit-Grants, le-align16}
use axiome_toolchain.Stdlib.Heap.Merged.{Separated, coalesce-Separated, free_null}
use axiome_toolchain.Stdlib.Alloc.{Answer}
use axiome_toolchain.Stdlib.Alloc.Moved.{Region-IsUsed}
use axiome_toolchain.Stdlib.Client.{
  Object, Objects, Call, allocate, release, run, Owned, Allowed, next, Answers, blank, delete,
}
use axiome_toolchain.Stdlib.Client.Blocks.{Keeps, KeepsIf, fit-Keeps}
use axiome_toolchain.Stdlib.Client.Merging.{IsHeap-length}
use axiome_toolchain.Stdlib.Client.Tracks.{Tracks, Tracks-fresh, Tracks-insert, Tracks-delete}

-- The allocator and memory stand for the objects `o`.
abbrev pub Represents : ℕ → Heap → Memory → Objects → Type 0
Represents heap h m o = (cs : List Cell) × IsHeap heap h cs × Separated cs × Tracks heap cs m o

-- A call ends, with an answer that is allowed, and what is left stands for the objects after it.
abbrev pub Steps : ℕ → Objects → Call → Answer → Type 0
Steps heap o c call =
    (q : ℕ) × (h : Heap) × (m : Memory) × (call ≡ some (q, h, m))
    × Answers o c q
    × Represents heap h m (next o c q)

-- What malloc does with the blocks: nothing, or a region of `n` bytes comes.
abbrev pub Gets : ℕ → ℕ → List Cell → Option (ℕ × Heap) → Type 0
Gets heap n cs call =
    ((h : Heap) × (call ≡ some (null, h)) × IsHeap heap h cs)
    ⊎ ((p : ℕ) × (h : Heap) × (ds : List Cell) × (call ≡ some (p, h))
        × IsHeap heap h ds
        × Grants heap n p cs ds
        × Keeps heap p cs ds
        × (p ≢ null))

Allocates-Gets :
    (heap n k : ℕ) (cs : List Cell) (h : Heap) (o : Option (ℕ × List Cell))
    (call : Option (ℕ × Heap))
    → n ≤ k
    → GrantsIf heap k cs o
    → KeepsIf heap cs o
    → Allocates heap cs h o call
    → Gets heap n cs call
Allocates-Gets heap n k cs h none call le g s (h', run, made, err) = inl (h', run, made)
Allocates-Gets heap n k cs h (some (p, ds)) call le (size, r, lk, keep, len) s
      (h', run, made, err) =
    inr (
      p,
      h',
      ds,
      run,
      made,
      (size, r, omega arith, keep, len),
      s,
      omega (arith, Region-le heap p size ds r),
    )

malloc_zero : (heap fuel : ℕ) (h : Heap) → malloc heap fuel 0 h ≡ some (null, h)
unfolding malloc
malloc_zero heap fuel h = refl

module _ (heap fuel : ℕ) (in_place : heap ≢ null) (small : heap + heap_size + 16 ≤ word)
    (enough : 174762 < fuel) where
  pub malloc-Gets :
      (n : ℕ) (cs : List Cell) (h : Heap)
      → IsHeap heap h cs
      → Separated cs
      → n + 16 ≤ word
      → Gets heap n cs (malloc heap fuel n h)
  malloc-Gets n cs h is sep fits = elim (Bool-cases (ltb 0 n)) [
    | inl positive ↦
        Allocates-Gets heap n (align16 n) cs h (fit heap (align16 n) cs) _ (le-align16 n fits)
          (fit-Grants heap (align16 n) cs) (fit-Keeps heap (align16 n) cs sep)
          (malloc-fit fuel heap n cs h is in_place small (omega (arith, IsHeap-length heap h cs is))
            (ground arith))
    | inr empty ↦
        let zero_size : n ≡ 0 = ground arith in
        inl (h, ap (λ k. malloc heap fuel k h) zero_size ∙ malloc_zero heap fuel h, is)
  ]

  Gets-Steps :
      (n : ℕ) (cs : List Cell) (h : Heap) (m : Memory) (o : Objects)
      → Separated cs
      → Tracks heap cs m o
      → Gets heap n cs (malloc heap fuel n h)
      → Steps heap o (allocate n) (run heap fuel (allocate n) h m)
  unfolding run
  Gets-Steps n cs h m o sep t (inl (h', ran, is)) =
      (null, h', m, rw ran refl, inl refl, (cs, is, sep, t))
  Gets-Steps n cs h m o sep t (inr (p, h', ds, ran, is, grants, keeps, ne)) =
      let there : (p == null) ≡ false = ground arith in
      (
        p,
        h',
        m,
        rw ran refl,
        inr (Tracks-fresh heap n p cs ds m o t grants),
        (
          ds,
          is,
          keeps.0,
          rw there (
              Tracks-insert heap n p cs ds m m o (blank n) t grants keeps (omega arith)
                (λ x out. refl) (λ i v lt b. absurd (cc))),
        ),
      )

  pub allocate-Steps :
      (n : ℕ) (h : Heap) (m : Memory) (o : Objects)
      → Represents heap h m o
      → n + 16 ≤ word
      → Steps heap o (allocate n) (run heap fuel (allocate n) h m)
  allocate-Steps n h m o (cs, is, sep, t) fits =
      Gets-Steps n cs h m o sep t (malloc-Gets n cs h is sep fits)

  -- There is no object at the null pointer.
  pub no_object_at_null :
      (cs : List Cell) (m : Memory) (o : Objects) → Tracks heap cs m o → o null ≡ none
  no_object_at_null cs m o t = cases (o null) refl
    where
      cases : (y : Option Object) → o null ≡ y → o null ≡ none
      cases none e = e
      cases (some x) e =
          let (s, r, fits) = t.live_lem null x e in
          absurd (omega (arith, Region-le heap null s cs r))

  pub free-Tracks :
      (p : ℕ) (cs : List Cell) (h : Heap) (m : Memory) (o : Objects)
      → IsHeap heap h cs
      → Tracks heap cs m o
      → Owned o p
      → (h' : Heap) × (free fuel p h ≡ some h') × Represents heap h' m (delete p o)
  free-Tracks p cs h m o is t (x, e) =
      let (s, r, fits) = t.live_lem p x e in
      let (h', ran, is', err) =
        free-coalesce fuel heap p cs h is (Region-IsUsed heap p s cs r) in_place small
          (omega (arith, IsHeap-length heap h cs is)) in
      (
        h',
        ran,
        (
          coalesce (mark heap p cs),
          is',
          coalesce-Separated (mark heap p cs),
          Tracks-delete heap p cs m o t,
        ),
      )

  delete-absent : (p : ℕ) (o : Objects) → o p ≡ none → delete p o ≡ o
  delete-absent p o e = fun_ext λ q. elim (Bool-cases (q == p)) [
    | inl here ↦ let at : q ≡ p = ground arith in rw here (sym (ap o at ∙ e))
    | inr other ↦ rw other refl
  ]

  pub release-Steps :
      (p : ℕ) (h : Heap) (m : Memory) (o : Objects)
      → Represents heap h m o
      → Allowed o (release p)
      → Steps heap o (release p) (run heap fuel (release p) h m)
  unfolding run
  release-Steps p h m o (cs, is, sep, t) (inl z) =
      let absent = delete-absent null o (no_object_at_null cs m o t) in
      (null, h, m, rw (z, free_null) refl, refl, rw (z, absent) (cs, is, sep, t))
  release-Steps p h m o (cs, is, sep, t) (inr owned) =
      let (h', ran, represents) = free-Tracks p cs h m o is t owned in
      (null, h', m, rw ran refl, refl, represents)
