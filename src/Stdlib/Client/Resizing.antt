-- ===== src/Stdlib/Client/Resizing.antt =====
-- realloc of sdk/src/stdlib.c on the objects of a program.
use mathlib.Core.Path.{subst}
use axiome_toolchain.Base.{
  ℕ, ◌+◌, ◌≤◌, ◌<◌, ◌≡◌, ◌≢◌, refl, sym, ◌∙◌, ap, inl, inr, true, false, List, Option, none, some,
  arith, ltb, ◌==◌, Bool-cases, fun_ext,
}
use axiome_toolchain.Memory.{Memory, null}
use axiome_toolchain.Stdlib.Heap.{Heap, heap_size, word, malloc}
use axiome_toolchain.Stdlib.Heap.Chain.{Cell, IsHeap}
use axiome_toolchain.Stdlib.Heap.Regions.{Region, Region-le}
use axiome_toolchain.Stdlib.Heap.Merged.{Separated}
use axiome_toolchain.Stdlib.Alloc.{realloc}
use axiome_toolchain.Stdlib.Alloc.Moved.{
  IsHeap-header, realloc_grow, realloc_fail, realloc_stay, Region_ne, ForwardSafe-of_Apart,
  moved_in,
}
use axiome_toolchain.Strings.Copy.{memcpy}
use axiome_toolchain.Strings.Copy.Exact.{memcpy-moved, moved}
use axiome_toolchain.Stdlib.Client.{
  Object, Objects, allocate, resize, release, run, Allowed, resized, insert, delete,
}
use axiome_toolchain.Stdlib.Client.Tracks.{
  Tracks, Stands, Tracks-fresh, Tracks-insert, Tracks-replace,
}
use axiome_toolchain.Stdlib.Client.Serving.{
  Represents, Steps, Gets, malloc-Gets, allocate-Steps, release-Steps, free-Tracks,
}

realloc_of_null :
    (heap fuel n : ℕ) (h : Heap) (m : Memory)
    → realloc heap fuel null n h m ≡ run heap fuel (allocate n) h m
unfolding realloc run
realloc_of_null heap fuel n h m = refl

realloc_to_zero :
    (heap fuel p : ℕ) (h : Heap) (m : Memory)
    → p ≢ null
    → realloc heap fuel p 0 h m ≡ run heap fuel (release p) h m
unfolding realloc run
realloc_to_zero heap fuel p h m ne = let there : (p == null) ≡ false = ground arith in rw there refl

moved_outside :
    (q p s n a : ℕ) (m : Memory) → s < n → ¬ ((q ≤ a) × (a < q + n)) → moved q p s m a ≡ m a
moved_outside q p s n a m lt out = ground arith

==_other : (p q : ℕ) → p ≢ q → (p == q) ≡ false
==_other p q ne = ground arith

ltb→< : (i n : ℕ) → ltb i n ≡ true → i < n
ltb→< i n e = ground arith

-- What moved to `q` has the bytes that the larger object takes over.
moved-resized :
    (q p s n : ℕ) (m : Memory) (x : Object)
    → x.size ≤ s
    → Stands m p x
    → (i v : ℕ) → (resized n (some x)).bytes i ≡ some v
    → moved q p s m (q + i) ≡ v
moved-resized q p s n m x fits stands i v b = elim (Bool-cases (ltb i x.size)) [
  | inl old ↦
      let below = ltb→< i x.size old in
      moved_in q p s i m (omega (arith, below)) ∙ stands i v below (rw old at b)
  | inr past ↦ let b' : ◌≡◌ {A = Option ℕ} none (some v) = rw past at b in absurd (cc)
]

insert-delete : (p : ℕ) (x : Object) (o : Objects) → insert p x (delete p o) ≡ insert p x o
insert-delete p x o =
    fun_ext λ q. elim (Bool-cases (q == p)) [ inl here ↦ rw here refl | inr other ↦ rw other refl ]

delete-insert :
    (p q : ℕ) (x : Object) (o : Objects) → q ≢ p → delete p (insert q x o) ≡ insert q x (delete p o)
delete-insert p q x o ne = fun_ext λ r. elim (Bool-cases (r == p)) [
  | inl here ↦ let other : (r == q) ≡ false = ground arith in rw (here, other) refl
  | inr there ↦ rw there refl
]

module _ (heap fuel : ℕ) (in_place : heap ≢ null) (small : heap + heap_size + 16 ≤ word)
    (enough : 174762 < fuel) where
  -- A block that is large enough stays.
  stay-Steps :
      (p n s : ℕ) (cs : List Cell) (h : Heap) (m : Memory) (o : Objects) (x : Object)
      → IsHeap heap h cs
      → Separated cs
      → Tracks heap cs m o
      → o p ≡ some x
      → Region heap p s cs
      → x.size ≤ s
      → 0 < n
      → n ≤ s
      → Steps heap o (resize p n) (realloc heap fuel p n h m)
  stay-Steps p n s cs h m o x is sep t e r fits pn le =
      let ne : p ≢ null = omega (arith, Region-le heap p s cs r) in
      let there : (p == null) ≡ false = ground arith in
      let some_bytes : (n == 0) ≡ false = ground arith in
      let kept =
        Tracks-replace heap p s cs m m o (resized n (some x)) t r le (λ a out. refl)
          (λ i v lt b. elim (Bool-cases (ltb i x.size)) [
            | inl old ↦ t.bytes_lem p i v x e (ground arith) (rw old at b)
            | inr past ↦ let b' : ◌≡◌ {A = Option ℕ} none (some v) = rw past at b in absurd (cc)
          ]) in
      (
        p,
        h,
        m,
        realloc_stay heap fuel p n s h m ne pn (IsHeap-header heap p s cs h is r) le,
        inl refl,
        (cs, is, sep, rw (there, some_bytes, e, insert-delete) kept),
      )

  -- One that is too small moves, or stays when malloc has no other.
  grow-Steps :
      (p n s : ℕ) (cs : List Cell) (h : Heap) (m : Memory) (o : Objects) (x : Object)
      → IsHeap heap h cs
      → Separated cs
      → Tracks heap cs m o
      → o p ≡ some x
      → Region heap p s cs
      → x.size ≤ s
      → 0 < n
      → s < n
      → Gets heap n cs (malloc heap fuel n h)
      → Steps heap o (resize p n) (realloc heap fuel p n h m)
  grow-Steps p n s cs h m o x is sep t e r fits pn lt (inl (h', ran, is')) =
      let ne : p ≢ null = omega (arith, Region-le heap p s cs r) in
      let there : (p == null) ≡ false = ground arith in
      let some_bytes : (n == 0) ≡ false = ground arith in
      (
        null,
        h',
        m,
        realloc_fail heap fuel p n s h h' m ne pn (IsHeap-header heap p s cs h is r) lt ran,
        inr (inl refl),
        (cs, is', sep, rw (there, some_bytes) t),
      )
  grow-Steps p n s cs h m o x is sep t e r fits pn lt
        (inr (q, h', ds, ran, is', grants, keeps, nq)) =
      let ne : p ≢ null = omega (arith, Region-le heap p s cs r) in
      let there : (p == null) ≡ false = ground arith in
      let there' : (q == null) ≡ false = ground arith in
      let some_bytes : (n == 0) ≡ false = ground arith in
      let (k, region, large, keep, len) = grants in
      let (still, apart) = keep p s r in
      let other = Region_ne q k p s apart in
      let (_, copy) = memcpy-moved q p s m (ForwardSafe-of_Apart q k p s apart) in
      let x' : Object = resized n (some x) in
      let g : Memory = (memcpy q p s m).1 in
      let t' =
        Tracks-insert heap n q cs ds m g o x' t grants keeps (omega arith)
          (λ a out. copy a ∙ moved_outside q p s n a m lt out)
          (λ i v li b.
            copy (q + i)
            ∙ moved-resized q p s n m x fits (λ j u lj bj. t.bytes_lem p j u x e lj bj) i v b) in
      let elsewhere = ==_other p q (λ same. other (sym same)) in
      let kept : insert q x' o p ≡ some x = rw (elsewhere, e) refl in
      let (h'', freed, represents) =
        free-Tracks heap fuel in_place small enough p ds h' g (insert q x' o) is' t' (x, kept) in
      (
        q,
        h'',
        g,
        realloc_grow heap fuel p n s q h h' h'' m ne pn (IsHeap-header heap p s cs h is r) lt ran nq
            (IsHeap-header heap p s ds h' is' still) freed,
        inr (inr (Tracks-fresh heap n q cs ds m o t grants)),
        rw (there, some_bytes, there', e)
            (subst (Represents heap h'' g) (delete-insert p q x' o other) represents),
      )

  pub resize-Steps :
      (p n : ℕ) (h : Heap) (m : Memory) (o : Objects)
      → Represents heap h m o
      → Allowed o (resize p n)
      → Steps heap o (resize p n) (realloc heap fuel p n h m)
  resize-Steps p n h m o (cs, is, sep, t) (fits, inl z) =
      let (q, h', m', ran, fresh, represents) =
        allocate-Steps heap fuel in_place small enough n h m o (cs, is, sep, t) fits in
      (q, h', m', rw (z, realloc_of_null) ran, inr fresh, rw z represents)
  resize-Steps p n h m o (cs, is, sep, t) (fits, inr (x, e)) =
      let (s, r, le) = t.live_lem p x e in
      let ne : p ≢ null = omega (arith, Region-le heap p s cs r) in
      let there : (p == null) ≡ false = ground arith in
      elim (Bool-cases (n == 0)) [
        | inl empty ↦
            let (q, h', m', ran, answer, represents) =
              release-Steps heap fuel in_place small enough p h m o (cs, is, sep, t) (inr (x, e)) in
            let none_left : n ≡ 0 = ground arith in
            let run_zero =
              ap (λ k. realloc heap fuel p k h m) none_left ∙ realloc_to_zero heap fuel p h m ne in
            (q, h', m', run_zero ∙ ran, inr (inl answer), rw (there, empty) represents)
        | inr some_bytes ↦ elim (Bool-cases (ltb s n)) [
          | inl more ↦
              grow-Steps p n s cs h m o x is sep t e r le (ground arith) (ground arith)
                (malloc-Gets heap fuel in_place small enough n cs h is sep fits)
          | inr room ↦ stay-Steps p n s cs h m o x is sep t e r le (ground arith) (ground arith)
        ]
      ]
