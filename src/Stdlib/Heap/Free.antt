-- ===== src/Stdlib/Heap/Free.antt =====
-- free of sdk/src/stdlib.c sets a block free and joins neighbouring free blocks.
use mathlib.Core.Path.{subst}
use axiome_toolchain.Base.{
  ℕ, zero, suc, ◌+◌, ◌-◌, ◌≤◌, ◌<◌, ◌≡◌, refl, sym, ap, ◌∙◌, inl, inr, ◌≢◌, Bool, true, false, ◌&&◌,
  List, [], ◌∷◌, Option, some, arith, length, ◌==◌, Bool-cases, ==_self,
}
use axiome_toolchain.Memory.{null}
use axiome_toolchain.Stdlib.Heap.{
  Block, block, Heap, update, put, block_size, heap_size, word, add64, merge_loop,
  merge_free_blocks, free,
}
use axiome_toolchain.Stdlib.Heap.Chain.{
  Cell, link, Chain, IsHeap, join, coalesce, IsUsed, mark, Chain-frame, Chain-le, IsUsed-le,
  link-mark, link-join, length-mark,
}
use axiome_toolchain.Stdlib.Heap.Malloc.{Above}

Chain-mark :
    (f : ℕ → Block) (top a p : ℕ) (cs : List Cell)
    → Chain f top a cs
    → IsUsed a p cs
    → Chain
        (update f (p - block_size) (record (f (p - block_size)) { free = true }))
        top
        a
        (mark a p cs)
Chain-mark f top a p [] chain used = absurd used
Chain-mark f top a p ((s, b) ∷ cs) (e, rest) (inl (at, taken)) =
    let here : (a + block_size == p) ≡ true = ground arith in
    let head : p - block_size ≡ a = omega arith in
    rw (here, head)
      (
        rw (==_self a, e) refl,
        Chain-frame f _ top (a + block_size + s) cs (λ x le. ground arith) rest,
      )
Chain-mark f top a p ((s, b) ∷ cs) (e, rest) (inr later) =
    let le = IsUsed-le (a + block_size + s) p cs later in
    let there : (a + block_size == p) ≡ false = ground arith in
    let apart : (a == p - block_size) ≡ false = ground arith in
    rw there (
      rw (apart, link-mark (a + block_size + s) p cs) e,
      Chain-mark f top (a + block_size + s) p cs rest later,
    )

-- The merge loop at the block of size `s` at `a`, in front of `cs`.
Joins : ℕ → ℕ → ℕ → Bool → List Cell → Heap → Option Heap → Type 0
Joins top a s b cs h call =
    (h' : Heap) × (call ≡ some h') × Chain h'.header top a (join s b cs) × Above a h h'

sum_fits :
    (top a s t : ℕ)
    → a + block_size + s + block_size + t ≤ top
    → top + 16 ≤ word
    → add64 s (add64 block_size t) ≡ s + (block_size + t)
sum_fits top a s t le small = omega arith

merge_step_join :
    (fuel a s t : ℕ) (b c : Bool) (q next : ℕ) (h : Heap)
    → h.header a ≡ block s b q
    → h.header q ≡ block t c next
    → a ≢ null
    → q ≢ null
    → (b && c) ≡ true
    → (z : ℕ) → add64 s (add64 block_size t) ≡ z
    → merge_loop (suc fuel) a h ≡ merge_loop fuel a (put a (block z b next) h)
unfolding merge_loop
merge_step_join fuel a s t b c q next h e eq na nq both z sum =
    let za : (a == null) ≡ false = ground arith in
    let zq : (q == null) ≡ false = ground arith in
    rw (za, e, zq, eq, both) (ap (λ n. merge_loop fuel a (put a (block n b next) h)) sum)

merge_step_pass :
    (fuel a s t : ℕ) (b c : Bool) (q next : ℕ) (h : Heap)
    → h.header a ≡ block s b q
    → h.header q ≡ block t c next
    → a ≢ null
    → q ≢ null
    → (b && c) ≡ false
    → merge_loop (suc fuel) a h ≡ merge_loop fuel q h
unfolding merge_loop
merge_step_pass fuel a s t b c q next h e eq na nq both =
    let za : (a == null) ≡ false = ground arith in
    let zq : (q == null) ≡ false = ground arith in rw (za, e, zq, eq, both) refl

merge_step_last :
    (fuel a s : ℕ) (b : Bool) (h : Heap)
    → h.header a ≡ block s b null
    → a ≢ null
    → merge_loop (suc fuel) a h ≡ some h
unfolding merge_loop
merge_step_last fuel a s b h e na = let za : (a == null) ≡ false = ground arith in rw (za, e) refl

Above-trans : (a : ℕ) (h k l : Heap) → Above a h k → Above a k l → Above a h l
Above-trans a h k l (x, y, z, w) (x', y', z', w') =
    (x' ∙ x, y' ∙ y, z' ∙ z, λ i lt. w' i lt ∙ w i lt)

Joins-join :
    (top a s t : ℕ) (b c : Bool) (cs : List Cell) (h k : Heap) (call call' : Option Heap)
    → (b && c) ≡ true
    → call ≡ call'
    → Above a h k
    → Joins top a (s + (block_size + t)) b cs k call'
    → Joins top a s b ((t, c) ∷ cs) h call
unfolding Joins
Joins-join top a s t b c cs h k call call' both e above (h', run, made, above') = (
  h',
  e ∙ run,
  subst (Chain h'.header top a) (sym joined) made,
  Above-trans a h k h' above above',
)
  where
    joined : join s b ((t, c) ∷ cs) ≡ join (s + (block_size + t)) b cs
    joined = rw (join, both) refl

Joins-pass :
    (top a s t : ℕ) (b c : Bool) (cs : List Cell) (h : Heap) (call call' : Option Heap)
    → (b && c) ≡ false
    → call ≡ call'
    → h.header a ≡ block s b (a + block_size + s)
    → Joins top (a + block_size + s) t c cs h call'
    → Joins top a s b ((t, c) ∷ cs) h call
unfolding Joins
Joins-pass top a s t b c cs h call call' one e head (h', run, made, (fl, init, err, same)) = (
  h',
  e ∙ run,
  subst (Chain h'.header top a) (sym passed) (rw link-join (same a (omega arith) ∙ head), made),
  (fl, init, err, λ x l. same x (omega arith)),
)
  where
    passed : join s b ((t, c) ∷ cs) ≡ (s, b) ∷ join t c cs
    passed = rw (join, one) refl

merge_loop-join :
    (fuel top a s : ℕ) (b : Bool) (cs : List Cell) (h : Heap)
    → Chain h.header top a ((s, b) ∷ cs)
    → a ≢ null
    → top + 16 ≤ word
    → length cs < fuel
    → Joins top a s b cs h (merge_loop fuel a h)
merge_loop-join zero top a s b cs h chain ne small lt = absurd (omega arith)
merge_loop-join (suc fuel) top a s b [] h (e, rest) ne small lt =
    unfold Joins in
    (h, merge_step_last fuel a s b h e ne, (e, rest), (refl, refl, refl, λ x l. refl))
merge_loop-join (suc fuel) top a s b ((t, c) ∷ cs) h (e, (e', rest)) ne small lt =
    let q : ℕ = a + block_size + s in
    let over : ℕ = q + block_size + t in
    let le = Chain-le h.header top over cs rest in
    let nq : q ≢ null = omega arith in
    elim (Bool-cases (b && c)) [
      | inl both ↦
          let sum = sum_fits top a s t le small in
          let k : Heap = put a (block (s + (block_size + t)) b (link over cs)) h in
          let at : a + block_size + (s + (block_size + t)) ≡ over = omega arith in
          let chain : Chain k.header top a ((s + (block_size + t), b) ∷ cs) = rw at (
            rw ==_self refl,
            Chain-frame h.header k.header top over cs (λ x l. ground arith) rest,
          ) in
          Joins-join top a s t b c cs h k _ _ both
            (merge_step_join fuel a s t b c q (link over cs) h e e' ne nq both _ sum)
            (refl, refl, refl, λ x l. ground arith)
            (merge_loop-join fuel top a (s + (block_size + t)) b cs k chain ne small (omega arith))
      | inr one ↦
          Joins-pass top a s t b c cs h _ _ one
            (merge_step_pass fuel a s t b c q (link over cs) h e e' ne nq one) e
            (merge_loop-join fuel top q t c cs h (e', rest) nq small (omega arith))
    ]

-- The merge over a non-empty list that starts at the array.
merge_free_blocks-coalesce :
    (fuel top a : ℕ) (cs : List Cell) (h : Heap)
    → h.free_list ≡ a
    → Chain h.header top a cs
    → 0 < length cs
    → a ≢ null
    → top + 16 ≤ word
    → length cs ≤ fuel
    → (h' : Heap) × (merge_free_blocks fuel h ≡ some h')
      × Chain h'.header top a (coalesce cs)
      × Above a h h'
      × (link a (coalesce cs) ≡ a)
unfolding merge_free_blocks Joins
merge_free_blocks-coalesce fuel top a [] h fl chain some_block ne small lt = absurd (omega arith)
merge_free_blocks-coalesce fuel top a ((s, b) ∷ cs) h fl chain some_block ne small lt =
    let (h', run, made, above) = merge_loop-join fuel top a s b cs h chain ne small (omega arith) in
    (h', ap (λ q. merge_loop fuel q h) fl ∙ run, made, above, link-join a s b cs)

free-some :
    (fuel p : ℕ) (h : Heap)
    → p ≢ null
    → free fuel p h
      ≡ merge_free_blocks fuel
          (put (p - block_size) (record (h.header (p - block_size)) { free = true }) h)
unfolding free
free-some fuel p h ne = ground arith

IsUsed-link : (a p : ℕ) (cs : List Cell) → IsUsed a p cs → (link a cs ≡ a) × (0 < length cs)
IsUsed-link a p [] used = absurd used
IsUsed-link a p (c ∷ cs) used = (refl, omega arith)

-- With the array inside the address space and fuel for the number of blocks, free of a pointer that
-- malloc gave out for a block still allocated ends, sets that block free, joins every run of free
-- neighbours into one block, and leaves a list that tiles the array again and `errno` alone.
pub free-coalesce :
    (fuel heap p : ℕ) (cs : List Cell) (h : Heap)
    → IsHeap heap h cs
    → IsUsed heap p cs
    → heap ≢ null
    → heap + heap_size + 16 ≤ word
    → length cs ≤ fuel
    → (h' : Heap) × (free fuel p h ≡ some h')
      × IsHeap heap h' (coalesce (mark heap p cs))
      × (h'.errno ≡ h.errno)
free-coalesce fuel heap p cs h (inl (init, fl, chain)) used ne small lt =
    let top = heap + heap_size in
    let (first, some_block) = IsUsed-link heap p cs used in
    let k = put (p - block_size) (record (h.header (p - block_size)) { free = true }) h in
    let marked = Chain-mark h.header top heap p cs chain used in
    let size = length-mark heap p cs in
    let (h', run, made, (fl', init', err, same), first') =
      merge_free_blocks-coalesce fuel top heap (mark heap p cs) k (fl ∙ first) marked (omega arith)
        ne small (omega arith) in
    (
      h',
      free-some fuel p h (omega (arith, IsUsed-le heap p cs used)) ∙ run,
      inl (init' ∙ init, fl' ∙ fl ∙ first ∙ sym first', made),
      err,
    )
free-coalesce fuel heap p cs h (inr (init, e)) used ne small lt =
    absurd (ground (arith, subst (IsUsed heap p) e used))
