-- ===== src/Stdlib/Heap/Malloc.antt =====
-- malloc of sdk/src/stdlib.c is first fit on the list of blocks.
use mathlib.Core.Path.{subst}
use axiome_toolchain.Base.{
  ℕ, zero, suc, ◌+◌, ◌-◌, ◌≤◌, ◌<◌, ◌≡◌, refl, sym, ap, ◌∙◌, inl, inr, ◌≢◌, Bool, true, false, ◌&&◌,
  List, [], ◌∷◌, Option, none, some, arith, length, leb, ◌==◌, Bool-cases, ==_self,
}
use axiome_toolchain.Memory.{null}
use axiome_toolchain.Stdlib.Heap.{
  Block, block, Heap, put, block_size, heap_size, word, enomem, align16, add64, sub64, init_heap,
  split_block, take_block, malloc_loop, malloc,
}
use axiome_toolchain.Stdlib.Heap.Chain.{
  Cell, link, Chain, IsHeap, fresh_cells, carve, behind, fit, Chain-frame, Chain-le,
}

-- `h'` is `h` but for headers at or above `a`.
abbrev pub Above : ℕ → Heap → Heap → Type 0
Above a h h' =
    (h'.free_list ≡ h.free_list)
    × (h'.heap_init ≡ h.heap_init)
    × (h'.errno ≡ h.errno)
    × ((x : ℕ) → x < a → h'.header x ≡ h.header x)

split_fits :
    (top a n s : ℕ)
    → a + block_size + s ≤ top
    → top + 16 ≤ word
    → a ≢ null
    → n ≤ s
    → (add64 (add64 n block_size) 16 ≡ n + block_size + 16)
      × (n + block_size + 16 ≤ s → sub64 (sub64 s n) block_size ≡ s - n - block_size)
split_fits top a n s le small ne fits = (omega arith, λ room. omega arith)

take_block_split :
    (a n s next : ℕ) (h : Heap)
    → h.header a ≡ block s true next
    → leb (add64 (add64 n block_size) 16) s ≡ true
    → take_block a n h
      ≡ put a (block n false (a + block_size + n)) (
          put a
            (block n true (a + block_size + n))
            (put (a + block_size + n) (block (sub64 (sub64 s n) block_size) true next) h))
unfolding take_block split_block
take_block_split a n s next h e fits = rw (e, fits, ==_self a) refl

take_block_whole :
    (a n s next : ℕ) (h : Heap)
    → h.header a ≡ block s true next
    → leb (add64 (add64 n block_size) 16) s ≡ false
    → take_block a n h ≡ put a (block s false next) h
unfolding take_block split_block
take_block_whole a n s next h e fits =
    rw (e, fits) (ap (λ (b : Block). put a (record b { free = false }) h) e)

take_block-carve :
    (top a n s : ℕ) (cs : List Cell) (h : Heap)
    → Chain h.header top a ((s, true) ∷ cs)
    → a ≢ null
    → top + 16 ≤ word
    → n ≤ s
    → Chain (take_block a n h).header top a (carve n s cs) × Above a h (take_block a n h)
take_block-carve top a n s cs h (e, rest) ne small le =
    let above = Chain-le h.header top (a + block_size + s) cs rest in
    let (guard, size) = split_fits top a n s above small ne le in
    let behind_a : ℕ = a + block_size + s in
    elim (Bool-cases (leb (n + block_size + 16) s)) [
      | inl fits ↦
          let room : n + block_size + 16 ≤ s = ground arith in
          let q : ℕ = a + block_size + n in
          let at : q + block_size + (s - n - block_size) ≡ behind_a = omega arith in
          rw (take_block_split a n s (link behind_a cs) h e (rw guard fits), fits, size room, at)
            (
              (
                rw ==_self refl,
                (ground arith, Chain-frame h.header _ top behind_a cs (λ x le. ground arith) rest),
              ),
              (refl, refl, refl, λ x lt. ground arith),
            )
      | inr fits ↦
          rw (take_block_whole a n s (link behind_a cs) h e (rw guard fits), fits)
            (
              (rw ==_self refl, Chain-frame h.header _ top behind_a cs (λ x le. ground arith) rest),
              (refl, refl, refl, λ x lt. ground arith),
            )
    ]

-- What the search over the blocks `cs` at `a` for `n` bytes has to return from the state `h`.
abbrev pub Fits : ℕ → ℕ → List Cell → Heap → Option (ℕ × List Cell) → Option (ℕ × Heap) → Type 0
Fits top a cs h none call = call ≡ some (null, record h { errno = enomem })
Fits top a cs h (some (p, ds)) call =
    (h' : Heap) × (call ≡ some (p, h'))
    × Chain h'.header top a ds
    × Above a h h'
    × (link a ds ≡ link a cs)

Fits-behind :
    (top a s : ℕ) (b : Bool) (cs : List Cell) (h : Heap) (o : Option (ℕ × List Cell))
    (call : Option (ℕ × Heap))
    → h.header a ≡ block s b (link (a + block_size + s) cs)
    → Fits top (a + block_size + s) cs h o call
    → Fits top a ((s, b) ∷ cs) h (behind (s, b) o) call
Fits-behind top a s b cs h none call e r = r
Fits-behind top a s b cs h (some (p, ds)) call e (h', run, chain, (fl, init, err, same), first) = (
  h',
  run,
  (rw first (same a (omega arith) ∙ e), chain),
  (fl, init, err, λ x lt. same x (omega arith)),
  refl,
)

link-carve : (a n s : ℕ) (cs : List Cell) → link a (carve n s cs) ≡ a
link-carve a n s cs = elim (Bool-cases (leb (n + block_size + 16) s)) [
  | inl e ↦ rw e refl
  | inr e ↦ rw e refl
]

malloc_loop-Fits :
    (fuel top a n : ℕ) (cs : List Cell) (h : Heap)
    → Chain h.header top a cs
    → a ≢ null
    → top + 16 ≤ word
    → length cs < fuel
    → Fits top a cs h (fit a n cs) (malloc_loop fuel (link a cs) n h)
unfolding malloc_loop
malloc_loop-Fits zero top a n cs h chain ne small lt = absurd (omega arith)
malloc_loop-Fits (suc fuel) top a n [] h chain ne small lt = refl
malloc_loop-Fits (suc fuel) top a n ((s, b) ∷ cs) h (e, rest) ne small lt =
    let z : (a == null) ≡ false = ground arith in
    elim (Bool-cases (b && leb n s)) [
      | inl hit ↦
          let whole : Chain h.header top a ((s, true) ∷ cs) = ground arith in
          let (chain, above) = take_block-carve top a n s cs h whole ne small (ground arith) in
          rw (z, e, hit) (take_block a n h, refl, chain, above, link-carve a n s cs)
      | inr miss ↦
          rw (z, e, miss)
            (Fits-behind top a s b cs h (fit (a + block_size + s) n cs) _ e (
              malloc_loop-Fits fuel top (a + block_size + s) n cs h rest (omega arith) small
                (omega arith)))
    ]

-- What a call to malloc has to do on the blocks `cs`, `o` being what first fit finds: return the
-- place found, or null with `errno` set and the blocks as they were.
abbrev pub Allocates : ℕ → List Cell → Heap → Option (ℕ × List Cell) → Option (ℕ × Heap) → Type 0
Allocates heap cs h none call =
    (h' : Heap) × (call ≡ some (null, h')) × IsHeap heap h' cs × (h'.errno ≡ enomem)
Allocates heap cs h (some (p, ds)) call =
    (h' : Heap) × (call ≡ some (p, h')) × IsHeap heap h' ds × (h'.errno ≡ h.errno)

Fits-Allocates :
    (heap : ℕ) (cs : List Cell) (h : Heap) (o : Option (ℕ × List Cell)) (call : Option (ℕ × Heap))
    → h.heap_init ≡ true
    → h.free_list ≡ link heap cs
    → Chain h.header (heap + heap_size) heap cs
    → Fits (heap + heap_size) heap cs h o call
    → Allocates heap cs h o call
Fits-Allocates heap cs h none call init fl chain run =
    (record h { errno = enomem }, run, inl (init, fl, chain), refl)
Fits-Allocates heap cs h (some (p, ds)) call init fl chain
      (h', run, made, (fl', init', err, same), first) =
    (h', run, inl (init' ∙ init, fl' ∙ fl ∙ sym first, made), err)

init_heap-fresh :
    (heap : ℕ) (h : Heap)
    → h.heap_init ≡ false
    → ((init_heap heap h).heap_init ≡ true)
      × ((init_heap heap h).free_list ≡ link heap fresh_cells)
      × Chain (init_heap heap h).header (heap + heap_size) heap fresh_cells
      × ((init_heap heap h).errno ≡ h.errno)
unfolding init_heap
init_heap-fresh heap h e = rw e (refl, refl, (rw ==_self refl, omega arith), refl)

malloc-ready :
    (heap fuel n : ℕ) (h : Heap)
    → h.heap_init ≡ true
    → 0 < n
    → malloc heap fuel n h ≡ malloc_loop fuel h.free_list (align16 n) h
unfolding malloc
malloc-ready heap fuel n h init pos_n = ground arith

malloc-unready :
    (heap fuel n : ℕ) (h : Heap)
    → h.heap_init ≡ false
    → 0 < n
    → malloc heap fuel n h
      ≡ malloc_loop fuel (init_heap heap h).free_list (align16 n) (init_heap heap h)
unfolding malloc
malloc-unready heap fuel n h init pos_n = ground arith

Allocates-errno :
    (heap : ℕ) (cs : List Cell) (h k : Heap) (o : Option (ℕ × List Cell)) (call : Option (ℕ × Heap))
    → h.errno ≡ k.errno
    → Allocates heap cs h o call
    → Allocates heap cs k o call
Allocates-errno heap cs h k none call e r = r
Allocates-errno heap cs h k (some (p, ds)) call e (h', run, made, err) = (h', run, made, err ∙ e)

-- With the array inside the address space and fuel above the number of blocks, malloc of a positive
-- size ends. It is first fit over the list of blocks, for the size rounded up by ALIGN16: the first
-- free block that is large enough, split if the rest holds a header and 16 bytes. It leaves a list
-- that tiles the array again and `errno` alone, or, if no block fits, returns null, sets `errno` to
-- ENOMEM and leaves the blocks as they were. The first call sets the list up.
pub malloc-fit :
    (fuel heap n : ℕ) (cs : List Cell) (h : Heap)
    → IsHeap heap h cs
    → heap ≢ null
    → heap + heap_size + 16 ≤ word
    → length cs < fuel
    → 0 < n
    → Allocates heap cs h (fit heap (align16 n) cs) (malloc heap fuel n h)
malloc-fit fuel heap n cs h (inl (init, fl, chain)) ne small lt pos_n =
    subst (Allocates heap cs h (fit heap (align16 n) cs))
      (sym (malloc-ready heap fuel n h init pos_n ∙ ap (λ q. malloc_loop fuel q (align16 n) h) fl))
      (Fits-Allocates heap cs h (fit heap (align16 n) cs) _ init fl chain
        (malloc_loop-Fits fuel (heap + heap_size) heap (align16 n) cs h chain ne small lt))
malloc-fit fuel heap n cs h (inr (init, e)) ne small lt pos_n =
    let h₀ = init_heap heap h in
    let (init', fl, chain, err) = init_heap-fresh heap h init in
    let run =
      malloc-unready heap fuel n h init pos_n ∙ ap (λ q. malloc_loop fuel q (align16 n) h₀) fl in
    let found =
      Fits-Allocates heap fresh_cells h₀ (fit heap (align16 n) fresh_cells) _ init' fl chain (
        malloc_loop-Fits fuel (heap + heap_size) heap (align16 n) fresh_cells h₀ chain ne small
          (omega (arith, ap length e))) in
    subst (λ ds. Allocates heap ds h (fit heap (align16 n) ds) (malloc heap fuel n h)) (sym e)
      (subst (Allocates heap fresh_cells h (fit heap (align16 n) fresh_cells)) (sym run)
        (Allocates-errno heap fresh_cells h₀ h (fit heap (align16 n) fresh_cells) _ err found))
