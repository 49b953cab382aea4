-- ===== src/Stdlib/Heap/Merged.antt =====
-- The lists of blocks of sdk/src/stdlib.c in which no two free blocks are neighbours.
use mathlib.Core.Path.{subst}
use axiome_toolchain.Base.{
  ℕ, ◌+◌, ◌-◌, ◌≤◌, ◌<◌, ◌≡◌, refl, sym, ap, ◌∙◌, ◌⊎◌, inl, inr, ◌≢◌, Bool, true, false, List, [],
  ◌∷◌, Option, none, some, arith, length, leb, ◌==◌, Bool-cases, ==_self,
}
use axiome_toolchain.Memory.{null}
use axiome_toolchain.Stdlib.Heap.{block_size, heap_size, word, align16, Heap, malloc, free}
use axiome_toolchain.Stdlib.Heap.Chain.{
  Cell, IsHeap, carve, behind, fit, join, coalesce, IsUsed, mark, IsUsed-le,
}
use axiome_toolchain.Stdlib.Heap.Malloc.{Allocates, malloc-fit}
use axiome_toolchain.Stdlib.Heap.Free.{free-coalesce}

abbrev pub StartsUsed : List Cell → Type 0
StartsUsed [] = Unit {0}
StartsUsed ((s, b) ∷ cs) = b ≡ false

-- No free block has a free one behind it.
abbrev pub Separated : List Cell → Type 0
Separated [] = Unit {0}
Separated ((s, b) ∷ cs) = ((b ≡ false) ⊎ StartsUsed cs) × Separated cs

join-StartsUsed : (s : ℕ) (cs : List Cell) → StartsUsed (join s false cs)
join-StartsUsed s [] = refl
join-StartsUsed s ((t, c) ∷ cs) = refl

pub join-Separated : (s : ℕ) (b : Bool) (cs : List Cell) → Separated (join s b cs)
join-Separated s b [] = (inr tt, tt)
join-Separated s true ((t, true) ∷ cs) = join-Separated (s + (block_size + t)) true cs
join-Separated s true ((t, false) ∷ cs) = (inr (join-StartsUsed t cs), join-Separated t false cs)
join-Separated s false ((t, c) ∷ cs) = (inl refl, join-Separated t c cs)

pub coalesce-Separated : (cs : List Cell) → Separated (coalesce cs)
coalesce-Separated [] = tt
coalesce-Separated ((s, b) ∷ cs) = join-Separated s b cs

join_self :
    (s : ℕ) (b : Bool) (cs : List Cell) → Separated ((s, b) ∷ cs) → join s b cs ≡ (s, b) ∷ cs
join_self s b [] h = refl
join_self s true ((t, true) ∷ cs) h = absurd (ground arith)
join_self s true ((t, false) ∷ cs) h = ap (◌∷◌ (s, true)) (join_self t false cs h.1)
join_self s false ((t, c) ∷ cs) h = ap (◌∷◌ (s, false)) (join_self t c cs h.1)

join-join :
    (s t : ℕ) (b c : Bool) (cs : List Cell) → join s b (join t c cs) ≡ join s b ((t, c) ∷ cs)
join-join s t b c [] = refl
join-join s t true true ((u, true) ∷ cs) =
    join-join s (t + (block_size + u)) true true cs ∙ ap (λ n. join n true cs) (omega arith)
join-join s t true true ((u, false) ∷ cs) = join-join (s + (block_size + t)) u true false cs
join-join s t true false ((u, d) ∷ cs) = ap (◌∷◌ (s, true)) (join-join t u false d cs)
join-join s t false true ((u, true) ∷ cs) = join-join s (t + (block_size + u)) false true cs
join-join s t false true ((u, false) ∷ cs) = ap (◌∷◌ (s, false)) (join-join t u true false cs)
join-join s t false false ((u, d) ∷ cs) = ap (◌∷◌ (s, false)) (join-join t u false d cs)

join-coalesce : (s : ℕ) (b : Bool) (cs : List Cell) → join s b (coalesce cs) ≡ join s b cs
join-coalesce s b [] = refl
join-coalesce s b ((t, c) ∷ cs) = join-join s t b c cs

-- Setting the block found by first fit free again, and merging, gives back the blocks `cs`.
abbrev Restores : ℕ → List Cell → ℕ → List Cell → Type 0
Restores a cs p ds = (coalesce (mark a p ds) ≡ cs) × IsUsed a p ds × (length ds ≤ length cs + 1)

abbrev pub RestoresIf : ℕ → List Cell → Option (ℕ × List Cell) → Type 0
RestoresIf a cs none = Unit {0}
RestoresIf a cs (some (p, ds)) = Restores a cs p ds

carve-Restores :
    (a n s : ℕ) (cs : List Cell)
    → n ≤ s
    → Separated ((s, true) ∷ cs)
    → Restores a ((s, true) ∷ cs) (a + block_size) (carve n s cs)
carve-Restores a n s cs le sep = elim (Bool-cases (leb (n + block_size + 16) s)) [
  | inl e ↦
      let whole : n + (block_size + (s - n - block_size)) ≡ s = ground arith in
      rw e (
        rw ==_self (ap (λ k. join k true cs) whole ∙ join_self s true cs sep),
        inl (refl, refl),
        omega arith,
      )
  | inr e ↦ rw e (rw ==_self (join_self s true cs sep), inl (refl, refl), omega arith)
]

Restores-behind :
    (a p s : ℕ) (b : Bool) (cs ds : List Cell)
    → Separated ((s, b) ∷ cs)
    → Restores (a + block_size + s) cs p ds
    → Restores a ((s, b) ∷ cs) p ((s, b) ∷ ds)
Restores-behind a p s b cs ds sep (back, used, len) =
    let le = IsUsed-le (a + block_size + s) p ds used in
    let other : (a + block_size == p) ≡ false = ground arith in
    (
      rw other (
          sym (join-coalesce s b (mark (a + block_size + s) p ds))
          ∙ ap (join s b) back
          ∙ join_self s b cs sep),
      inr used,
      omega arith,
    )

RestoresIf-behind :
    (a s : ℕ) (b : Bool) (cs : List Cell) (o : Option (ℕ × List Cell))
    → Separated ((s, b) ∷ cs)
    → RestoresIf (a + block_size + s) cs o
    → RestoresIf a ((s, b) ∷ cs) (behind (s, b) o)
RestoresIf-behind a s b cs none sep r = tt
RestoresIf-behind a s b cs (some (p, ds)) sep r = Restores-behind a p s b cs ds sep r

fit-Restores : (a n : ℕ) (cs : List Cell) → Separated cs → RestoresIf a cs (fit a n cs)
fit-Restores a n [] sep = tt
fit-Restores a n ((s, true) ∷ cs) sep = elim (Bool-cases (leb n s)) [
  | inl e ↦ rw e (carve-Restores a n s cs (ground arith) sep)
  | inr e ↦ rw e (
      RestoresIf-behind a s true cs (fit (a + block_size + s) n cs) sep
        (fit-Restores (a + block_size + s) n cs sep.1))
]
fit-Restores a n ((s, false) ∷ cs) sep =
    RestoresIf-behind a s false cs (fit (a + block_size + s) n cs) sep
      (fit-Restores (a + block_size + s) n cs sep.1)

-- What free does after a call to malloc on the blocks `cs`: nothing to do, or the blocks are back.
abbrev pub FreesBack : ℕ → ℕ → List Cell → Option (ℕ × Heap) → Type 0
FreesBack fuel heap cs call =
    (p : ℕ) × (h : Heap) × (k : Heap) × (call ≡ some (p, h))
    × (free fuel p h ≡ some k)
    × IsHeap heap k cs

pub free_null : (fuel : ℕ) (h : Heap) → free fuel null h ≡ some h
unfolding free
free_null fuel h = refl

Allocates-FreesBack :
    (fuel heap : ℕ) (cs : List Cell) (h : Heap) (o : Option (ℕ × List Cell))
    (call : Option (ℕ × Heap))
    → heap ≢ null
    → heap + heap_size + 16 ≤ word
    → length cs < fuel
    → RestoresIf heap cs o
    → Allocates heap cs h o call
    → FreesBack fuel heap cs call
Allocates-FreesBack fuel heap cs h none call ne small lt r (h', run, made, err) =
    (null, h', h', run, free_null fuel h', made)
Allocates-FreesBack fuel heap cs h (some (p, ds)) call ne small lt (back, used, len)
      (h', run, made, err) =
    let (k, freed, is, err') = free-coalesce fuel heap p ds h' made used ne small (omega arith) in
    (p, h', k, run, freed, subst (IsHeap heap k) back is)

-- With the array inside the address space and fuel above the number of blocks, on blocks of which
-- no two free ones are neighbours, which is how free leaves them, free of what malloc returns for a
-- positive size undoes malloc: the list of blocks is the same again, sizes and flags included.
pub free-malloc :
    (fuel heap n : ℕ) (cs : List Cell) (h : Heap)
    → IsHeap heap h cs
    → Separated cs
    → heap ≢ null
    → heap + heap_size + 16 ≤ word
    → length cs < fuel
    → 0 < n
    → FreesBack fuel heap cs (malloc heap fuel n h)
free-malloc fuel heap n cs h is sep ne small lt pos_n =
    Allocates-FreesBack fuel heap cs h (fit heap (align16 n) cs) _ ne small lt
      (fit-Restores heap (align16 n) cs sep) (malloc-fit fuel heap n cs h is ne small lt pos_n)

-- With the array inside the address space and fuel for the number of blocks, after free of a
-- pointer given out for a block still allocated no free block has a free neighbour, whatever the
-- list was before.
free-Separated :
    (fuel heap p : ℕ) (cs : List Cell) (h : Heap)
    → IsHeap heap h cs
    → IsUsed heap p cs
    → heap ≢ null
    → heap + heap_size + 16 ≤ word
    → length cs ≤ fuel
    → (h' : Heap) × (ds : List Cell) × (free fuel p h ≡ some h') × IsHeap heap h' ds × Separated ds
free-Separated fuel heap p cs h is used ne small lt =
    let (h', run, made, err) = free-coalesce fuel heap p cs h is used ne small lt in
    (h', coalesce (mark heap p cs), run, made, coalesce-Separated (mark heap p cs))
