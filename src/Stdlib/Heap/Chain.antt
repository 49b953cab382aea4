-- ===== src/Stdlib/Heap/Chain.antt =====
-- The list of blocks of sdk/src/stdlib.c as a list of cells that tile the array, and what malloc
-- and free are to do with such a list.
use axiome_toolchain.Base.{
  ℕ, suc, ◌+◌, ◌-◌, ◌≤◌, ◌≡◌, refl, ap, ◌⊎◌, inl, inr, Bool, true, false, ◌&&◌, List, [], ◌∷◌,
  Option, none, some, arith, leb, ◌==◌, length, if◌then◌else◌, Bool-cases,
}
use axiome_toolchain.Memory.{null}
use axiome_toolchain.Stdlib.Heap.{Block, block, block_size, heap_size, Heap}

-- A block by its size and its `free` flag.
abbrev pub Cell : Type 0
Cell = ℕ × Bool

-- The pointer to the first of the blocks `cs` that start at address `a`.
abbrev pub link : ℕ → List Cell → ℕ
link a [] = null
link a (c ∷ cs) = a

-- From `a` the headers lead through the blocks `cs`, each behind the bytes of the one before, and
-- the last ends at `top`.
abbrev pub Chain : (ℕ → Block) → ℕ → ℕ → List Cell → Type 0
Chain f top a [] = a ≡ top
Chain f top a ((s, b) ∷ cs) =
    (f a ≡ block s b (link (a + block_size + s) cs)) × Chain f top (a + block_size + s) cs

-- The blocks of an array that malloc has not yet seen: one free block.
abbrev pub fresh_cells : List Cell
fresh_cells = (heap_size - block_size, true) ∷ []

-- The allocator's state at the array `heap` stands for the blocks `cs`. Before the first call to
-- malloc the list is not set up, and the array counts as one free block.
abbrev pub IsHeap : ℕ → Heap → List Cell → Type 0
IsHeap heap h cs =
    ((h.heap_init ≡ true)
      × (h.free_list ≡ link heap cs)
      × Chain h.header (heap + heap_size) heap cs)
    ⊎ ((h.heap_init ≡ false) × (cs ≡ fresh_cells))

-- A block of size `s` after `n` bytes of it are taken: the rest is a free block of its own if it
-- holds a header and 16 bytes.
abbrev pub carve : ℕ → ℕ → List Cell → List Cell
carve n s cs =
    if leb (n + block_size + 16) s
    then (n, false) ∷ (s - n - block_size, true) ∷ cs
    else (s, false) ∷ cs

abbrev pub behind : Cell → Option (ℕ × List Cell) → Option (ℕ × List Cell)
behind c none = none
behind c (some (p, cs)) = some (p, c ∷ cs)

-- First fit: the address for `n` bytes among the blocks at `a`, and the blocks afterwards.
abbrev pub fit : ℕ → ℕ → List Cell → Option (ℕ × List Cell)
fit a n [] = none
fit a n ((s, b) ∷ cs) =
    if b && leb n s
    then some (a + block_size, carve n s cs)
    else behind (s, b) (fit (a + block_size + s) n cs)

-- A block of size `s` in front of `cs`, with each free block joined to a free one before it.
abbrev pub join : ℕ → Bool → List Cell → List Cell
join s b [] = (s, b) ∷ []
join s b ((t, c) ∷ cs) = elim (b && c) [
  | true ↦ join (s + (block_size + t)) b cs
  | false ↦ (s, b) ∷ join t c cs
]

abbrev pub coalesce : List Cell → List Cell
coalesce [] = []
coalesce ((s, b) ∷ cs) = join s b cs

pub Chain-frame :
    (f g : ℕ → Block) (top a : ℕ) (cs : List Cell)
    → ((x : ℕ) → a ≤ x → g x ≡ f x)
    → Chain f top a cs
    → Chain g top a cs
Chain-frame f g top a [] same h = h
Chain-frame f g top a ((s, b) ∷ cs) same h = (
  ground (arith, same a),
  Chain-frame f g top (a + block_size + s) cs (λ x le. same x (omega arith)) h.1,
)

pub Chain-le : (f : ℕ → Block) (top a : ℕ) (cs : List Cell) → Chain f top a cs → a ≤ top
Chain-le f top a [] h = omega arith
Chain-le f top a ((s, b) ∷ cs) h = omega (arith, Chain-le f top (a + block_size + s) cs h.1)

-- `p` is the address that malloc gave out for one of the allocated blocks of `cs`.
abbrev pub IsUsed : ℕ → ℕ → List Cell → Type 0
IsUsed a p [] = ⊥
IsUsed a p ((s, b) ∷ cs) = ((p ≡ a + block_size) × (b ≡ false)) ⊎ IsUsed (a + block_size + s) p cs

-- The blocks with the one given out at `p` set free.
abbrev pub mark : ℕ → ℕ → List Cell → List Cell
mark a p [] = []
mark a p ((s, b) ∷ cs) =
    if a + block_size == p then (s, true) ∷ cs else (s, b) ∷ mark (a + block_size + s) p cs

pub IsUsed-le : (a p : ℕ) (cs : List Cell) → IsUsed a p cs → a + block_size ≤ p
IsUsed-le a p [] h = absurd h
IsUsed-le a p ((s, b) ∷ cs) (inl h) = omega arith
IsUsed-le a p ((s, b) ∷ cs) (inr h) = omega (arith, IsUsed-le (a + block_size + s) p cs h)

pub link-mark : (a p : ℕ) (cs : List Cell) → link a (mark a p cs) ≡ link a cs
link-mark a p [] = refl
link-mark a p ((s, b) ∷ cs) = elim (Bool-cases (a + block_size == p)) [
  | inl e ↦ rw e refl
  | inr e ↦ rw e refl
]

pub length-mark : (a p : ℕ) (cs : List Cell) → length (mark a p cs) ≡ length cs
length-mark a p [] = refl
length-mark a p ((s, b) ∷ cs) = elim (Bool-cases (a + block_size == p)) [
  | inl e ↦ rw e refl
  | inr e ↦ rw e (ap suc (length-mark (a + block_size + s) p cs))
]

pub link-join : (a s : ℕ) (b : Bool) (cs : List Cell) → link a (join s b cs) ≡ a
link-join a s b [] = refl
link-join a s b ((t, c) ∷ cs) = elim (Bool-cases (b && c)) [
  | inl e ↦ rw (link, e) (link-join a (s + (block_size + t)) b cs)
  | inr e ↦ rw (link, e) refl
]
