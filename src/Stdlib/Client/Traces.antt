-- ===== src/Stdlib/Client/Traces.antt =====
-- Programs that use the allocator of sdk/src/stdlib.c: the states that their calls lead to, from an
-- allocator that no call has used yet.
use mathlib.Core.Path.{subst}
use axiome_toolchain.Base.{
  ℕ, ◌+◌, ◌-◌, ◌≤◌, ◌<◌, ◌≡◌, ◌≢◌, refl, sym, ◌∙◌, inl, inr, true, false, List, [], Option, none,
  some, ◌>>=◌, arith, leb,
}
use axiome_toolchain.Memory.{Memory, null, Apart}
use axiome_toolchain.Stdlib.Heap.{Heap, block_size, heap_size, word, align16, malloc}
use axiome_toolchain.Stdlib.Heap.Chain.{Cell, IsHeap, fresh_cells, carve, fit}
use axiome_toolchain.Stdlib.Heap.Malloc.{Allocates, malloc-fit}
use axiome_toolchain.Stdlib.Heap.Regions.{Region, Region-le, IsHeap-Region_end, fresh_cells-Region}
use axiome_toolchain.Stdlib.Client.{Object, Objects, Call, run, Allowed, Answers, next}
use axiome_toolchain.Stdlib.Client.Blocks.{Region-Apart}
use axiome_toolchain.Stdlib.Client.Merging.{IsHeap-whole}
use axiome_toolchain.Stdlib.Client.Tracks.{Tracks}
use axiome_toolchain.Stdlib.Client.Serving.{Represents}
use axiome_toolchain.Stdlib.Client.Steps.{run-Steps}

abbrev pub no_objects : Objects
no_objects p = none

-- What the calls of a program that heeds the rules lead to: the allocator's state, memory, and the
-- objects that the program owns.
pub data Reaches (heap fuel : ℕ) : Heap → Memory → Objects → Type 0 where
  start : (h : Heap) (m : Memory) → h.heap_init ≡ false → Reaches heap fuel h m no_objects
  call :
      {h h' : Heap} {m m' : Memory} {o : Objects} (c : Call) (q : ℕ)
      → Reaches heap fuel h m o
      → Allowed o c
      → run heap fuel c h m ≡ some (q, h', m')
      → Reaches heap fuel h' m' (next o c q)

-- A program by its calls, each of which may depend on the answers to the earlier ones.
pub data Program : Type 0 where
  done : Program
  issue : Call → (ℕ → Program) → Program

unfoldable pub play : ℕ → ℕ → Program → Heap → Memory → Option (Heap × Memory)
play heap fuel done h m = some (h, m)
play heap fuel (issue c k) h m = do (q, h', m') ← run heap fuel c h m; play heap fuel (k q) h' m'

-- The program heeds the rules, whichever of the possible answers it gets.
abbrev pub Heeds : Objects → Program → Type 0
Heeds o done = Unit
Heeds o (issue c k) = Allowed o c × ((q : ℕ) → Answers o c q → Heeds (next o c q) (k q))

-- The objects at the end of the program, for some possible answers.
abbrev pub Outcome : Objects → Program → Objects → Type 0
Outcome o done o' = o' ≡ o
Outcome o (issue c k) o' = (q : ℕ) × Answers o c q × Outcome (next o c q) (k q) o'

answer_of :
    (q q' : ℕ) (h h' : Heap) (m m' : Memory)
    → ◌≡◌ {A = Option (ℕ × Heap × Memory)} (some (q, h, m)) (some (q', h', m'))
    → (q ≡ q') × (h ≡ h') × (m ≡ m')
answer_of q q' h h' m m' e = (cc, cc, cc)

narrow : (p q s z n k : ℕ) → Apart p s q z → n ≤ s → k ≤ z → Apart p n q k
narrow p q s z n k (inl e) le le' = inl (omega arith)
narrow p q s z n k (inr e) le le' = inr (omega arith)

-- Where nothing is given out, an object cannot be represented by a region.
no-Region :
    (heap : ℕ) (cs : List Cell) (m : Memory) (o : Objects)
    → Tracks heap cs m o
    → ((p : ℕ) → o p ≡ none)
    → (p s : ℕ) → ¬ Region heap p s cs
no-Region heap cs m o t empty p s r =
    let (x, e) = t.owned_lem p s r in
    let no : ◌≡◌ {A = Option Object} none (some x) = sym (empty p) ∙ e in absurd (cc)

malloc_whole :
    (heap fuel n : ℕ) (h : Heap)
    → heap ≢ null
    → heap + heap_size + 16 ≤ word
    → 1 < fuel
    → IsHeap heap h fresh_cells
    → 0 < n
    → n ≤ 4194272
    → (h' : Heap) × (malloc heap fuel n h ≡ some (heap + block_size, h'))
malloc_whole heap fuel n h ne small lt is pos_n room =
    let fits : leb (align16 n) (heap_size - block_size) ≡ true = ground arith in
    let found : fit heap (align16 n) fresh_cells
        ≡ some (heap + block_size, carve (align16 n) (heap_size - block_size) []) =
      rw fits refl in
    let (h', ran, made, err) =
      subst (λ o. Allocates heap fresh_cells h o (malloc heap fuel n h)) found
        (malloc-fit fuel heap n fresh_cells h is ne small lt pos_n) in
    (h', ran)

module _ (heap fuel : ℕ) (in_place : heap ≢ null) (small : heap + heap_size + 16 ≤ word)
    (enough : 174762 < fuel) where
  -- In every state that the calls of a program lead to from an allocator not used before, the list of
  -- blocks is well formed, no two neighbouring blocks are free, the blocks given out are just those
  -- of the program's objects, and the bytes of the objects that are determined stand in memory.
  pub Reaches-Represents :
      {h : Heap} {m : Memory} {o : Objects} → Reaches heap fuel h m o → Represents heap h m o
  Reaches-Represents (start h m init) = (
    fresh_cells,
    inr (init, refl),
    (inr tt, tt),
    record {
      live_lem = λ p x e. absurd (cc);
      owned_lem = λ p s r. absurd (fresh_cells-Region heap p s r);
      bytes_lem = λ p i v x e lt b. absurd (cc);
    },
  )
  Reaches-Represents (call {h} {h'} {m} {m'} {o} c q r a ran) =
      let (q', g, g', ran', answer, represents) =
        run-Steps heap fuel in_place small enough c h m o (Reaches-Represents r) a in
      let (eq, eh, em) = answer_of q' q g h' g' m' (sym ran' ∙ ran) in
      subst (λ z. Represents heap h' z (next o c q)) em
        (subst (λ z. Represents heap z g' (next o c q)) eh
          (subst (λ z. Represents heap g g' (next o c z)) eq represents))

  -- A program whose calls start in a state that the calls of a program lead to, and which heeds the
  -- rules whichever of the possible answers it gets, runs to its end. Each call gives one of its
  -- possible answers and turns the objects into the ones that this answer asks for, and the
  -- allocator and memory at the end stand for the objects at the end.
  pub play-Outcome :
      (p : Program) {h : Heap} {m : Memory} {o : Objects}
      → Reaches heap fuel h m o
      → Heeds o p
      → (h' : Heap) × (m' : Memory) × (o' : Objects) × (play heap fuel p h m ≡ some (h', m'))
        × Outcome o p o'
        × Reaches heap fuel h' m' o'
        × Represents heap h' m' o'
  unfolding play
  play-Outcome done {h} {m} {o} r heeds = (h, m, o, refl, refl, r, Reaches-Represents r)
  play-Outcome (issue c k) {h} {m} {o} r (a, heeds) =
      let (q, g, g', ran, answer, represents) =
        run-Steps heap fuel in_place small enough c h m o (Reaches-Represents r) a in
      let (h', m', o', ends, outcome, reaches, represents') =
        play-Outcome (k q) (call c q r a ran) (heeds q answer) in
      (h', m', o', rw ran ends, (q, answer, outcome), reaches, represents')

  -- In every state that the calls of a program lead to, two objects of the program do not overlap,
  -- and each lies inside the array, behind the first header.
  pub Reaches-Apart :
      {h : Heap} {m : Memory} {o : Objects} (p q : ℕ) (x y : Object)
      → Reaches heap fuel h m o
      → o p ≡ some x
      → o q ≡ some y
      → p ≢ q
      → Apart p x.size q y.size × (heap + block_size ≤ p) × (p + x.size ≤ heap + heap_size)
  Reaches-Apart {h} {m} {o} p q x y r ep eq ne =
      let (cs, is, sep, t) = Reaches-Represents r in
      let (s, rs, fs) = t.live_lem p x ep in
      let (z, rz, fz) = t.live_lem q y eq in
      (
        narrow p q s z x.size y.size (Region-Apart heap p q s z cs rs rz ne) fs fz,
        Region-le heap p s cs rs,
        omega (arith, IsHeap-Region_end heap p s h cs is rs),
      )

  -- Nothing is lost: a program that has freed every object, whatever calls it made before and in
  -- whichever order it freed them, gets any number of bytes from 1 to 4194272 from malloc, at the
  -- place where the first object of all would stand.
  pub Reaches-whole :
      {h : Heap} {m : Memory} {o : Objects} (n : ℕ)
      → Reaches heap fuel h m o
      → ((p : ℕ) → o p ≡ none)
      → 0 < n
      → n ≤ 4194272
      → (h' : Heap) × (malloc heap fuel n h ≡ some (heap + block_size, h'))
  Reaches-whole {h} {m} {o} n r empty pos_n room =
      let (cs, is, sep, t) = Reaches-Represents r in
      let whole = IsHeap-whole heap h cs is sep (no-Region heap cs m o t empty) in
      malloc_whole heap fuel n h in_place small (omega arith) (subst (IsHeap heap h) whole is) pos_n
        room
