-- ===== src/Stdlib/Alloc.antt =====
-- calloc and realloc of sdk/src/stdlib.c, on the allocator's state and the bytes of memory.
pub mod Zeroed
pub mod Moved
use axiome_toolchain.Base.{
  ℕ, ◌+◌, ◌-◌, ◌*◌, ◌/◌, ◌%◌, Option, some, ◌>>=◌, ◌||◌, ltb, leb, ◌==◌, if◌then◌else◌,
}
use axiome_toolchain.Memory.{Memory, null}
use axiome_toolchain.Stdlib.Heap.{Heap, block_size, word, enomem, malloc, free}
use axiome_toolchain.Strings.Copy.{memcpy, memset}

-- The result pointer, and both parts of the state.
abbrev pub Answer : Type 0
Answer = Option (ℕ × Heap × Memory)

unfoldable pub calloc : ℕ → ℕ → ℕ → ℕ → Heap → Memory → Answer
calloc heap fuel nmemb size h m =
    let total : ℕ = nmemb * size % word in
    if nmemb == 0 || size == 0
    then some (null, h, m)
    else if ltb ((word - 1) / size) nmemb
    then some (null, record h { errno = enomem }, m)
    else (do
      (p, h') ← malloc heap fuel total h
      some (p, h', if p == null then m else (memset p 0 total m).1))

-- The block is looked up again behind the call to malloc, as `block->size` is.
unfoldable pub realloc : ℕ → ℕ → ℕ → ℕ → Heap → Memory → Answer
realloc heap fuel ptr size h m =
    if ptr == null
    then (do (p, h') ← malloc heap fuel size h; some (p, h', m))
    else if size == 0
    then (do h' ← free fuel ptr h; some (null, h', m))
    else if leb size (h.header (ptr - block_size)).size
    then some (ptr, h, m)
    else (do
      (p, h') ← malloc heap fuel size h
      let old = (h'.header (ptr - block_size)).size
      let n : ℕ = if ltb old size then old else size
      if p == null
          then some (null, h', m)
          else (do h'' ← free fuel ptr h'; some (p, h'', (memcpy p ptr n m).1)))
