-- ===== src/Stdlib/Client.antt =====
-- The allocator of sdk/src/stdlib.c as the program that uses it sees it: a store of separate objects,
-- each at its pointer, whose bytes are known once they have been written. The calls act on the
-- allocator's state and on memory; what they mean for the objects does not mention either.
pub mod Blocks
pub mod Merging
pub mod Tracks
pub mod Serving
pub mod Resizing
pub mod Steps
pub mod Traces
use axiome_toolchain.Base.{
  ℕ, ◌+◌, ◌*◌, ◌≤◌, ◌<◌, ◌≡◌, ◌⊎◌, Option, none, some, ◌>>=◌, ltb, ◌==◌, if◌then◌else◌,
}
use axiome_toolchain.Memory.{Memory, null, store}
use axiome_toolchain.Stdlib.Heap.{Heap, word, malloc, free}
use axiome_toolchain.Stdlib.Alloc.{Answer, calloc, realloc}

-- An object by the size that was asked for, and those of its bytes that are determined.
pub record Object : Type 0 where
  pub size : ℕ
  pub bytes : ℕ → Option ℕ

abbrev pub Objects : Type 0
Objects = ℕ → Option Object

abbrev pub insert : ℕ → Object → Objects → Objects
insert p x o q = if q == p then some x else o q

abbrev pub delete : ℕ → Objects → Objects
delete p o q = if q == p then none else o q

abbrev pub blank : ℕ → Object
blank n = record { size = n; bytes = λ i. none }

abbrev pub zeros : ℕ → Object
zeros n = record { size = n; bytes = λ i. some 0 }

abbrev pub resized : ℕ → Option Object → Object
resized n none = blank n
resized n (some x) = record { size = n; bytes = λ i. if ltb i x.size then x.bytes i else none }

abbrev pub written : ℕ → ℕ → Option Object → Object
written i v none = blank 0
written i v (some x) = record x { bytes = λ j. if j == i then some v else x.bytes j }

-- malloc, calloc, realloc, free, and an assignment to a byte of an object.
pub data Call : Type 0 where
  allocate : ℕ → Call
  zeroed : ℕ → ℕ → Call
  resize : ℕ → ℕ → Call
  release : ℕ → Call
  poke : ℕ → ℕ → ℕ → Call

-- The call, with `fuel` for each loop over the blocks; a call without a result answers null.
unfoldable pub run : ℕ → ℕ → Call → Heap → Memory → Answer
run heap fuel (allocate n) h m = do (p, h') ← malloc heap fuel n h; some (p, h', m)
run heap fuel (zeroed count size) h m = calloc heap fuel count size h m
run heap fuel (resize p n) h m = realloc heap fuel p n h m
run heap fuel (release p) h m = do h' ← free fuel p h; some (null, h', m)
run heap fuel (poke p i v) h m = some (null, h, store m (p + i) v)

abbrev pub Owned : Objects → ℕ → Type 0
Owned o p = (x : Object) × (o p ≡ some x)

-- What the program has to heed: pointers are its own, and sizes do not wrap around in ALIGN16.
abbrev pub Allowed : Objects → Call → Type 0
Allowed o (allocate n) = n + 16 ≤ word
Allowed o (zeroed count size) = (count * size + 16 ≤ word) ⊎ (word ≤ count * size)
Allowed o (resize p n) = (n + 16 ≤ word) × ((p ≡ null) ⊎ Owned o p)
Allowed o (release p) = (p ≡ null) ⊎ Owned o p
Allowed o (poke p i v) = (x : Object) × (o p ≡ some x) × (i < x.size)

-- A result of null leaves the objects alone.
abbrev pub give : ℕ → Object → Objects → Objects
give q x o = if q == null then o else insert q x o

-- The objects after a call that answered `q`.
abbrev pub next : Objects → Call → ℕ → Objects
next o (allocate n) q = give q (blank n) o
next o (zeroed count size) q = give q (zeros (count * size)) o
next o (resize p n) q =
    if p == null
    then give q (blank n) o
    else if n == 0
    then delete p o
    else if q == null
    then o
    else insert q (resized n (o p)) (delete p o)
next o (release p) q = delete p o
next o (poke p i v) q = insert p (written i v (o p)) o

-- Null, or a pointer at which there is no object.
abbrev pub Fresh : Objects → ℕ → Type 0
Fresh o q = (q ≡ null) ⊎ (o q ≡ none)

-- What a call may answer.
abbrev pub Answers : Objects → Call → ℕ → Type 0
Answers o (allocate n) q = Fresh o q
Answers o (zeroed count size) q = Fresh o q
Answers o (resize p n) q = (q ≡ p) ⊎ Fresh o q
Answers o (release p) q = q ≡ null
Answers o (poke p i v) q = q ≡ null
