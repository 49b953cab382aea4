-- ===== src/Examples/Clients.antt =====
-- Examples for programs that use the allocator of sdk/src/stdlib.c: two calls to malloc, and the calls
-- to free that give both objects back.
use axiome_toolchain.Base.{
  ℕ, ◌+◌, ◌≤◌, ◌≡◌, refl, inl, inr, Bool-cases, none, some, arith, ◌==◌, ==_self,
}
use axiome_toolchain.Memory.{Memory, null, Apart}
use axiome_toolchain.Examples.{page}
use axiome_toolchain.Examples.Allocation.{fresh}
use axiome_toolchain.Stdlib.Heap.{
  Heap, block_size, heap_size, init_heap, malloc_loop, malloc, take_block, split_block, merge_loop,
  merge_free_blocks, free,
}
use axiome_toolchain.Stdlib.Client.{
  Objects, Call, allocate, resize, release, run, Allowed, next, blank,
}
use axiome_toolchain.Stdlib.Client.Serving.{Represents, Steps}
use axiome_toolchain.Stdlib.Client.Steps.{run-Steps}
use axiome_toolchain.Stdlib.Client.Traces.{
  no_objects, Reaches, start, call, Program, done, issue, play, Heeds, Outcome, Reaches-Represents,
  play-Outcome, Reaches-Apart, Reaches-whole,
}

abbrev after : ℕ → Call → Heap → Heap
after fuel c h = elim (run 4096 fuel c h page) [ none ↦ h | some r ↦ r.1 ]

abbrev first : Heap
first = after 174763 (allocate 100) fresh

abbrev second : Heap
second = after 174763 (allocate 8) first

abbrev one_left : Heap
one_left = after 174763 (release 4120) second

abbrev none_left : Heap
none_left = after 174763 (release 4256) one_left

abbrev one : Objects
one = next no_objects (allocate 100) 4120

abbrev two : Objects
two = next one (allocate 8) 4256

abbrev one_freed : Objects
one_freed = next two (release 4120) null

abbrev both_freed : Objects
both_freed = next one_freed (release 4256) null

run-first : run 4096 174763 (allocate 100) fresh page ≡ some (4120, first, page)
unfolding run malloc malloc_loop init_heap
run-first = refl

run-second : run 4096 174763 (allocate 8) first page ≡ some (4256, second, page)
unfolding run malloc malloc_loop init_heap take_block split_block
run-second = refl

run-third : run 4096 174763 (release 4120) second page ≡ some (null, one_left, page)
unfolding run malloc malloc_loop init_heap free merge_free_blocks merge_loop take_block split_block
run-third = refl

run-fourth : run 4096 174763 (release 4256) one_left page ≡ some (null, none_left, page)
unfolding run malloc malloc_loop init_heap free merge_free_blocks merge_loop take_block split_block
run-fourth = refl

first-Reaches : Reaches 4096 174763 first page one
first-Reaches = call (allocate 100) 4120 (start fresh page refl) (omega arith) run-first

second-Reaches : Reaches 4096 174763 second page two
second-Reaches = call (allocate 8) 4256 first-Reaches (omega arith) run-second

third-Reaches : Reaches 4096 174763 one_left page one_freed
third-Reaches = call (release 4120) null second-Reaches (inr (blank 100, refl)) run-third

fourth-Reaches : Reaches 4096 174763 none_left page both_freed
fourth-Reaches = call (release 4256) null third-Reaches (inr (blank 8, refl)) run-fourth

none_there : (p : ℕ) → both_freed p ≡ none
none_there p = elim (Bool-cases (p == 4256)) [
  | inl here ↦ rw here refl
  | inr other ↦ elim (Bool-cases (p == 4120)) [
    | inl here ↦ rw (other, here) refl
    | inr neither ↦ rw (other, neither) refl
  ]
]

resize-Allowed : Allowed two (resize 4120 200)
resize-Allowed = (omega arith, inr (blank 100, refl))

run-Steps_example : Steps 4096 two (resize 4120 200) (run 4096 174763 (resize 4120 200) second page)
run-Steps_example =
    run-Steps 4096 174763 (omega arith) (omega arith) (omega arith) (resize 4120 200) second page
      two (Reaches-Represents 4096 174763 (omega arith) (omega arith) (omega arith) second-Reaches)
      resize-Allowed

Reaches-Apart_example :
    Apart 4120 100 4256 8 × (4096 + block_size ≤ 4120) × (4120 + 100 ≤ 4096 + heap_size)
Reaches-Apart_example =
    Reaches-Apart 4096 174763 (omega arith) (omega arith) (omega arith) 4120 4256 (blank 100)
      (blank 8) second-Reaches refl refl (omega arith)

Reaches-Represents_example : Represents 4096 one_left page one_freed
Reaches-Represents_example =
    Reaches-Represents 4096 174763 (omega arith) (omega arith) (omega arith) third-Reaches

Reaches-whole_example :
    (h : Heap) × (malloc 4096 174763 4194272 none_left ≡ some (4096 + block_size, h))
Reaches-whole_example =
    Reaches-whole 4096 174763 (omega arith) (omega arith) (omega arith) 4194272 fourth-Reaches
      none_there (omega arith) (omega arith)

-- malloc, and free of what it answered.
abbrev there_and_back : Program
there_and_back = issue (allocate 100) (λ q. issue (release q) (λ r. done))

there_and_back-Heeds : Heeds two there_and_back
there_and_back-Heeds = (
  omega arith,
  λ q a. (
    elim (Bool-cases (q == null)) [
      | inl nothing ↦ inl (ground arith)
      | inr something ↦ inr (blank 100, rw (something, ==_self q) refl)
    ],
    λ r b. tt,
  ),
)

play-Outcome_example :
    (h : Heap) × (m : Memory) × (o : Objects) × (play 4096 174763 there_and_back second page
      ≡ some (h, m))
    × Outcome two there_and_back o
    × Reaches 4096 174763 h m o
    × Represents 4096 h m o
play-Outcome_example =
    play-Outcome 4096 174763 (omega arith) (omega arith) (omega arith) there_and_back second-Reaches
      there_and_back-Heeds
