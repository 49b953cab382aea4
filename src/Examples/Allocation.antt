-- ===== src/Examples/Allocation.antt =====
-- Examples for the allocator of sdk/src/stdlib.c: an array at address 4096 with a free block, an
-- allocated one and the free rest, and one that malloc has not yet seen.
use axiome_toolchain.Base.{
  ◌≡◌, refl, inl, inr, true, false, List, [], ◌∷◌, some, codes, arith, ◌==◌, if◌then◌else◌,
}
use axiome_toolchain.Memory.{null}
use axiome_toolchain.Stdlib.Heap.{block, Heap, malloc, free}
use axiome_toolchain.Stdlib.Heap.Chain.{Cell, IsHeap, IsUsed, fit}
use axiome_toolchain.Stdlib.Heap.Malloc.{Allocates, malloc-fit}
use axiome_toolchain.Stdlib.Heap.Free.{free-coalesce}
use axiome_toolchain.Stdlib.Heap.Merged.{Separated, FreesBack, free-malloc}
use axiome_toolchain.Stdlib.Alloc.{realloc}
use axiome_toolchain.Stdlib.Alloc.Moved.{Moves, realloc-Moves}
use axiome_toolchain.Strings.Duplicate.{strdup}
use axiome_toolchain.Strings.Duplicate.Copied.{Duplicates, strdup-Duplicates}
use axiome_toolchain.Examples.{page, line_CString}

abbrev pub cells : List Cell
cells = (16, true) ∷ (32, false) ∷ (4194184, true) ∷ []

abbrev pub state : Heap
state = record {
  header = λ a.
      if a == 4096
      then block 16 true 4136
      else if a == 4136
      then block 32 false 4192
      else block 4194184 true null;
  free_list = 4096;
  heap_init = true;
  errno = 0;
}

pub state-IsHeap : IsHeap 4096 state cells
state-IsHeap = inl (refl, refl, (refl, (refl, (refl, refl))))

block-IsUsed : IsUsed 4096 4160 cells
block-IsUsed = inr (inl (refl, refl))

pub cells-Separated : Separated cells
cells-Separated = (inr refl, (inl refl, (inr tt, tt)))

abbrev pub fresh : Heap
fresh = record { header = λ a. block 0 false null; free_list = null; heap_init = false; errno = 0 }

malloc-fit_example : Allocates 4096 cells state (fit 4096 112 cells) (malloc 4096 4 100 state)
malloc-fit_example =
    malloc-fit 4 4096 100 cells state state-IsHeap (omega arith) (omega arith) (omega arith)
      (omega arith)

free-coalesce_example :
    (h' : Heap) × (free 3 4160 state ≡ some h')
    × IsHeap 4096 h' ((4194280, true) ∷ [])
    × (h'.errno ≡ 0)
free-coalesce_example =
    free-coalesce 3 4096 4160 cells state state-IsHeap block-IsUsed (omega arith) (omega arith)
      (omega arith)

free-malloc_example : FreesBack 4 4096 cells (malloc 4096 4 100 state)
free-malloc_example =
    free-malloc 4 4096 100 cells state state-IsHeap cells-Separated (omega arith) (omega arith)
      (omega arith) (omega arith)

realloc-Moves_example : Moves 4096 4160 32 100 cells page (realloc 4096 4 4160 100 state page)
realloc-Moves_example =
    realloc-Moves 4 4096 4160 32 100 cells state page state-IsHeap (inr (inl (refl, refl, refl)))
      (omega arith) (omega arith) (omega arith) (omega arith) (omega arith)

strdup-Duplicates_example :
    Duplicates 4096 (codes "a, bc,") cells page (strdup 4096 9 16 state page)
strdup-Duplicates_example =
    strdup-Duplicates 9 4096 16 (codes "a, bc,") cells state page (omega arith) line_CString
      (inl (inl (omega arith))) state-IsHeap (omega arith) (omega arith) (omega arith) (omega arith)
      (omega arith)
