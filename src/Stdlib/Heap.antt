-- ===== src/Stdlib/Heap.antt =====
-- The allocator of sdk/src/stdlib.c: init_heap, split_block, merge_free_blocks, malloc and free.
-- `block_t` headers are kept by address, apart from the bytes of the blocks. The address of the
-- static array `heap` is a parameter. A loop over the list takes fuel, the number of rounds it may
-- start, and answers `none` when it runs out.
pub mod Chain
pub mod Malloc
pub mod Free
pub mod Regions
pub mod Edges
pub mod Merged
pub mod Loan
use axiome_toolchain.Base.{
  ℕ, zero, suc, ◌+◌, ◌-◌, ◌*◌, ◌/◌, ◌%◌, ◌^◌, Bool, true, false, ◌&&◌, Option, none, some, leb,
  ◌==◌, if◌then◌else◌,
}
use axiome_toolchain.Memory.{null}

-- `size_t` has 64 bits.
abbrev pub word : ℕ
word = 2 ^ 64

abbrev pub add64 : ℕ → ℕ → ℕ
add64 a b = (a + b) % word

abbrev pub sub64 : ℕ → ℕ → ℕ
sub64 a b = (a + word - b) % word

abbrev pub heap_size : ℕ
heap_size = 4 * 1024 * 1024

-- sizeof(block_t): 8 bytes of size, 4 of free, 4 of padding, 8 of next.
abbrev pub block_size : ℕ
block_size = 24

-- ENOMEM of sdk/include/errno.h.
abbrev pub enomem : ℕ
enomem = 12

-- `((x) + 15UL) & ~15UL`: the mask clears the low four bits.
abbrev pub align16 : ℕ → ℕ
align16 x = add64 x 15 / 16 * 16

pub record Block : Type 0 where
  pub size : ℕ
  pub free : Bool
  pub next : ℕ

abbrev pub block : ℕ → Bool → ℕ → Block
block s f n = record { size = s; free = f; next = n }

-- The static variables, `errno`, and the headers in the array.
pub record Heap : Type 0 where
  pub header : ℕ → Block
  pub free_list : ℕ
  pub heap_init : Bool
  pub errno : ℕ

abbrev pub update : (ℕ → Block) → ℕ → Block → ℕ → Block
update f p b x = if x == p then b else f x

abbrev pub put : ℕ → Block → Heap → Heap
put p b h = record h { header = update h.header p b }

unfoldable pub init_heap : ℕ → Heap → Heap
init_heap heap h = if h.heap_init then h else record {
  header = update h.header heap (block (heap_size - block_size) true null);
  free_list = heap;
  heap_init = true;
  errno = h.errno;
}

unfoldable pub split_block : ℕ → ℕ → Heap → Heap
split_block p size h =
    let b = h.header p in
    let new_block : ℕ = p + block_size + size in
    if leb (add64 (add64 size block_size) 16) b.size
    then put p (record b { size = size; next = new_block })
        (put new_block (block (sub64 (sub64 b.size size) block_size) true b.next) h)
    else h

unfoldable pub merge_loop : ℕ → ℕ → Heap → Option Heap
merge_loop zero curr h = none
merge_loop (suc fuel) curr h =
    let b = h.header curr in
    let n = h.header b.next in
    let merged =
      put curr (record b { size = add64 b.size (add64 block_size n.size); next = n.next }) h in
    let joined = merge_loop fuel curr merged in
    let passed = merge_loop fuel b.next h in
    if curr == null
    then some h
    else if b.next == null
    then some h
    else if b.free && n.free
    then joined
    else passed

unfoldable pub merge_free_blocks : ℕ → Heap → Option Heap
merge_free_blocks fuel h = merge_loop fuel h.free_list h

-- What malloc does with the block that it has chosen.
unfoldable pub take_block : ℕ → ℕ → Heap → Heap
take_block curr size h =
    let h' = split_block curr size h in put curr (record (h'.header curr) { free = false }) h'

unfoldable pub malloc_loop : ℕ → ℕ → ℕ → Heap → Option (ℕ × Heap)
malloc_loop zero curr size h = none
malloc_loop (suc fuel) curr size h =
    let b = h.header curr in
    let rest = malloc_loop fuel b.next size h in
    if curr == null
    then some (null, record h { errno = enomem })
    else if b.free && leb size b.size
    then some (curr + block_size, take_block curr size h)
    else rest

unfoldable pub malloc : ℕ → ℕ → ℕ → Heap → Option (ℕ × Heap)
malloc heap fuel n h =
    let h' = if h.heap_init then h else init_heap heap h in
    if n == 0 then some (null, h) else malloc_loop fuel h'.free_list (align16 n) h'

unfoldable pub free : ℕ → ℕ → Heap → Option Heap
free fuel p h =
    let b = p - block_size in
    if p == null
    then some h
    else merge_free_blocks fuel (put b (record (h.header b) { free = true }) h)
