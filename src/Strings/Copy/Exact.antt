-- ===== src/Strings/Copy/Exact.antt =====
-- What the block functions of sdk/src/string.c leave in memory, byte by byte.
use axiome_toolchain.Base.{
  ℕ, zero, suc, ◌+◌, ◌-◌, ◌%◌, ◌≤◌, ◌<◌, ◌≡◌, refl, ◌⊎◌, inl, inr, ◌&&◌, arith, ltb, leb, ◌==◌,
  if◌then◌else◌, Bool-cases,
}
use axiome_toolchain.Memory.{Memory, store}
use axiome_toolchain.Strings.Copy.{copy_up, copy_down, fill, memcpy, memset, memmove}

-- Memory `m` with the `n` bytes that it has at `src` standing at `dst` too.
abbrev pub moved : ℕ → ℕ → ℕ → Memory → Memory
moved dst src n m x = if leb dst x && ltb x (dst + n) then m (src + (x - dst)) else m x

-- The two ways in which a forward copy reads no byte that it has written.
abbrev pub ForwardSafe : ℕ → ℕ → ℕ → Type 0
ForwardSafe dst src n = (dst ≤ src) ⊎ (src + n ≤ dst)

copy_up_out :
    (left i d s : ℕ) (m : Memory) (x : ℕ)
    → (x < d + i) ⊎ (d + (i + left) ≤ x)
    → copy_up left i d s m x ≡ m x
unfolding copy_up
copy_up_out zero i d s m x out = refl
copy_up_out (suc left) i d s m x out =
    ground (arith, copy_up_out left (suc i) d s (store m (d + i) (m (s + i))) x)

copy_up_in :
    (left i d s : ℕ) (m : Memory) (j : ℕ)
    → ForwardSafe d s (i + left)
    → i ≤ j
    → j < i + left
    → copy_up left i d s m (d + j) ≡ m (s + j)
unfolding copy_up
copy_up_in zero i d s m j safe lo hi = absurd (omega arith)
copy_up_in (suc left) i d s m j safe lo hi = elim (Bool-cases (i == j)) [
  | inl e ↦ ground (arith, copy_up_out left (suc i) d s (store m (d + i) (m (s + i))) (d + j))
  | inr e ↦ ground (arith, copy_up_in left (suc i) d s (store m (d + i) (m (s + i))) j)
]

copy_down_out : (n d s : ℕ) (m : Memory) (x : ℕ) → (x < d) ⊎ (d + n ≤ x) → copy_down n d s m x ≡ m x
unfolding copy_down
copy_down_out zero d s m x out = refl
copy_down_out (suc i) d s m x out =
    ground (arith, copy_down_out i d s (store m (d + i) (m (s + i))) x)

copy_down_in :
    (n d s : ℕ) (m : Memory) (j : ℕ) → s ≤ d → j < n → copy_down n d s m (d + j) ≡ m (s + j)
unfolding copy_down
copy_down_in zero d s m j le lt = absurd (omega arith)
copy_down_in (suc i) d s m j le lt = elim (Bool-cases (i == j)) [
  | inl e ↦ ground (arith, copy_down_out i d s (store m (d + i) (m (s + i))) (d + j))
  | inr e ↦ ground (arith, copy_down_in i d s (store m (d + i) (m (s + i))) j)
]

pub fill_out :
    (left i d v : ℕ) (m : Memory) (x : ℕ)
    → (x < d + i) ⊎ (d + (i + left) ≤ x)
    → fill left i d v m x ≡ m x
unfolding fill
fill_out zero i d v m x out = refl
fill_out (suc left) i d v m x out = ground (arith, fill_out left (suc i) d v (store m (d + i) v) x)

pub fill_in :
    (left i d v : ℕ) (m : Memory) (j : ℕ) → i ≤ j → j < i + left → fill left i d v m (d + j) ≡ v
unfolding fill
fill_in zero i d v m j lo hi = absurd (omega arith)
fill_in (suc left) i d v m j lo hi = elim (Bool-cases (i == j)) [
  | inl e ↦ ground (arith, fill_out left (suc i) d v (store m (d + i) v) (d + j))
  | inr e ↦ ground (arith, fill_in left (suc i) d v (store m (d + i) v) j)
]

-- A memory is `moved` if it is so inside the target and unchanged outside.
moved_intro :
    (dst src n : ℕ) (m g : Memory)
    → ((j : ℕ) → j < n → g (dst + j) ≡ m (src + j))
    → ((x : ℕ) → (x < dst) ⊎ (dst + n ≤ x) → g x ≡ m x)
    → (x : ℕ) → g x ≡ moved dst src n m x
moved_intro dst src n m g inside outside x = ground (arith, inside (x - dst), outside x, split)
  where
    split : dst ≤ x → dst + (x - dst) ≡ x
    split h = omega arith

-- memcpy returns `dst` and copies the `n` bytes at `src` as they were before the call to `dst`,
-- leaving every other byte alone, when the target does not begin inside the source: `dst <= src`
-- or `src + n <= dst`.
pub memcpy-moved :
    (dst src n : ℕ) (m : Memory)
    → ForwardSafe dst src n
    → ((memcpy dst src n m).0 ≡ dst) × ((x : ℕ) → (memcpy dst src n m).1 x ≡ moved dst src n m x)
unfolding memcpy
memcpy-moved dst src n m safe = (
  refl,
  moved_intro dst src n m _
      (λ j lt. copy_up_in n 0 dst src m j (ground arith) (omega arith) (omega arith))
      (λ x out. copy_up_out n 0 dst src m x (ground arith)),
)

-- memmove returns `dst` and copies the `n` bytes at `src` as they were before the call to `dst`,
-- leaving every other byte alone, however the two ranges overlap.
pub memmove-moved :
    (dst src n : ℕ) (m : Memory)
    → ((memmove dst src n m).0 ≡ dst) × ((x : ℕ) → (memmove dst src n m).1 x ≡ moved dst src n m x)
unfolding memmove
memmove-moved dst src n m = elim (Bool-cases (ltb dst src)) [
  | inl e ↦ (refl, rw e (memcpy_part (ground arith)))
  | inr e ↦ (
    refl,
    rw e (
        moved_intro dst src n m _ (λ j lt. copy_down_in n dst src m j (ground arith) lt)
          (copy_down_out n dst src m)),
  )
]
  where
    memcpy_part : dst ≤ src → (x : ℕ) → copy_up n 0 dst src m x ≡ moved dst src n m x
    memcpy_part le =
        moved_intro dst src n m _
          (λ j lt. copy_up_in n 0 dst src m j (inl le) (omega arith) (omega arith))
          (λ x out. copy_up_out n 0 dst src m x (ground arith))

-- memset returns `dst`, sets each of the `n` bytes at `dst` to the low eight bits of `c`, and
-- leaves every other byte alone.
pub memset-fill :
    (dst c n : ℕ) (m : Memory)
    → ((memset dst c n m).0 ≡ dst)
      × ((x : ℕ) → (memset dst c n m).1 x ≡ (if leb dst x && ltb x (dst + n) then c % 256 else m x))
unfolding memset
memset-fill dst c n m = (
  refl,
  λ x.
      ground
        (arith, fill_in n 0 dst (c % 256) m (x - dst), fill_out n 0 dst (c % 256) m x, split x),
)
  where
    split : (x : ℕ) → dst ≤ x → dst + (x - dst) ≡ x
    split x h = omega arith
