-- ===== src/Examples/Blocks.antt =====
-- Examples for the block functions of sdk/src/string.c.
use axiome_toolchain.Base.{ℕ, ◌≡◌}
use axiome_toolchain.Strings.Copy.{memmove}
use axiome_toolchain.Strings.Copy.Exact.{moved, memmove-moved}
use axiome_toolchain.Examples.{page}

memmove-moved_example :
    ((memmove 18 16 7 page).0 ≡ 18) × ((x : ℕ) → (memmove 18 16 7 page).1 x ≡ moved 18 16 7 page x)
memmove-moved_example = memmove-moved 18 16 7 page
