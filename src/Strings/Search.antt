-- ===== src/Strings/Search.antt =====
-- strstr of sdk/src/string.c.
pub mod Match
use axiome_toolchain.Base.{ℕ, zero, suc, Option, none, some, not, ◌&&◌, ◌==◌, if◌then◌else◌}
use axiome_toolchain.Memory.{Memory, null}

-- The inner loop: how far the needle has been walked when it stops.
pub walk : ℕ → ℕ → ℕ → Memory → Option ℕ
walk zero hn n m = none
walk (suc fuel) hn n m =
    let rest = walk fuel (suc hn) (suc n) m in
    if not (m hn == 0) && not (m n == 0) && (m hn == m n) then rest else some n

pub strstr_loop : ℕ → ℕ → ℕ → ℕ → Memory → Option ℕ
strstr_loop zero inner h needle m = none
strstr_loop (suc fuel) inner h needle m =
    let rest : Option ℕ = elim (walk inner h needle m) [
      | none ↦ none
      | some n ↦
          let later = strstr_loop fuel inner (suc h) needle m in if m n == 0 then some h else later
    ] in
    if m h == 0 then some null else rest

unfoldable pub strstr : ℕ → ℕ → ℕ → Memory → Option ℕ
unfolding walk strstr_loop
strstr fuel haystack needle m =
    if m needle == 0 then some haystack else strstr_loop fuel fuel haystack needle m
