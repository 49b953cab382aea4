-- ===== src/Strings/Span.antt =====
-- The set scans of sdk/src/string.c: strspn, strcspn and strpbrk.
pub mod Cut
use axiome_toolchain.Base.{
  ℕ, zero, suc, ◌+◌, Option, none, some, Bool, true, false, ◌==◌, if◌then◌else◌,
}
use axiome_toolchain.Memory.{Memory, null}

-- The inner loop over the set: is the byte `c` among those at `r`?
pub found : ℕ → ℕ → ℕ → Memory → Option Bool
found zero c r m = none
found (suc fuel) c r m =
    let rest = found fuel c (suc r) m in
    if m r == 0 then some false else if c == m r then some true else rest

-- The outer loop of strspn (`stop` false: leave when the byte was not found) and of strcspn
-- (`stop` true: leave when it was).
pub span_loop : Bool → ℕ → ℕ → ℕ → ℕ → ℕ → Memory → Option ℕ
span_loop stop zero inner i s set m = none
span_loop true (suc fuel) inner i s set m =
    let rest : Option ℕ = elim (found inner (m (s + i)) set m) [
      | none ↦ none
      | some true ↦ some i
      | some false ↦ span_loop true fuel inner (suc i) s set m
    ] in
    if m (s + i) == 0 then some i else rest
span_loop false (suc fuel) inner i s set m =
    let rest : Option ℕ = elim (found inner (m (s + i)) set m) [
      | none ↦ none
      | some false ↦ some i
      | some true ↦ span_loop false fuel inner (suc i) s set m
    ] in
    if m (s + i) == 0 then some i else rest

unfoldable pub strcspn : ℕ → ℕ → ℕ → Memory → Option ℕ
unfolding found span_loop
strcspn fuel s reject m = span_loop true fuel fuel 0 s reject m

unfoldable pub strspn : ℕ → ℕ → ℕ → Memory → Option ℕ
unfolding found span_loop
strspn fuel s accept m = span_loop false fuel fuel 0 s accept m

pub strpbrk_loop : ℕ → ℕ → ℕ → ℕ → Memory → Option ℕ
strpbrk_loop zero inner s accept m = none
strpbrk_loop (suc fuel) inner s accept m =
    let rest : Option ℕ = elim (found inner (m s) accept m) [
      | none ↦ none
      | some true ↦ some s
      | some false ↦ strpbrk_loop fuel inner (suc s) accept m
    ] in
    if m s == 0 then some null else rest

unfoldable pub strpbrk : ℕ → ℕ → ℕ → Memory → Option ℕ
unfolding found strpbrk_loop
strpbrk fuel s accept m = strpbrk_loop fuel fuel s accept m
