-- ===== src/Strings/Token.antt =====
-- strtok of sdk/src/string.c. The static `strtok_saveptr` is an argument, and a call returns the
-- token, the new `strtok_saveptr` and the memory.
pub mod Sequence
use axiome_toolchain.Base.{ℕ, suc, ◌+◌, Option, some, ◌>>=◌, ◌==◌, if◌then◌else◌}
use axiome_toolchain.Memory.{Memory, null, store}
use axiome_toolchain.Strings.Span.{strspn, strcspn}

-- From `Find end of token` on: `token` is the first byte that is no delimiter.
pub end_token : ℕ → ℕ → ℕ → Memory → Option (ℕ × ℕ × Memory)
end_token fuel token delim m = do
  k ← strcspn fuel token delim m
  if m (token + k) == 0
      then some (token, null, m)
      else some (token, suc (token + k), store m (token + k) 0)

pub next_token : ℕ → ℕ → ℕ → Memory → Option (ℕ × ℕ × Memory)
unfolding end_token
next_token fuel saveptr delim m = do
  n ← strspn fuel saveptr delim m
  if m (saveptr + n) == 0 then some (null, null, m) else end_token fuel (saveptr + n) delim m

unfoldable pub strtok : ℕ → ℕ → ℕ → ℕ → Memory → Option (ℕ × ℕ × Memory)
unfolding next_token
strtok fuel str delim saveptr m =
    let saveptr' : ℕ = if str == null then saveptr else str in
    if saveptr' == null then some (null, saveptr', m) else next_token fuel saveptr' delim m
