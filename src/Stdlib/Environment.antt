-- ===== src/Stdlib/Environment.antt =====
-- getenv of sdk/src/stdlib.c, with the array of pointers at `environ` in memory.
pub mod Entry
use axiome_toolchain.Base.{
  ℕ, zero, suc, ◌+◌, List, [], ◌∷◌, ◌&&◌, ◌||◌, Option, none, some, ◌>>=◌, ◌==◌, if◌then◌else◌,
}
use axiome_toolchain.Memory.{Memory, null}
use axiome_toolchain.Memory.Words.{get_long}
use axiome_toolchain.Strings.Scan.{strlen_loop}

-- `while (i < namelen && e[i] == name[i]) i++;` with namelen - i rounds left.
pub common : ℕ → ℕ → ℕ → ℕ → Memory → ℕ
common zero i e name m = i
common (suc left) i e name m =
    let rest = common left (suc i) e name m in if m (e + i) == m (name + i) then rest else i

-- `for (char **p = environ; *p; p++)`, on fuel.
pub search_entries : ℕ → ℕ → ℕ → ℕ → Memory → Option ℕ
search_entries zero p namelen name m = none
search_entries (suc fuel) p namelen name m =
    let e : ℕ = get_long p m in
    let rest = search_entries fuel (p + 8) namelen name m in
    let i = common namelen 0 e name m in
    if e == null
    then some null
    else if (i == namelen) && (m (e + i) == b'=')
    then some (e + i + 1)
    else rest

-- The loop that counts `namelen` is that of strlen; `environ` is the value of the variable.
unfoldable pub getenv : ℕ → ℕ → ℕ → Memory → Option ℕ
unfolding common search_entries
getenv fuel name environ m =
    if (name == null) || ((m name == 0) || (environ == null))
    then some null
    else (do namelen ← strlen_loop fuel 0 name m; search_entries fuel environ namelen name m)
