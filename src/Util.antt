-- ===== src/Util.antt =====
-- The helpers of sdk/include/util.h for the userspace tools.
pub mod Mode
pub mod Path
pub mod Name
use axiome_toolchain.Base.{
  ℕ, zero, suc, ◌+◌, ◌-◌, ◌/◌, ◌%◌, ◌^◌, Bool, not, ◌&&◌, List, [], ◌∷◌, Option, none, some, codes,
  ltb, ◌==◌, if◌then◌else◌,
}
use axiome_toolchain.Memory.{Memory, store}

abbrev pub ax_strerror : ℕ → List ℕ
ax_strerror e =
    if e == 0
    then codes "Success"
    else if e == 1
    then codes "Operation not permitted"
    else if e == 2
    then codes "No such file or directory"
    else if e == 5
    then codes "I/O error"
    else if e == 9
    then codes "Bad file descriptor"
    else if e == 12
    then codes "Out of memory"
    else if e == 13
    then codes "Permission denied"
    else if e == 14
    then codes "Bad address"
    else if e == 17
    then codes "File exists"
    else if e == 20
    then codes "Not a directory"
    else if e == 21
    then codes "Is a directory"
    else if e == 22
    then codes "Invalid argument"
    else if e == 38
    then codes "Function not implemented"
    else if e == 39
    then codes "Directory not empty"
    else codes "Unknown error"

-- `m & S_...` for a mask of the one bit `2 ^ k`, as a test.
abbrev pub has_bit : ℕ → ℕ → Bool
has_bit m k = m / 2 ^ k % 2 == 1

-- The character of an execute bit with the set-id bit beside it.
abbrev pub execute_char : Bool → Bool → ℕ
execute_char x s = if x then if s then b's' else b'x' else if s then b'S' else b'-'

-- The bytes that ax_mode_str stores from `out` on.
unfoldable pub mode_chars : ℕ → List ℕ
mode_chars m =
    (if has_bit m 14 then b'd' else b'-')
    ∷ (if has_bit m 8 then b'r' else b'-')
    ∷ (if has_bit m 7 then b'w' else b'-')
    ∷ execute_char (has_bit m 6) (has_bit m 11)
    ∷ (if has_bit m 5 then b'r' else b'-')
    ∷ (if has_bit m 4 then b'w' else b'-')
    ∷ execute_char (has_bit m 3) (has_bit m 10)
    ∷ (if has_bit m 2 then b'r' else b'-')
    ∷ (if has_bit m 1 then b'w' else b'-')
    ∷ (if has_bit m 0 then b'x' else b'-')
    ∷ 0
    ∷ []

-- `out[0] = ...; out[1] = ...;` and so on.
unfoldable pub store_all : ℕ → List ℕ → Memory → Memory
store_all out [] mem = mem
store_all out (c ∷ cs) mem = store_all (suc out) cs (store mem out c)

unfoldable pub ax_mode_str : ℕ → ℕ → Memory → Memory
ax_mode_str m out mem = store_all out (mode_chars m) mem

-- `while (src[i] && base + i + 1 < cap) { out[base + i] = src[i]; i++; }` with cap - 1 - (base + i)
-- rounds to go at most: the count of bytes copied.
unfoldable pub join_loop : ℕ → ℕ → ℕ → ℕ → ℕ → Memory → ℕ × Memory
join_loop zero i src out base m = (i, m)
join_loop (suc left) i src out base m =
    let rest = join_loop left (suc i) src out base (store m (out + (base + i)) (m (src + i))) in
    if m (src + i) == 0 then (i, m) else rest

-- `if (pl > 0 && out[pl - 1] != '/' && pl + 1 < cap) out[pl++] = '/';`
unfoldable pub join_slash : ℕ → ℕ → ℕ × Memory → ℕ × Memory
join_slash out cap (pl, m) =
    if ltb 0 pl && (not (m (out + (pl - 1)) == b'/') && ltb (pl + 1) cap)
    then (suc pl, store m (out + pl) b'/')
    else (pl, m)

unfoldable pub join_name : ℕ → ℕ → ℕ → ℕ × Memory → Memory
join_name name out cap (pl, m) =
    let (nl, m') = join_loop (cap - 1 - pl) 0 name out pl m in store m' (out + (pl + nl)) 0

unfoldable pub ax_join_path : ℕ → ℕ → ℕ → ℕ → Memory → Memory
ax_join_path dir name out cap m =
    join_name name out cap (join_slash out cap (join_loop (cap - 1) 0 dir out 0 m))

-- `for (const char *c = p; *c; c++) if (*c == '/') b = c + 1;`
unfoldable pub basename_loop : ℕ → ℕ → ℕ → Memory → Option ℕ
basename_loop zero b c m = none
basename_loop (suc fuel) b c m =
    let rest = basename_loop fuel (if m c == b'/' then suc c else b) (suc c) m in
    if m c == 0 then some b else rest

unfoldable pub ax_basename : ℕ → ℕ → Memory → Option ℕ
ax_basename fuel p m = basename_loop fuel p p m
