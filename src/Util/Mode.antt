-- ===== src/Util/Mode.antt =====
-- The mode string of sdk/include/util.h, read back.
use mathlib.Core.Path.{ap₂}
use axiome_toolchain.Base.{
  ℕ, suc, ◌+◌, ◌*◌, ◌/◌, ◌%◌, ◌<◌, ◌≡◌, refl, ap, ◌∙◌, false, ◌||◌, List, [], ◌∷◌, arith, length,
  get_or, ◌==◌, if◌then◌else◌,
}
use axiome_toolchain.Memory.{Memory, store, SameOutside}
use axiome_toolchain.Stdio.Buffer.{cells}
use axiome_toolchain.Util.{execute_char, mode_chars, store_all, ax_mode_str}

-- The permissions and the kind of a file that a mode string of ten characters names.
abbrev pub weight : ℕ → ℕ → ℕ → ℕ
weight c d n = if c == d then n else 0

abbrev pub execute_weight : ℕ → ℕ → ℕ → ℕ
execute_weight c n s =
    (if (c == b'x') || (c == b's') then n else 0) + (if (c == b's') || (c == b'S') then s else 0)

abbrev pub read_mode : List ℕ → ℕ
read_mode s =
    weight (get_or s 0 0) b'd' 16384
    + weight (get_or s 1 0) b'r' 256
    + weight (get_or s 2 0) b'w' 128
    + execute_weight (get_or s 3 0) 64 2048
    + weight (get_or s 4 0) b'r' 32
    + weight (get_or s 5 0) b'w' 16
    + execute_weight (get_or s 6 0) 8 1024
    + weight (get_or s 7 0) b'r' 4
    + weight (get_or s 8 0) b'w' 2
    + weight (get_or s 9 0) b'x' 1

-- The part of a mode that the string shows: the nine permissions, set-user-id and set-group-id, and
-- whether it is a directory.
abbrev pub shown : ℕ → ℕ
shown m = m % 512 + m / 1024 % 4 * 1024 + m / 16384 % 2 * 16384

weight_bit :
    (b n : ℕ)
    → b < 2
    → (c : ℕ) → (c == b'-') ≡ false
    → weight (if b == 1 then c else b'-') c n ≡ b * n
weight_bit b n lt c ne = ground arith

execute_bit :
    (x s n t : ℕ)
    → x < 2
    → s < 2
    → execute_weight (execute_char (x == 1) (s == 1)) n t ≡ x * n + s * t
execute_bit x s n t lt lt' = ground arith

bits_sum :
    (m : ℕ)
    → m / 16384 % 2 * 16384
        + m / 256 % 2 * 256
        + m / 128 % 2 * 128
        + (m / 64 % 2 * 64 + m / 2048 % 2 * 2048)
        + m / 32 % 2 * 32
        + m / 16 % 2 * 16
        + (m / 8 % 2 * 8 + m / 1024 % 2 * 1024)
        + m / 4 % 2 * 4
        + m / 2 % 2 * 2
        + m / 1 % 2 * 1
      ≡ shown m
bits_sum m = omega arith

store_all_out : (a : ℕ) (cs : List ℕ) (m : Memory) → SameOutside a (length cs) m (store_all a cs m)
unfolding store_all
store_all_out a [] m x out = refl
store_all_out a (c ∷ cs) m x out =
    store_all_out (suc a) cs (store m a c) x (λ h. out (omega arith, omega arith)) ∙ ground arith

pub store_all_in : (a : ℕ) (cs : List ℕ) (m : Memory) → cells (store_all a cs m) a (length cs) ≡ cs
unfolding store_all
store_all_in a [] m = refl
store_all_in a (c ∷ cs) m =
    let first = store_all_out (suc a) cs (store m a c) a (λ h. omega arith) in
    ap₂ ◌∷◌ (first ∙ ground arith) (store_all_in (suc a) cs (store m a c))

read_mode-mode_chars : (m : ℕ) → read_mode (mode_chars m) ≡ shown m
unfolding mode_chars
read_mode-mode_chars m =
    rw
      (
        weight_bit (m / 16384 % 2) 16384 (omega arith) b'd' refl,
        weight_bit (m / 256 % 2) 256 (omega arith) b'r' refl,
        weight_bit (m / 128 % 2) 128 (omega arith) b'w' refl,
        execute_bit (m / 64 % 2) (m / 2048 % 2) 64 2048 (omega arith) (omega arith),
        weight_bit (m / 32 % 2) 32 (omega arith) b'r' refl,
        weight_bit (m / 16 % 2) 16 (omega arith) b'w' refl,
        execute_bit (m / 8 % 2) (m / 1024 % 2) 8 1024 (omega arith) (omega arith),
        weight_bit (m / 4 % 2) 4 (omega arith) b'r' refl,
        weight_bit (m / 2 % 2) 2 (omega arith) b'w' refl,
        weight_bit (m / 1 % 2) 1 (omega arith) b'x' refl,
      )
      (bits_sum m)

-- The ten characters that ax_mode_str stores at `out`, read back, give the nine permissions of the
-- mode, its set-user-id and set-group-id bits and whether it is a directory; a terminator stands
-- behind them, and no byte outside the eleven at `out` changes.
pub ax_mode_str-read_mode :
    (m out : ℕ) (mem : Memory)
    → (read_mode (cells (ax_mode_str m out mem) out 10) ≡ shown m)
      × (ax_mode_str m out mem (out + 10) ≡ 0)
      × SameOutside out 11 mem (ax_mode_str m out mem)
unfolding ax_mode_str mode_chars
ax_mode_str-read_mode m out mem =
    let stored = store_all_in out (mode_chars m) mem in
    (
      ap read_mode stored ∙ read_mode-mode_chars m,
      ground (arith, ap (λ s. get_or s 10 0) stored),
      store_all_out out (mode_chars m) mem,
    )
