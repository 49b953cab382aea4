-- ===== src/Stdio/Digits.antt =====
-- How sdk/src/stdio.c renders numbers: the digit loops of emit_uint_width and vsnprintf_internal.
-- The array that collects the digits from the last on is read from its end, so it is a list with the
-- newest digit in front. The loop takes fuel, one round for each of the 64 bits at most.
pub mod Numeral
pub mod Decimal
pub mod Spelled
use axiome_toolchain.Base.{
  ℕ, zero, suc, ◌/◌, ◌%◌, Bool, true, false, List, [], ◌∷◌, codes, get_or, ◌==◌, if◌then◌else◌,
}

-- `digits` of the source: the table of digit characters.
abbrev pub digit_table : Bool → List ℕ
digit_table true = codes "0123456789ABCDEF"
digit_table false = codes "0123456789abcdef"

-- `while (v) { tmp[i++] = digits[v % base]; v /= base; }`
unfoldable pub digit_loop : ℕ → ℕ → Bool → ℕ → List ℕ → List ℕ
digit_loop zero base upper v tmp = tmp
digit_loop (suc fuel) base upper v tmp =
    let rest =
      digit_loop fuel base upper (v / base) (get_or (digit_table upper) (v % base) 0 ∷ tmp) in
    if v == 0 then tmp else rest

unfoldable pub render : ℕ → Bool → ℕ → List ℕ
render base upper v = if v == 0 then b'0' ∷ [] else digit_loop 64 base upper v []
