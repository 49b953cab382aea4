-- ===== src/Stdio/Buffer.antt =====
-- The output buffer of sdk/src/stdio.c: flush, emit and emit_str. `written` lists the blocks handed
-- to `write(1, ...)` so far; what `write` returns is not used by the code.
pub mod Stream
use axiome_toolchain.Base.{
  ℕ, zero, suc, ◌+◌, ◌-◌, List, [], ◌∷◌, ◌++◌, ltb, leb, ◌==◌, if◌then◌else◌,
}

abbrev pub outbuf_size : ℕ
outbuf_size = 256

pub record Out : Type 0 where
  pub outbuf : ℕ → ℕ
  pub outlen : ℕ
  pub written : List (List ℕ)

-- The `n` cells of an array from index `i` on.
abbrev pub cells : (ℕ → ℕ) → ℕ → ℕ → List ℕ
cells buf i zero = []
cells buf i (suc n) = buf i ∷ cells buf (suc i) n

unfoldable pub flush : Out → Out
flush o =
    if ltb 0 o.outlen
    then record o { outlen = 0; written = o.written ++ cells o.outbuf 0 o.outlen ∷ [] }
    else o

abbrev pub push_cell : Out → ℕ → Out
push_cell o c = record o {
  outbuf = λ i. if i == o.outlen then c else o.outbuf i;
  outlen = o.outlen + 1;
}

unfoldable pub emit : ℕ → Out → Out
emit c o = let o' = push_cell o c in if leb (outbuf_size - 1) o'.outlen then flush o' else o'

-- `while (*s) emit(*s++);` on the bytes of the string.
unfoldable pub emit_str : List ℕ → Out → Out
emit_str [] o = o
emit_str (c ∷ s) o = emit_str s (emit c o)

-- `while (n--) emit(c);`
unfoldable pub emit_times : ℕ → ℕ → Out → Out
emit_times zero c o = o
emit_times (suc n) c o = emit_times n c (emit c o)
