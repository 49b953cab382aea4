-- ===== src/System/Terminal.antt =====
-- A descriptor that takes each write in full, and calls of write of sdk/src/syscall.c on it.
use mathlib.Core.Path.{subst}
use axiome_toolchain.Base.{
  ℕ, ◌^◌, ◌<◌, ◌≡◌, ap, ◌∙◌, List, ◌++◌, arith, length, append_assoc, take-length,
}
use axiome_toolchain.Memory.{Memory, CString}
use axiome_toolchain.World.{World}
use axiome_toolchain.System.Sys
use axiome_toolchain.System.Call.{Kernel, long_of_int}
use axiome_toolchain.System.Call.Outcome.{value, syscall-result}
use axiome_toolchain.System.Files.{write}
use axiome_toolchain.Stdio.Buffer.{cells}
use axiome_toolchain.Stdio.Streams.Sink.{cells-take}

-- A descriptor that takes each write in full, as a terminal does.
pub record IsTerminal {K : Type 0} (kernel : Kernel K) (fd : ℕ) (delivered : K → List ℕ)
    : Type 0 where
  pub write_lem :
      (p n : ℕ) (m : Memory) (k : K)
      → n < 2 ^ 63
      → (k' : K) × (kernel Sys.write (long_of_int fd) p n 0 0 0 m k ≡ (n, m, k'))
        × (delivered k' ≡ delivered k ++ cells m p n)

module _ {K : Type 0} (kernel : Kernel K) (fd : ℕ) (delivered : K → List ℕ)
    (terminal : IsTerminal kernel fd delivered) where
  -- The world after the bytes `t` have been written and nothing else has happened.
  abbrev pub After : World K → List ℕ → World K → Type 0
  After w t w' = (k' : K) × (w' ≡ record w { sys = k' }) × (delivered k' ≡ delivered w.sys ++ t)

  pub write-cells :
      (p n : ℕ) (w : World K) → n < 2 ^ 63 → After w (cells w.mem p n) (write kernel fd p n w).1
  unfolding write
  write-cells p n w small =
      let (k', ran, told) = terminal.write_lem p n w.mem w.sys small in
      let result =
        syscall-result kernel Sys.write (long_of_int fd) p n 0 0 0 w (value n) w.mem k'
          (omega arith) ran in
      (k', ap (λ (c : ℕ × World K). c.1) result, told)

  pub write-After :
      (p : ℕ) (t : List ℕ) (w : World K)
      → CString w.mem p t
      → length t < 2 ^ 63
      → After w t (write kernel fd p (length t) w).1
  write-After p t w h small =
      let whole = cells-take w.mem p t (length t) h (omega arith) ∙ take-length t in
      subst (λ x. After w x (write kernel fd p (length t) w).1) whole
        (write-cells p (length t) w small)

  pub After-mem : (w w' : World K) (t : List ℕ) → After w t w' → w'.mem ≡ w.mem
  After-mem w w' t (k', same, told) = ap (λ (v : World K). v.mem) same

  pub After-then :
      (w w' w'' : World K) (t u : List ℕ) → After w t w' → After w' u w'' → After w (t ++ u) w''
  After-then w w' w'' t u (k', same, told) (k'', same', told') = (
    k'',
    same' ∙ ap (λ (v : World K). record v { sys = k'' }) same,
    told'
        ∙ ap (λ (v : World K). delivered v.sys ++ u) same
        ∙ ap (λ x. x ++ u) told
        ∙ append_assoc (delivered w.sys) t u,
  )
