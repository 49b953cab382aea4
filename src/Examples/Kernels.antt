-- ===== src/Examples/Kernels.antt =====
-- Small kernels: one with a descriptor to read from, one with a descriptor to write to, and one with a
-- single descriptor to open and close.
use axiome_toolchain.Base.{
  ℕ, ◌-◌, ◌^◌, refl, inl, inr, Bool, true, false, ◌&&◌, List, [], ◌∷◌, ◌++◌, arith, ◌==◌,
  if◌then◌else◌, Bool-cases,
}
use axiome_toolchain.Memory.{Memory, store}
use axiome_toolchain.World.{World}
use axiome_toolchain.System.Sys
use axiome_toolchain.System.Call.{Kernel}
use axiome_toolchain.Stdio.Buffer.{cells}
use axiome_toolchain.Stdio.Opening.{new_file}
use axiome_toolchain.Stdio.Opening.Table.{IsTable}
use axiome_toolchain.Stdio.Streams.Source.{IsSource}
use axiome_toolchain.Stdio.Streams.Sink.{IsSink}
use axiome_toolchain.System.Terminal.{IsTerminal}
use axiome_toolchain.Examples.{page}
use axiome_toolchain.Examples.Allocation.{state}

-- The answer `-ENOSYS`.
abbrev pub no_call : {K : Type 0} → Memory → K → ℕ × Memory × K
no_call m k = (2 ^ 64 - 38, m, k)

abbrev next_byte : ℕ → Memory → List ℕ → ℕ × Memory × List ℕ
next_byte p m [] = (0, m, [])
next_byte p m (c ∷ cs) = (1, store m p c, cs)

abbrev pub reader : Kernel (List ℕ)
reader n fd p len a4 a5 a6 m k = if n == Sys.read then next_byte p m k else no_call m k

abbrev pub pending : List ℕ → List ℕ
pending k = k

pub reader-IsSource : (fd : ℕ) → IsSource reader fd pending
reader-IsSource fd = record {
  read_byte = λ p c cs m k e. (cs, rw e refl, refl);
  read_end = λ p m k e. ([], rw e refl, refl);
}

abbrev pub printer : Kernel (List ℕ)
printer n fd p len a4 a5 a6 m k =
    if n == Sys.write
    then (len, m, k ++ cells m p len)
    else if n == Sys.getpid
    then (7, m, k)
    else no_call m k

pub printer-IsSink : (fd : ℕ) → IsSink printer fd pending
printer-IsSink fd = record {
  write_lem = λ p n m k small. inl (n, k ++ cells m p n, omega arith, refl, refl);
}

pub printer-IsTerminal : (fd : ℕ) → IsTerminal printer fd pending
printer-IsTerminal fd = record { write_lem = λ p n m k small. (k ++ cells m p n, refl, refl) }

-- Descriptor 3 is in use or not.
abbrev pub only_three : Bool → ℕ → Bool
only_three k x = (x == 3) && k

abbrev opened : Memory → Bool → ℕ × Memory × Bool
opened m false = (3, m, true)
opened m true = (2 ^ 64 - 24, m, true)

abbrev pub opener : Kernel Bool
opener n a1 a2 a3 a4 a5 a6 m k =
    if n == Sys.open_file then opened m k else if n == Sys.close then (0, m, false) else no_call m k

pub opener-IsTable : IsTable opener only_three
opener-IsTable = record {
  open_lem = λ path flags m k. elim (Bool-cases k) [
    | inr closed ↦ inl (3, true, omega arith, closed, rw closed refl, λ x. rw closed (ground arith))
    | inl used ↦ inr (24, true, omega arith, omega arith, rw used refl, λ x. rw used refl)
  ];
  close_lem = λ fd m k small used. (false, refl, λ x. ground arith);
}

-- A world with the example's memory, allocator and streams, all of them for descriptor 3.
abbrev pub world : {K : Type 0} → K → World K
world k = record { libc = state; files = λ q. new_file 3 3; mem = page; sys = k }
