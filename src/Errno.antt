-- ===== src/Errno.antt =====
-- The error texts of sdk/src/errno.c. A string literal stands at an address that the compiler
-- chooses, `literal` here.
pub mod Message
use axiome_toolchain.Base.{
  ℕ, ◌+◌, List, Option, none, some, ◌>>=◌, codes, not, ◌||◌, ◌==◌, if◌then◌else◌,
}
use axiome_toolchain.Memory.{null}
use axiome_toolchain.World.{World}
use axiome_toolchain.Strings.Scan.{strlen}
use axiome_toolchain.System.Call.{Kernel}
use axiome_toolchain.System.Files.{write}

abbrev pub strerror_internal : ℕ → List ℕ
strerror_internal e =
    if e == 0
    then codes "Success"
    else if e == 1
    then codes "Operation not permitted"
    else if e == 2
    then codes "No such file or directory"
    else if e == 3
    then codes "No such process"
    else if e == 5
    then codes "I/O error"
    else if e == 9
    then codes "Bad file descriptor"
    else if e == 12
    then codes "Out of memory"
    else if e == 13
    then codes "Permission denied"
    else if e == 14
    then codes "Bad address"
    else if e == 17
    then codes "File exists"
    else if e == 20
    then codes "Not a directory"
    else if e == 21
    then codes "Is a directory"
    else if e == 22
    then codes "Invalid argument"
    else if e == 38
    then codes "Function not implemented"
    else codes "Unknown error"

module _ {K : Type 0} (kernel : Kernel K) (literal : List ℕ → ℕ) where
  -- `write(2, text, strlen(text))`
  unfoldable pub show : ℕ → ℕ → World K → Option (World K)
  show fuel text w = do n ← strlen fuel text w.mem; some (write kernel 2 text n w).1

  -- `if (s && *s) { write(2, s, strlen(s)); write(2, ": ", 2); }`
  unfoldable pub show_prefix : ℕ → ℕ → World K → Option (World K)
  show_prefix fuel s w =
      let shown : Option (World K) = do
        w' ← show fuel s w
        some (write kernel 2 (literal (codes ": ")) 2 w').1
      in if (s == null) || (w.mem s == 0) then some w else shown

  unfoldable pub perror : ℕ → ℕ → World K → Option (World K)
  perror fuel s w =
      let errstr : ℕ = literal (strerror_internal w.libc.errno) in
      do
        w' ← show_prefix fuel s w
        w'' ← show fuel errstr w'
        some (write kernel 2 (literal (codes "\n")) 1 w'').1
