-- ===== src/Examples/Tools.antt =====
-- Examples for the helpers of sdk/include/util.h, and for errors, signals and sleeps.
use axiome_toolchain.Base.{
  ℕ, ◌+◌, ◌*◌, ◌^◌, ◌<◌, ◌≡◌, ◌≢◌, refl, ◌⊎◌, inr, List, [], ◌∷◌, ◌++◌, codes, arith, take, some,
}
use axiome_toolchain.Memory.{Memory, CString, SameOutside}
use axiome_toolchain.Memory.Words.{get_long, get_bytes}
use axiome_toolchain.World.{World}
use axiome_toolchain.System.Sys
use axiome_toolchain.System.Call.{int_call, long_of_int}
use axiome_toolchain.Stdio.Buffer.{cells}
use axiome_toolchain.Util.{ax_strerror, ax_mode_str, ax_join_path, ax_basename}
use axiome_toolchain.Util.Mode.{read_mode, shown, ax_mode_str-read_mode}
use axiome_toolchain.Util.Path.{joined, ax_join_path-joined}
use axiome_toolchain.Util.Name.{ax_basename-ax_join_path}
use axiome_toolchain.Errno.{strerror_internal, perror}
use axiome_toolchain.Errno.Message.{prefix, strerror_internal-ax_strerror, perror-After}
use axiome_toolchain.Signal.{sigaction}
use axiome_toolchain.Signal.Action.{IsPrepared, sigaction-IsPrepared}
use axiome_toolchain.Examples.{page, is_string-CString, with_bytes}
use axiome_toolchain.Examples.Kernels.{printer, printer-IsTerminal, pending, world}

ax_mode_str-read_mode_example :
    (read_mode (cells (ax_mode_str 18925 200 page) 200 10) ≡ shown 18925)
    × (ax_mode_str 18925 200 page (200 + 10) ≡ 0)
    × SameOutside 200 11 page (ax_mode_str 18925 200 page)
ax_mode_str-read_mode_example = ax_mode_str-read_mode 18925 200 page

abbrev tree : Memory
tree = with_bytes 16 (codes "/bin") (with_bytes 32 (codes "ls") (λ i. 0))

dir_CString : CString tree 16 (codes "/bin")
dir_CString = is_string-CString tree 16 (codes "/bin") refl

name_CString : CString tree 32 (codes "ls")
name_CString = is_string-CString tree 32 (codes "ls") refl

-- Seven bytes have room for six of the seven bytes of the path.
ax_join_path-joined_example :
    CString (ax_join_path 16 32 200 7 tree) 200 (take 6 (joined (codes "/bin") (codes "ls")))
    × SameOutside 200 7 tree (ax_join_path 16 32 200 7 tree)
ax_join_path-joined_example =
    ax_join_path-joined 16 32 200 7 tree (codes "/bin") (codes "ls") dir_CString name_CString
      (omega arith) (inr (omega arith)) (inr (omega arith))

joined_whole : joined (codes "/bin") (codes "ls") ≡ codes "/bin/ls"
joined_whole = refl

ax_basename-ax_join_path_example :
    (b : ℕ) × (ax_basename 8 200 (ax_join_path 16 32 200 64 tree) ≡ some b)
    × CString (ax_join_path 16 32 200 64 tree) b (codes "ls")
ax_basename-ax_join_path_example =
    ax_basename-ax_join_path 8 16 32 200 64 tree (codes "/bin") (codes "ls") dir_CString
      name_CString (omega arith) (inr (omega arith)) (inr (omega arith))
      (omega arith, (omega arith, tt)) (omega arith)

abbrev eacces : ℕ
eacces = 13

strerror_internal-ax_strerror_example :
    ((eacces ≢ 3) × (eacces ≢ 39) × (strerror_internal eacces ≡ ax_strerror eacces))
    ⊎ ((eacces ≡ 3)
        × (strerror_internal eacces ≡ codes "No such process")
        × (ax_strerror eacces ≡ codes "Unknown error"))
    ⊎ ((eacces ≡ 39)
        × (strerror_internal eacces ≡ codes "Unknown error")
        × (ax_strerror eacces ≡ codes "Directory not empty"))
strerror_internal-ax_strerror_example = strerror_internal-ax_strerror eacces

-- The literals that perror uses when `errno` is 0: by their first byte.
abbrev literal : List ℕ → ℕ
literal [] = 0
literal (c ∷ cs) = 1000 + 100 * c

abbrev literals : Memory
literals = with_bytes (literal (codes ": ")) (codes ": ") (
    with_bytes (literal (codes "Success")) (codes "Success")
      (with_bytes (literal (codes "\n")) (codes "\n") tree))

abbrev shell : World (List ℕ)
shell = record (world []) { mem = literals }

perror-After_example :
    (k' : List ℕ) × (perror printer literal 8 32 shell ≡ some (record shell { sys = k' }))
    × (k' ≡ prefix (codes "ls") ++ (codes "Success" ++ codes "\n"))
perror-After_example =
    perror-After printer literal pending (printer-IsTerminal 2) 8 32 (codes "ls") shell
      (inr (omega arith, is_string-CString literals 32 (codes "ls") refl))
      (is_string-CString literals (literal (codes ": ")) (codes ": ") refl)
      (is_string-CString literals (literal (codes "Success")) (codes "Success") refl)
      (is_string-CString literals (literal (codes "\n")) (codes "\n") refl) (omega arith)
      (omega arith) (omega arith)

flags_small : get_long (16 + 8) literals < 2 ^ 64
unfolding get_bytes
flags_small = omega arith

sigaction-IsPrepared_example :
    (m : Memory) × (sigaction printer 5000 300 2 16 0 shell
      ≡ int_call printer Sys.sigaction (long_of_int 2) 300 0 0 0 0 (record shell { mem = m }))
    × IsPrepared 5000 literals 16 m 300
    × SameOutside 300 32 literals m
sigaction-IsPrepared_example =
    sigaction-IsPrepared printer 5000 300 2 16 0 shell (omega arith) (omega arith) flags_small
