-- ===== src/Examples/Texts.antt =====
-- Examples for the string functions of sdk/src/string.c and the parsers of sdk/src/stdlib.c.
use axiome_toolchain.Base.{
  ℕ, ◌≡◌, ◌↔◌, refl, inl, inr, List, [], ◌∷◌, ◌++◌, some, codes, take, arith,
}
use axiome_toolchain.Base.Int.{pos}
use axiome_toolchain.Memory.{null, CString, SameOutside}
use axiome_toolchain.Strings.Compare.{strcmp}
use axiome_toolchain.Strings.Compare.Order.{diff, strcmp-diff}
use axiome_toolchain.Strings.Build.{strncat}
use axiome_toolchain.Strings.Build.Result.{Returns, strncat-append}
use axiome_toolchain.Strings.Search.{strstr}
use axiome_toolchain.Strings.Search.Match.{FirstMatch, strstr-FirstMatch}
use axiome_toolchain.Strings.Token.Sequence.{Yields, tokens, strtok-tokens}
use axiome_toolchain.Stdlib.Environment.{getenv}
use axiome_toolchain.Stdlib.Environment.Entry.{Variable, Environ, getenv-lookup_entry}
use axiome_toolchain.Memory.Words.{get_bytes, get_long}
use axiome_toolchain.Examples.{with_bytes}
use axiome_toolchain.Memory.{Memory}
use axiome_toolchain.Examples.{page, is_string-CString, line_CString, set_CString}

abbrev line : List ℕ
line = codes "a, bc,"

abbrev set : List ℕ
set = codes ", "

strtok-tokens_example : Yields 20 32 16 7 page (tokens set line)
strtok-tokens_example =
    strtok-tokens 20 16 32 7 page line set (omega arith) line_CString set_CString
      (inl (omega arith)) (omega arith)

-- The pieces of that line.
line_pieces : tokens set line ≡ codes "a" ∷ codes "bc" ∷ []
line_pieces = refl

strstr-FirstMatch_example : (r : ℕ) × (strstr 9 16 32 page ≡ some r) × FirstMatch set line 16 r
strstr-FirstMatch_example =
    strstr-FirstMatch 9 16 32 page line set line_CString set_CString (omega arith)

strncat-append_example :
    Returns
      (strncat 9 32 16 3 page)
      32
      (λ g. CString g 32 (set ++ take 3 line) × SameOutside 34 4 page g)
strncat-append_example =
    strncat-append 9 32 16 3 page set line set_CString line_CString (inr (omega arith))
      (omega arith)

strcmp-diff_example :
    (strcmp 9 16 32 page ≡ some (diff line set)) × ((diff line set ≡ pos 0) ↔ (line ≡ set))
strcmp-diff_example = strcmp-diff 9 16 32 page line set line_CString set_CString (omega arith)

abbrev comma : ℕ
comma = b','

number_CString : CString page 48 (codes "  -042x")
number_CString = is_string-CString page 48 (codes "  -042x") refl

abbrev variables : List Variable
variables = (64, codes "PATH=/bin") ∷ (80, codes "HOME=/root") ∷ []

-- The two pointers of the array at 200, and the null pointer behind them.
abbrev pointers : List ℕ
pointers = 64 ∷ 0 ∷ 0 ∷ 0 ∷ 0 ∷ 0 ∷ 0 ∷ 0 ∷ 80 ∷ []

abbrev table : Memory
table = with_bytes 200 pointers page

pointers_lem : (get_long 200 table ≡ 64) × (get_long 208 table ≡ 80) × (get_long 216 table ≡ 0)
unfolding get_bytes
pointers_lem = (refl, refl, refl)

variables-Environ : Environ table 200 variables
variables-Environ =
    let (first, second, end) = pointers_lem in
    (
      first,
      omega arith,
      is_string-CString table 64 (codes "PATH=/bin") refl,
      (second, omega arith, is_string-CString table 80 (codes "HOME=/root") refl, end),
    )

getenv-lookup_entry_example : (getenv 9 96 0 table ≡ some null) × (getenv 9 96 200 table ≡ some 85)
getenv-lookup_entry_example =
    getenv-lookup_entry 9 96 72 200 table (codes "OME") variables (omega arith) (omega arith)
      (is_string-CString table 96 (codes "HOME") refl) variables-Environ (omega arith) (omega arith)
