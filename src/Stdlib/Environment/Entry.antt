-- ===== src/Stdlib/Environment/Entry.antt =====
-- The entry that getenv of sdk/src/stdlib.c finds.
use native.Mathlib.Nat.{add-suc, add-zero, zero-add}
use axiome_toolchain.Base.{
  ℕ, zero, suc, Bool-cases, inl, inr, true, ◌∙◌, ◌+◌, ◌<◌, ◌≡◌, refl, ap, ◌≢◌, List, [], ◌∷◌, ◌++◌,
  ◌&&◌, Bool, false, some, arith, length, ◌==◌, if◌then◌else◌,
}
use axiome_toolchain.Memory.{Memory, null, CString}
use axiome_toolchain.Memory.Words.{get_long}
use axiome_toolchain.Strings.Scan.{strlen_loop, strlen}
use axiome_toolchain.Strings.Scan.Place.{strlen-length}
use axiome_toolchain.Strings.Search.Match.{begins_with}
use axiome_toolchain.Stdlib.Environment.{common, search_entries, getenv}

-- An entry of the environment: where it stands, and its bytes.
abbrev pub Variable : Type 0
Variable = ℕ × List ℕ

-- The value of the first entry that begins with `name=`: its address, or null.
abbrev pub lookup_entry : List ℕ → List Variable → ℕ
lookup_entry name [] = null
lookup_entry name ((e, xs) ∷ es) =
    if begins_with (name ++ b'=' ∷ []) xs then e + length name + 1 else lookup_entry name es

-- One entry is tested as the specification tests it.
common_lem :
    (i e n : ℕ) (m : Memory) (ys xs : List ℕ)
    → CString m (n + i) ys
    → CString m (e + i) xs
    → ((common (length ys) i e n m == i + length ys)
        && (m (e + common (length ys) i e n m) == b'='))
      ≡ begins_with (ys ++ b'=' ∷ []) xs
unfolding common
common_lem i e n m [] [] hn he = ground arith
common_lem i e n m [] (x ∷ xs) hn he = ground arith
common_lem i e n m (y ∷ ys) [] hn he = ground arith
common_lem i e n m (y ∷ ys) (x ∷ xs) hn he =
    let hn' : CString m (n + suc i) ys = rw add-suc hn.2 in
    let he' : CString m (e + suc i) xs = rw add-suc he.2 in
    ground (arith, common_lem (suc i) e n m ys xs hn' he')

first_equal : (a b : ℕ) (t : Bool) → ((a == b) && t) ≡ true → a ≡ b
first_equal a b t h = ground arith

-- The array of pointers at `p`: the entries in order, each a string, and the null pointer behind them.
abbrev pub Environ : Memory → ℕ → List Variable → Type 0
Environ m p [] = get_long p m ≡ null
Environ m p ((e, xs) ∷ es) = (get_long p m ≡ e) × (e ≢ null) × CString m e xs × Environ m (p + 8) es

search_entries_lem :
    (fuel p n : ℕ) (m : Memory) (name : List ℕ) (es : List Variable)
    → CString m n name
    → Environ m p es
    → length es < fuel
    → search_entries fuel p (length name) n m ≡ some (lookup_entry name es)
unfolding search_entries
search_entries_lem zero p n m name es h env lt = absurd (omega arith)
search_entries_lem (suc fuel) p n m name [] h env lt = rw env refl
search_entries_lem (suc fuel) p n m name ((e, xs) ∷ es) h (at, ne, text, env) lt =
    let there : (e == null) ≡ false = ground arith in
    let found = rw zero-add at (common_lem 0 e n m name xs (rw add-zero h) (rw add-zero text)) in
    let rest = search_entries_lem fuel (p + 8) n m name es h env (omega arith) in
    elim (Bool-cases (begins_with (name ++ b'=' ∷ []) xs)) [
      | inl here ↦
          let whole : common (length name) 0 e n m ≡ length name =
            first_equal _ _ _ (found ∙ here) in
          rw (at, there, found, here) (ap (λ i. some (e + i + 1)) whole)
      | inr other ↦ rw (at, there, found, other) rest
    ]

-- For a non-empty name and fuel above its length and the number of entries, getenv ends. With
-- `environ` null it returns null, and otherwise the address of the value in the first entry that
-- begins with the name and `=`, or null when there is none.
pub getenv-lookup_entry :
    (fuel n c p : ℕ) (m : Memory) (cs : List ℕ) (es : List Variable)
    → n ≢ null
    → p ≢ null
    → CString m n (c ∷ cs)
    → Environ m p es
    → length (c ∷ cs) < fuel
    → length es < fuel
    → (getenv fuel n null m ≡ some null) × (getenv fuel n p m ≡ some (lookup_entry (c ∷ cs) es))
unfolding getenv
getenv-lookup_entry fuel n c p m cs es ne there h env lt lt' =
    let given : (n == null) ≡ false = ground arith in
    let named : (m n == 0) ≡ false = ground arith in
    let set : (p == null) ≡ false = ground arith in
    let len : strlen_loop fuel 0 n m ≡ some (length (c ∷ cs)) =
      unfold strlen in strlen-length fuel n m (c ∷ cs) h lt in
    (
      rw (given, named) refl,
      rw (given, named, set, len) (search_entries_lem fuel p n m (c ∷ cs) es h env lt'),
    )
