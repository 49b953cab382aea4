-- ===== src/Stdio/Streams/Whole.antt =====
-- A descriptor read to its end by calls of fgets of sdk/src/stdio.c.
use axiome_toolchain.Base.{
  ℕ, zero, suc, ◌+◌, ◌-◌, ◌^◌, ◌≤◌, ◌<◌, ◌≡◌, ◌≢◌, refl, ap, ◌∙◌, ◌⊎◌, inl, inr, List, [], ◌∷◌,
  ◌++◌, arith, All, length, get_or, drop, ◌==◌, Bool-cases, length-append,
}
use axiome_toolchain.Memory.{Memory, null, Holds}
use axiome_toolchain.World.{World}
use axiome_toolchain.System.Call.{Kernel}
use axiome_toolchain.Stdio.Buffer.Stream.{concat}
use axiome_toolchain.Stdio.Streams.{fgets}
use axiome_toolchain.Stdio.Streams.Source.{IsSource}
use axiome_toolchain.Stdio.Streams.Lines.{take_line, Stores, fgets-Stores}

-- `cs` cut behind each newline, and behind `n` bytes without one; `fuel` pieces at most.
abbrev pub cut_lines : ℕ → ℕ → List ℕ → List (List ℕ)
cut_lines zero n cs = []
cut_lines (suc fuel) n [] = []
cut_lines (suc fuel) n (c ∷ cs) =
    take_line n (c ∷ cs) ∷ cut_lines fuel n (drop (length (take_line n (c ∷ cs))) (c ∷ cs))

abbrev pub lines : ℕ → List ℕ → List (List ℕ)
lines n cs = cut_lines (length cs) n cs

take_line-drop : (n : ℕ) (cs : List ℕ) → take_line n cs ++ drop (length (take_line n cs)) cs ≡ cs
take_line-drop zero cs = refl
take_line-drop (suc n) [] = refl
take_line-drop (suc n) (c ∷ cs) = elim (Bool-cases (c == b'\n')) [
  | inl e ↦ rw e refl
  | inr e ↦ rw e (ap (◌∷◌ c) (take_line-drop n cs))
]

take_line-bounds :
    (n c : ℕ) (cs : List ℕ)
    → 1 ≤ n
    → (1 ≤ length (take_line n (c ∷ cs))) × (length (take_line n (c ∷ cs)) ≤ n)
take_line-bounds zero c cs lo = absurd (omega arith)
take_line-bounds (suc zero) c cs lo = ground arith
take_line-bounds (suc (suc n)) c [] lo = ground arith
take_line-bounds (suc (suc n)) c (d ∷ cs) lo = ground (arith, take_line-bounds (suc n) d cs)

All-drop : (P : ℕ → Type 0) (n : ℕ) (xs : List ℕ) → All P xs → All P (drop n xs)
All-drop P zero xs h = h
All-drop P (suc n) [] h = h
All-drop P (suc n) (x ∷ xs) h = All-drop P n xs h.1

length-drop : (n : ℕ) (xs : List ℕ) → length (drop n xs) ≡ length xs - n
length-drop zero xs = omega arith
length-drop (suc n) [] = omega arith
length-drop (suc n) (x ∷ xs) = length-drop n xs ∙ omega arith

-- Nothing is lost: the pieces make up the whole.
concat-cut_lines :
    (fuel n : ℕ) (cs : List ℕ) → 1 ≤ n → length cs ≤ fuel → concat (cut_lines fuel n cs) ≡ cs
concat-cut_lines zero n [] lo le = refl
concat-cut_lines zero n (c ∷ cs) lo le = absurd (omega arith)
concat-cut_lines (suc fuel) n [] lo le = refl
concat-cut_lines (suc fuel) n (c ∷ cs) lo le =
    let rest = drop (length (take_line n (c ∷ cs))) (c ∷ cs) in
    let shorter : length rest ≤ fuel =
      omega
        (arith, length-drop (length (take_line n (c ∷ cs))) (c ∷ cs), take_line-bounds n c cs lo) in
    ap (λ x. take_line n (c ∷ cs) ++ x) (concat-cut_lines fuel n rest lo shorter)
    ∙ take_line-drop n (c ∷ cs)

Holds-intro :
    (m : Memory) (a : ℕ) (t : List ℕ)
    → ((j : ℕ) → j < length t → m (a + j) ≡ get_or t j 0)
    → Holds m a t
Holds-intro m a [] h = tt
Holds-intro m a (c ∷ t) h = (
  ap m (omega arith) ∙ h 0 (omega arith),
  Holds-intro m (suc a) t (λ j lt. ap m (omega arith) ∙ h (suc j) (omega arith)),
)

module _ {K : Type 0} (kernel : Kernel K) (fd : ℕ) (pending : K → List ℕ)
    (src : IsSource kernel fd pending) (sp stream s : ℕ) (slot : sp ≢ null) (there : stream ≢ null)
    (n : ℕ) (room : 1 ≤ n) (small : n + 1 < 2 ^ 31) (apart : (sp < s) ⊎ (s + n + 1 ≤ sp)) where
  -- The calls `fgets(s, n + 1, stream)` from `w` on leave the strings `ts` in the buffer, one after
  -- the other, and then return null.
  abbrev pub Reads : World K → List (List ℕ) → Type 0
  Reads w [] = (w' : World K) × (fgets kernel sp s (n + 1) stream w ≡ (null, w'))
  Reads w (t ∷ ts) =
      (w' : World K) × (fgets kernel sp s (n + 1) stream w ≡ (s, w'))
      × Holds w'.mem s (t ++ 0 ∷ [])
      × Reads w' ts

  Stores-Holds :
      (w w' : World K) (t rest : List ℕ)
      → length t ≤ n
      → Stores kernel fd pending src sp stream s slot there w w' s (t ++ 0 ∷ []) rest
      → Holds w'.mem s (t ++ 0 ∷ [])
  Stores-Holds w w' t rest le st =
      Holds-intro w'.mem s (t ++ 0 ∷ [])
        λ j lt. ground (arith, st.bytes (s + j), length-append {0} t (0 ∷ []), offset j)
    where
      offset : (j : ℕ) → s + j - s ≡ j
      offset j = omega arith

  Reads_end :
      (w : World K)
      → (w.files stream).fd ≡ fd
      → pending w.sys ≡ []
      → (w' : World K) × (fgets kernel sp s (n + 1) stream w ≡ (null, w'))
  Reads_end w same more =
      let (w', case) =
        fgets-Stores kernel fd pending src sp stream s slot there n [] w same more tt room small in
      elim case [ inl h ↦ (w', h.1) | inr h ↦ absurd (h.0 refl) ]

  fgets_some :
      (c : ℕ) (cs : List ℕ) (w : World K)
      → (w.files stream).fd ≡ fd
      → pending w.sys ≡ c ∷ cs
      → All (λ b. b < 256) (c ∷ cs)
      → (w' : World K) × (fgets kernel sp s (n + 1) stream w ≡ (s, w'))
        × Stores kernel fd pending src sp stream s slot there w w' s
            (take_line n (c ∷ cs) ++ 0 ∷ [])
            (drop (length (take_line n (c ∷ cs))) (c ∷ cs))
  fgets_some c cs w same more bytes =
      let (w', case) =
        fgets-Stores kernel fd pending src sp stream s slot there n (c ∷ cs) w same more bytes room
          small in
      elim case [ inl h ↦ absurd (cc (h.0)) | inr h ↦ (w', h.1, h.2) ]

  Reads-cut_lines :
      (fuel : ℕ) (cs : List ℕ) (w : World K)
      → (w.files stream).fd ≡ fd
      → pending w.sys ≡ cs
      → All (λ c. c < 256) cs
      → length cs ≤ fuel
      → Reads w (cut_lines fuel n cs)
  Reads-cut_lines zero [] w same more bytes le = Reads_end w same more
  Reads-cut_lines zero (c ∷ cs) w same more bytes le = absurd (omega arith)
  Reads-cut_lines (suc fuel) [] w same more bytes le = Reads_end w same more
  Reads-cut_lines (suc fuel) (c ∷ cs) w same more bytes le =
      let t = take_line n (c ∷ cs) in
      let (lo, hi) = take_line-bounds n c cs room in
      let (w', run, st) = fgets_some c cs w same more bytes in
      (
        w',
        run,
        Stores-Holds w w' t _ hi st,
        Reads-cut_lines fuel (drop (length t) (c ∷ cs)) w' st.fd_kept st.left_over
            (All-drop (λ b. b < 256) (length t) (c ∷ cs) bytes)
            (omega (arith, length-drop (length t) (c ∷ cs))),
      )

  -- The calls `fgets(s, n + 1, stream)`, with room for at least one byte and the local variable
  -- apart from the buffer, on a stream whose descriptor still delivers `cs`, return the lines of
  -- `cs` one after the other, each cut into pieces of at most `n` bytes and terminated, and then
  -- null. The pieces make up `cs`: no byte is lost or repeated.
  pub fgets-lines :
      (cs : List ℕ) (w : World K)
      → (w.files stream).fd ≡ fd
      → pending w.sys ≡ cs
      → All (λ c. c < 256) cs
      → Reads w (lines n cs) × (concat (lines n cs) ≡ cs)
  fgets-lines cs w same more bytes = (
    Reads-cut_lines (length cs) cs w same more bytes (omega arith),
    concat-cut_lines (length cs) n cs room (omega arith),
  )
