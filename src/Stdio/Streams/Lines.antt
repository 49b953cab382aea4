-- ===== src/Stdio/Streams/Lines.antt =====
-- What fgets of sdk/src/stdio.c takes from a descriptor: one line, as far as it fits.
use mathlib.Core.Path.{subst}
use native.Mathlib.Nat.{add-zero}
use axiome_toolchain.Base.{
  ℕ, zero, suc, ◌+◌, ◌-◌, ◌%◌, ◌^◌, ◌≤◌, ◌<◌, ◌≡◌, ◌≢◌, ◌⊎◌, refl, ap, ◌∙◌, inl, inr, List, [], ◌∷◌,
  ◌++◌, Option, none, some, false, ◌&&◌, ◌||◌, arith, All, length, get_or, drop, ltb, ◌↔◌,
  length-append, leb, ◌==◌, if◌then◌else◌, Bool-cases,
}
use axiome_toolchain.Memory.{Memory, null, store}
use axiome_toolchain.World.{World, set_file}
use axiome_toolchain.System.Call.{Kernel}
use axiome_toolchain.Stdio.Snprintf.Text.{get_or-snoc}
use axiome_toolchain.Stdio.Streams.{fgetc, fgets_loop, fgets, eof, poke, finish}
use axiome_toolchain.Stdio.Streams.Source.{IsSource, fgetc-byte, fgetc-end}

-- The front of `cs` up to its first newline, `n` bytes at most.
abbrev pub take_line : ℕ → List ℕ → List ℕ
take_line zero cs = []
take_line (suc n) [] = []
take_line (suc n) (c ∷ cs) = if c == b'\n' then c ∷ [] else c ∷ take_line n cs

-- Memory `m` with the bytes `t` at `a`.
abbrev pub with_bytes : Memory → ℕ → List ℕ → Memory
with_bytes m a t x = if leb a x && ltb (x - a) (length t) then get_or t (x - a) 0 else m x

abbrev answer : ℕ → ℕ → Option ℕ
answer zero n = some n
answer (suc left) n = if n == 0 then none else some n

answer_more : (left i n : ℕ) → answer left (suc i + n) ≡ answer (suc left) (i + suc n)
answer_more zero i n = ground arith
answer_more (suc left) i n = ground arith

answer-some : (left n : ℕ) → 0 < n → answer (suc left) (0 + n) ≡ some n
answer-some left n lt = ground arith

length-take_line : (n c : ℕ) (cs : List ℕ) → 0 < length (take_line (suc n) (c ∷ cs))
length-take_line n c cs = ground arith

module _ {K : Type 0} (kernel : Kernel K) (fd : ℕ) (pending : K → List ℕ)
    (src : IsSource kernel fd pending) (sp stream s : ℕ) (slot : sp ≢ null)
    (there : stream ≢ null) where
  -- The call stores `t` at `a`, and has no other effect on memory, the library or other streams
  -- than that on the local variable at `sp`. What the descriptor has left is `cs`.
  pub record Stores (w w' : World K) (a : ℕ) (t cs : List ℕ) : Type 0 where
    pub fd_kept : (w'.files stream).fd ≡ fd
    pub files_kept : (q : ℕ) → q ≢ stream → w'.files q ≡ w.files q
    pub libc_kept : w'.libc ≡ w.libc
    pub bytes : (x : ℕ) → x ≢ sp → w'.mem x ≡ with_bytes w.mem a t x
    pub left_over : pending w'.sys ≡ cs

  -- The world behind a byte read into `sp` and stored at `a`.
  abbrev stored : ℕ → ℕ → K → World K → World K
  stored a c k' w = poke a c (record w { mem = store w.mem sp c; sys = k' })

  Stores-none : (w : World K) (a : ℕ) → (w.files stream).fd ≡ fd → Stores w w a [] (pending w.sys)
  Stores-none w a same = record {
    fd_kept = same;
    files_kept = λ q ne. refl;
    libc_kept = refl;
    bytes = λ x ne. ground arith;
    left_over = refl;
  }

  Stores-cons :
      (w w' : World K) (k' : K) (a b c : ℕ) (t cs : List ℕ)
      → b ≡ suc a
      → Stores (stored a c k' w) w' b t cs
      → Stores w w' a (c ∷ t) cs
  Stores-cons w w' k' a b c t cs e st = record {
    fd_kept = st.fd_kept;
    files_kept = st.files_kept;
    libc_kept = st.libc_kept;
    bytes = λ x ne. st.bytes x ne ∙ step x ne;
    left_over = st.left_over;
  }
    where
      before : (x : ℕ) → a < x → x - a ≡ suc (x - suc a)
      before x lt = omega arith

      step :
          (x : ℕ) → x ≢ sp → with_bytes (stored a c k' w).mem b t x ≡ with_bytes w.mem a (c ∷ t) x
      step x ne = rw e (ground (arith, before x))

  fgets_step :
      (left i c : ℕ) (w w1 : World K)
      → fgetc kernel sp stream w ≡ (c, w1)
      → c < 256
      → fgets_loop kernel (suc left) i sp s stream w ≡ (
          if c == b'\n'
          then (some (suc i), poke (s + i) c w1)
          else fgets_loop kernel left (suc i) sp s stream (poke (s + i) c w1))
  unfolding fgets_loop
  fgets_step left i c w w1 e small =
      let not_end : (c == eof) ≡ false = ground arith in
      let same : c % 256 ≡ c = omega arith in rw (e, not_end, same) refl

  fgets_end :
      (left i : ℕ) (w w1 : World K)
      → fgetc kernel sp stream w ≡ (eof, w1)
      → fgets_loop kernel (suc left) i sp s stream w ≡ (if i == 0 then none else some i, w1)
  unfolding fgets_loop
  fgets_end left i w w1 e = rw e refl

  -- What the loop does with `left` rounds to go and `i` bytes stored.
  abbrev Takes : ℕ → ℕ → List ℕ → World K → Type 0
  Takes left i cs w =
      (w' : World K) × (fgets_loop kernel left i sp s stream w
        ≡ (answer left (i + length (take_line left cs)), w'))
      × Stores w w' (s + i) (take_line left cs) (drop (length (take_line left cs)) cs)

  Takes-cons :
      (left i c : ℕ) (cs : List ℕ) (w : World K) (k' : K)
      → (w.files stream).fd ≡ fd
      → c < 256
      → pending k' ≡ cs
      → fgetc kernel sp stream w ≡ (c, record w { mem = store w.mem sp c; sys = k' })
      → Takes left (suc i) cs (stored (s + i) c k' w)
      → Takes (suc left) i (c ∷ cs) w
  Takes-cons left i c cs w k' same small rest e (w', run, st) = elim (Bool-cases (c == b'\n')) [
    | inl nl ↦ rw nl (
      stored (s + i) c k' w,
      fgets_step left i c w _ e small ∙ rw nl (ap (λ o. (o, stored (s + i) c k' w)) (ground arith)),
      Stores-cons w _ k' (s + i) (suc (s + i)) c [] cs refl
          (subst (Stores _ _ _ _) rest (Stores-none (stored (s + i) c k' w) (suc (s + i)) same)),
    )
    | inr other ↦ rw other (
      w',
      fgets_step left i c w _ e small
          ∙ rw other (run ∙ ap (λ o. (o, w')) (answer_more left i (length (take_line left cs)))),
      Stores-cons w w' k' (s + i) (s + suc i) c _ _ (omega arith) st,
    )
  ]

  fgets_loop-Takes :
      (left i : ℕ) (cs : List ℕ) (w : World K)
      → (w.files stream).fd ≡ fd
      → pending w.sys ≡ cs
      → All (λ c. c < 256) cs
      → Takes left i cs w
  unfolding fgets_loop
  fgets_loop-Takes zero i cs w same more small =
      (w, rw add-zero refl, subst (Stores w w (s + i) []) more (Stores-none w (s + i) same))
  fgets_loop-Takes (suc left) i [] w same more small =
      let (k', e, rest) = fgetc-end kernel fd pending src sp stream slot there w same more in
      (
        set_file stream (record (w.files stream) { eof = 1 }) (record w { sys = k' }),
        fgets_end left i w _ e ∙ rw add-zero refl,
        record {
          fd_kept = ground arith;
          files_kept = λ q ne. ground arith;
          libc_kept = refl;
          bytes = λ x ne. ground arith;
          left_over = rest;
        },
      )
  fgets_loop-Takes (suc left) i (c ∷ cs) w same more small =
      let (k', e, rest) = fgetc-byte kernel fd pending src sp stream slot there w c cs same more in
      Takes-cons left i c cs w k' same small.0 rest e
        (fgets_loop-Takes left (suc i) cs (stored (s + i) c k' w) same rest small.1)

  Stores-snoc :
      (w w' : World K) (a c : ℕ) (t cs : List ℕ)
      → Stores w w' a t cs
      → Stores w (poke (a + length t) c w') a (t ++ c ∷ []) cs
  Stores-snoc w w' a c t cs st = record {
    fd_kept = st.fd_kept;
    files_kept = st.files_kept;
    libc_kept = st.libc_kept;
    bytes = λ x ne.
        ground
          (arith, st.bytes x ne, get_or-snoc t c (x - a), length-append {0} t (c ∷ []), place x);
    left_over = st.left_over;
  }
    where
      place : (x : ℕ) → a ≤ x → (x - a ≡ length t) ↔ (x ≡ a + length t)
      place x le = (λ h. omega arith, λ h. omega arith)

  fgets_run :
      (left : ℕ) (w : World K)
      → suc left + 1 < 2 ^ 31
      → fgets kernel sp s (suc left + 1) stream w
        ≡ finish s (fgets_loop kernel (suc left) 0 sp s stream w)
  unfolding fgets
  fgets_run left w small =
      let guard : ((suc left + 1 == 0) || leb (2 ^ 31) (suc left + 1)) ≡ false = ground arith in
      let rounds : suc left + 1 - 1 ≡ suc left = omega arith in rw (guard, rounds) refl

  -- fgets with room for `n` bytes and a terminator, on a stream whose descriptor still delivers the
  -- bytes `cs`: with none left it returns null and stores nothing. Otherwise it returns the buffer
  -- with the bytes up to the first newline, `n` at most, and a 0 behind them, and leaves the rest to
  -- be read. No byte changes but these and the local variable's.
  pub fgets-Stores :
      (n : ℕ) (cs : List ℕ) (w : World K)
      → (w.files stream).fd ≡ fd
      → pending w.sys ≡ cs
      → All (λ c. c < 256) cs
      → 1 ≤ n
      → n + 1 < 2 ^ 31
      → (w' : World K) × (((cs ≡ [])
            × (fgets kernel sp s (n + 1) stream w ≡ (null, w'))
            × Stores w w' s [] [])
          ⊎ ((cs ≢ [])
              × (fgets kernel sp s (n + 1) stream w ≡ (s, w'))
              × Stores w w' s (take_line n cs ++ 0 ∷ []) (drop (length (take_line n cs)) cs)))
  fgets-Stores zero cs w same more small lo hi = absurd (omega arith)
  fgets-Stores (suc left) [] w same more small lo hi =
      let (w', run, st) = fgets_loop-Takes (suc left) 0 [] w same more small in
      (w', inl (refl, fgets_run left w hi ∙ ap (finish s) run ∙ refl, rw add-zero at st))
  fgets-Stores (suc left) (c ∷ cs) w same more small lo hi =
      let (w', run, st) = fgets_loop-Takes (suc left) 0 (c ∷ cs) w same more small in
      let t = take_line (suc left) (c ∷ cs) in
      let some_len = answer-some left (length t) (length-take_line left c cs) in
      (
        poke (s + length t) 0 w',
        inr (
          λ e. cc e,
          fgets_run left w hi ∙ ap (finish s) (run ∙ ap (λ o. (o, w')) some_len),
          Stores-snoc w w' s 0 t _ (rw add-zero at st),
        ),
      )
