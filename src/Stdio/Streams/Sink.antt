-- ===== src/Stdio/Streams/Sink.antt =====
-- A descriptor that can be written, as write(2) describes it, and fwrite and fputs of
-- sdk/src/stdio.c on it.
use mathlib.Core.Path.{subst}
use axiome_toolchain.Base.{
  ℕ, zero, suc, ◌-◌, ◌*◌, ◌/◌, ◌%◌, ◌^◌, ◌≤◌, ◌<◌, ◌≡◌, ◌≢◌, refl, sym, ap, fun_ext, take-length,
  ◌∙◌, ◌⊎◌, inl, inr, List, [], ◌∷◌, ◌++◌, some, false, arith, length, take, ◌==◌,
}
use axiome_toolchain.Memory.{Memory, null, CString}
use axiome_toolchain.World.{World, set_file, set_errno}
use axiome_toolchain.Stdlib.Heap.{word}
use axiome_toolchain.Strings.Scan.Place.{strlen-length}
use axiome_toolchain.System.Sys
use axiome_toolchain.System.Call.{Kernel, long_of_int, minus_one}
use axiome_toolchain.System.Call.Outcome.{value, failure, syscall-result}
use axiome_toolchain.System.Files.{write}
use axiome_toolchain.Stdio.Buffer.{cells}
use axiome_toolchain.Stdio.Format.Run.{is_negative}
use axiome_toolchain.Stdio.Streams.{fwrite, fputs, sent}

-- `delivered` is what the descriptor has taken so far. A write of `n` bytes appends the first `r` of
-- them and answers `r`, or appends none and answers with an error.
pub record IsSink {K : Type 0} (kernel : Kernel K) (fd : ℕ) (delivered : K → List ℕ) : Type 0 where
  pub write_lem :
      (p n : ℕ) (m : Memory) (k : K)
      → n < 2 ^ 63
      → ((r : ℕ) × (k' : K) × (r ≤ n)
          × (kernel Sys.write (long_of_int fd) p n 0 0 0 m k ≡ (r, m, k'))
          × (delivered k' ≡ delivered k ++ cells m p r))
        ⊎ ((e : ℕ) × (k' : K) × (1 ≤ e)
            × (e ≤ 4095)
            × (kernel Sys.write (long_of_int fd) p n 0 0 0 m k ≡ (2 ^ 64 - e, m, k'))
            × (delivered k' ≡ delivered k))

-- The first `r` bytes of a string in memory.
pub cells-take :
    (m : Memory) (s : ℕ) (xs : List ℕ) (r : ℕ)
    → CString m s xs
    → r ≤ length xs
    → cells m s r ≡ take r xs
cells-take m s xs zero h le = refl
cells-take m s [] (suc r) h le = absurd (omega arith)
cells-take m s (x ∷ xs) (suc r) h le = ground (arith, cells-take m (suc s) xs r h.2 (omega arith))

module _ {K : Type 0} (kernel : Kernel K) (fd : ℕ) (delivered : K → List ℕ)
    (snk : IsSink kernel fd delivered) (stream : ℕ) (there : stream ≢ null) where
  -- A call that returns `counted r` when the first `r` of the bytes `t` are delivered, or `failed`
  -- when the system call fails: then `errno` holds its error, the stream's `err` is set, and
  -- nothing is delivered. Nothing else changes.
  abbrev pub Delivers : World K → List ℕ → (ℕ → ℕ) → ℕ → ℕ × World K → Type 0
  Delivers w t counted failed call =
      ((r : ℕ) × (k' : K) × (r ≤ length t)
        × (call ≡ (counted r, record w { sys = k' }))
        × (delivered k' ≡ delivered w.sys ++ take r t))
      ⊎ ((e : ℕ) × (k' : K) × (1 ≤ e)
          × (e ≤ 4095)
          × (call ≡ (
            failed,
            set_file stream (record (w.files stream) { err = 1 })
                (set_errno e (record w { sys = k' })),
          ))
          × (delivered k' ≡ delivered w.sys))

  write-value :
      (w : World K) (p n r : ℕ) (k' : K)
      → (w.files stream).fd ≡ fd
      → r ≤ n
      → n < 2 ^ 63
      → kernel Sys.write (long_of_int fd) p n 0 0 0 w.mem w.sys ≡ (r, w.mem, k')
      → write kernel (w.files stream).fd p n w ≡ (r, record w { sys = k' })
  unfolding write
  write-value w p n r k' same le small ran = rw same (
      syscall-result kernel Sys.write (long_of_int fd) p n 0 0 0 w (value r) w.mem k' (omega arith)
        ran)

  write-failure :
      (w : World K) (p n e : ℕ) (k' : K)
      → (w.files stream).fd ≡ fd
      → 1 ≤ e
      → e ≤ 4095
      → kernel Sys.write (long_of_int fd) p n 0 0 0 w.mem w.sys ≡ (2 ^ 64 - e, w.mem, k')
      → write kernel (w.files stream).fd p n w ≡ (minus_one, set_errno e (record w { sys = k' }))
  unfolding write
  write-failure w p n e k' same lo hi ran = rw same (
      syscall-result kernel Sys.write (long_of_int fd) p n 0 0 0 w (failure e) w.mem k' (lo, hi)
        ran)

  fwrite-sent :
      (ptr size nmemb : ℕ) (w : World K) (r : ℕ × World K)
      → ptr ≢ null
      → 0 < size
      → 0 < nmemb
      → size * nmemb < 2 ^ 63
      → write kernel (w.files stream).fd ptr (size * nmemb) w ≡ r
      → fwrite kernel ptr size nmemb stream w ≡ sent size stream r
  unfolding fwrite
  fwrite-sent ptr size nmemb w r p s n small e =
      let a : (stream == null) ≡ false = ground arith in
      let b : (ptr == null) ≡ false = ground arith in
      let c : (size == 0) ≡ false = ground arith in
      let d : (nmemb == 0) ≡ false = ground arith in
      let whole : size * nmemb % word ≡ size * nmemb = omega arith in rw (a, b, c, d, whole, e) refl

  length-cells : (m : Memory) (p n : ℕ) → length (cells m p n) ≡ n
  length-cells m p zero = refl
  length-cells m p (suc n) = ap suc (length-cells m (suc p) n)

  take-cells : (m : Memory) (p n r : ℕ) → r ≤ n → take r (cells m p n) ≡ cells m p r
  take-cells m p n zero le = refl
  take-cells m p zero (suc r) le = absurd (omega arith)
  take-cells m p (suc n) (suc r) le = ap (◌∷◌ (m p)) (take-cells m (suc p) n r (omega arith))

  sent-value : (size r : ℕ) (w : World K) → r < 2 ^ 63 → sent size stream (r, w) ≡ (r / size, w)
  sent-value size r w small = let plus : is_negative r ≡ false = ground arith in rw plus refl

  -- fwrite of `nmemb` items of `size` bytes, both positive and their product below 2^63: where write
  -- takes the first `r` bytes, these are delivered and the call returns `r / size`, the count of
  -- whole items; where it fails, the call returns 0 and the stream's `err` and `errno` tell so.
  pub fwrite-Delivers :
      (ptr size nmemb : ℕ) (w : World K)
      → (w.files stream).fd ≡ fd
      → ptr ≢ null
      → 0 < size
      → 0 < nmemb
      → size * nmemb < 2 ^ 63
      → Delivers w
          (cells w.mem ptr (size * nmemb))
          (λ r. r / size)
          0
          (fwrite kernel ptr size nmemb stream w)
  fwrite-Delivers ptr size nmemb w same p s n small =
      elim (snk.write_lem ptr (size * nmemb) w.mem w.sys small) [
        | inl (r, k', le, ran, told) ↦ inl (
          r,
          k',
          omega (arith, length-cells w.mem ptr (size * nmemb)),
          fwrite-sent ptr size nmemb w _ p s n small
                (write-value w ptr (size * nmemb) r k' same le small ran)
              ∙ sent-value size r (record w { sys = k' }) (omega arith),
          told ∙ ap (λ x. delivered w.sys ++ x) (sym (take-cells w.mem ptr (size * nmemb) r le)),
        )
        | inr (e, k', lo, hi, ran, told) ↦ inr (
          e,
          k',
          lo,
          hi,
          fwrite-sent ptr size nmemb w _ p s n small
              (write-failure w ptr (size * nmemb) e k' same lo hi ran),
          told,
        )
      ]

  -- Bytes in one item each.
  pub fwrite-string :
      (s : ℕ) (xs : List ℕ) (w : World K)
      → (w.files stream).fd ≡ fd
      → s ≢ null
      → CString w.mem s xs
      → 0 < length xs
      → length xs < 2 ^ 63
      → Delivers w xs (λ r. r) 0 (fwrite kernel s 1 (length xs) stream w)
  fwrite-string s xs w same p h lo small =
      let whole : cells w.mem s (1 * length xs) ≡ xs =
        ap (cells w.mem s) (omega arith)
        ∙ cells-take w.mem s xs (length xs) h (omega arith)
        ∙ take-length xs in
      subst (λ f. Delivers w xs f 0 (fwrite kernel s 1 (length xs) stream w))
        (fun_ext (λ r. omega arith))
        (subst (λ t. Delivers w t (λ r. r / 1) 0 (fwrite kernel s 1 (length xs) stream w)) whole
          (fwrite-Delivers s 1 (length xs) w same p (omega arith) lo (omega arith)))

  pub Delivers-map :
      (w : World K) (t : List ℕ) (counted f : ℕ → ℕ) (failed : ℕ) (call : ℕ × World K)
      → Delivers w t counted failed call
      → Delivers w t (λ r. f (counted r)) (f failed) (f call.0, call.1)
  Delivers-map w t counted f failed call (inl (r, k', le, ran, told)) =
      inl (r, k', le, ap (λ (c : ℕ × World K). (f c.0, c.1)) ran, told)
  Delivers-map w t counted f failed call (inr (e, k', lo, hi, ran, told)) =
      inr (e, k', lo, hi, ap (λ (c : ℕ × World K). (f c.0, c.1)) ran, told)

  -- fputs of a string that is not empty and shorter than the fuel ends: where write takes the first
  -- `r` bytes of the string, these are delivered and the call returns `r` (its low 32 bits); where
  -- it fails, the call returns 0 and the stream's `err` and `errno` tell so.
  pub fputs-Delivers :
      (fuel s : ℕ) (xs : List ℕ) (w : World K)
      → (w.files stream).fd ≡ fd
      → s ≢ null
      → CString w.mem s xs
      → 0 < length xs
      → length xs < 2 ^ 63
      → length xs < fuel
      → (call : ℕ × World K) × (fputs kernel fuel s stream w ≡ some call)
        × Delivers w xs (λ r. r % 2 ^ 32) 0 call
  unfolding fputs
  fputs-Delivers fuel s xs w same p h lo small enough =
      let call = fwrite kernel s 1 (length xs) stream w in
      (
        (call.0 % 2 ^ 32, call.1),
        rw (strlen-length fuel s w.mem xs h enough, fputs) refl,
        Delivers-map w xs (λ r. r) (λ n. n % 2 ^ 32) 0 call
            (fwrite-string s xs w same p h lo small),
      )
