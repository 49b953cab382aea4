-- ===== src/Errno/Message.antt =====
-- What perror of sdk/src/errno.c writes, and how the two lists of error texts compare.
use axiome_toolchain.Base.{
  ℕ, ◌^◌, ◌<◌, ◌≡◌, ◌≢◌, refl, sym, ap, ◌∙◌, ◌⊎◌, inl, inr, List, [], ◌∷◌, ◌++◌, some, codes, true,
  false, arith, length, ◌==◌, Bool-cases, append-nil, ◌||◌,
}
use axiome_toolchain.Memory.{Memory, null, CString}
use axiome_toolchain.World.{World}
use axiome_toolchain.Strings.Scan.Place.{strlen-length}
use axiome_toolchain.System.Call.{Kernel}
use axiome_toolchain.System.Files.{write}
use axiome_toolchain.System.Terminal.{IsTerminal, After, write-After, After-mem, After-then}
use axiome_toolchain.Util.{ax_strerror}
use axiome_toolchain.Errno.{strerror_internal, show, show_prefix, perror}

-- The two lists of texts agree on every number but two, and differ on these: ESRCH, which is "No such
-- process" for strerror_internal and "Unknown error" for ax_strerror, and ENOTEMPTY, which is
-- "Unknown error" for strerror_internal and "Directory not empty" for ax_strerror.
pub strerror_internal-ax_strerror :
    (e : ℕ)
    → ((e ≢ 3) × (e ≢ 39) × (strerror_internal e ≡ ax_strerror e))
      ⊎ ((e ≡ 3)
          × (strerror_internal e ≡ codes "No such process")
          × (ax_strerror e ≡ codes "Unknown error"))
      ⊎ ((e ≡ 39)
          × (strerror_internal e ≡ codes "Unknown error")
          × (ax_strerror e ≡ codes "Directory not empty"))
strerror_internal-ax_strerror e = elim (Bool-cases (e == 3)) [
  | inl same ↦
      let number : e ≡ 3 = ground arith in inr (inl (number, rw number refl, rw number refl))
  | inr other ↦ elim (Bool-cases (e == 39)) [
    | inl same ↦
        let number : e ≡ 39 = ground arith in inr (inr (number, rw number refl, rw number refl))
    | inr other' ↦ inl (ground arith, ground arith, rw (other, other') refl)
  ]
]

-- What perror writes before the text of the error.
abbrev pub prefix : List ℕ → List ℕ
prefix [] = []
prefix (x ∷ xs) = (x ∷ xs) ++ codes ": "

-- The argument of perror: a string, or a null pointer, which stands for the empty one.
abbrev pub Optional : Memory → ℕ → List ℕ → Type 0
Optional m s xs = ((s ≡ null) × (xs ≡ [])) ⊎ ((s ≢ null) × CString m s xs)

module _ {K : Type 0} (kernel : Kernel K) (literal : List ℕ → ℕ) (delivered : K → List ℕ)
    (terminal : IsTerminal kernel 2 delivered) where
  show-After :
      (fuel p : ℕ) (t : List ℕ) (w : World K)
      → CString w.mem p t
      → length t < fuel
      → length t < 2 ^ 63
      → (w' : World K) × (show kernel literal fuel p w ≡ some w')
        × After kernel 2 delivered terminal w t w'
  unfolding show
  show-After fuel p t w h enough small = (
    (write kernel 2 p (length t) w).1,
    rw (strlen-length fuel p w.mem t h enough) refl,
    write-After kernel 2 delivered terminal p t w h small,
  )

  show_prefix-After :
      (fuel s : ℕ) (xs : List ℕ) (w : World K)
      → Optional w.mem s xs
      → CString w.mem (literal (codes ": ")) (codes ": ")
      → length xs < fuel
      → length xs < 2 ^ 63
      → (w' : World K) × (show_prefix kernel literal fuel s w ≡ some w')
        × After kernel 2 delivered terminal w (prefix xs) w'
  unfolding show_prefix
  show_prefix-After fuel s xs w (inl (absent, empty)) colon enough small = (
    w,
    rw absent refl,
    (
      w.sys,
      refl,
      sym (append-nil (delivered w.sys)) ∙ ap (λ x. delivered w.sys ++ prefix x) (sym empty),
    ),
  )
  show_prefix-After fuel s [] w (inr (there, h)) colon enough small =
      let test : (s == null) || (w.mem s == 0) ≡ true = ground arith in
      (w, rw test refl, (w.sys, refl, sym (append-nil (delivered w.sys))))
  show_prefix-After fuel s (x ∷ xs) w (inr (there, h)) colon enough small =
      let test : (s == null) || (w.mem s == 0) ≡ false = ground arith in
      let (w', run, after) = show-After fuel s (x ∷ xs) w h enough small in
      let kept = After-mem kernel 2 delivered terminal w w' (x ∷ xs) after in
      let last =
        write-After kernel 2 delivered terminal (literal (codes ": ")) (codes ": ") w'
          (rw kept colon) (omega arith) in
      (
        (write kernel 2 (literal (codes ": ")) 2 w').1,
        rw (test, run) refl,
        After-then kernel 2 delivered terminal w w' _ (x ∷ xs) (codes ": ") after last,
      )

  -- perror, given a null pointer or a string, with fuel above the lengths of the string and of the
  -- error's text, ends; on a descriptor 2 that takes each write in full it delivers the string and a
  -- colon with a space, when there is a string and it is not empty, then the text of the error that
  -- `errno` held at the call, then a newline. It leaves memory, `errno` and the streams alone.
  pub perror-After :
      (fuel s : ℕ) (xs : List ℕ) (w : World K)
      → Optional w.mem s xs
      → CString w.mem (literal (codes ": ")) (codes ": ")
      → CString w.mem (literal (strerror_internal w.libc.errno)) (strerror_internal w.libc.errno)
      → CString w.mem (literal (codes "\n")) (codes "\n")
      → length xs < fuel
      → length (strerror_internal w.libc.errno) < fuel
      → fuel < 2 ^ 63
      → (k' : K) × (perror kernel literal fuel s w ≡ some (record w { sys = k' }))
        × (delivered k'
            ≡ delivered w.sys ++ (prefix xs ++ (strerror_internal w.libc.errno ++ codes "\n")))
  unfolding perror
  perror-After fuel s xs w given colon text newline enough enough' small =
      let message : List ℕ = strerror_internal w.libc.errno in
      let (w1, run1, after1) = show_prefix-After fuel s xs w given colon enough (omega arith) in
      let kept1 = After-mem kernel 2 delivered terminal w w1 (prefix xs) after1 in
      let (w2, run2, after2) =
        show-After fuel (literal message) message w1 (rw kept1 text) enough' (omega arith) in
      let kept2 = After-mem kernel 2 delivered terminal w1 w2 message after2 ∙ kept1 in
      let after3 =
        write-After kernel 2 delivered terminal (literal (codes "\n")) (codes "\n") w2
          (rw kept2 newline) (omega arith) in
      let (k', same, told) =
        After-then kernel 2 delivered terminal w w1 _ (prefix xs) (message ++ codes "\n") after1
          (After-then kernel 2 delivered terminal w1 w2 _ message (codes "\n") after2 after3) in
      (k', rw (run1, run2) (ap some same), told)
