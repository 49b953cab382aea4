-- ===== src/Stdio/Format/Refined.antt =====
-- Two instances of the loop over the format of sdk/src/stdio.c, where the steps of one give the
-- results of the other's.
use axiome_toolchain.Base.{
  ℕ, zero, suc, ◌≡◌, refl, inl, inr, List, [], ◌∷◌, Option, none, some, ◌==◌, Bool-cases,
}
use axiome_toolchain.Stdio.Format.Directive.{Directive, parse_directive}
use axiome_toolchain.Stdio.Format.Run.{Run, done, undefined, overrun, Arg, ◌>>=◌}
use axiome_toolchain.Stdio.Format.Loop.{run_directive, after_percent, walk}

pub >>=_done {ℓ κ} :
    {A : Type ℓ} {B : Type κ} (r : Run A) (f : A → Run B) (b : B)
    → r >>= f ≡ done b
    → (a : A) × (r ≡ done a) × (f a ≡ done b)
>>=_done (done a) f b e = (a, refl, e)
>>=_done undefined f b e = absurd (cc)
>>=_done overrun f b e = absurd (cc)

module _ {S : Type 0} (literal : ℕ → S → S)
    (convert convert' : Directive → List Arg → S → Run (List Arg × S))
    (steps : (d : Directive) (args : List Arg) (s : S) (r : List Arg × S)
      → convert d args s ≡ done r
      → convert' d args s ≡ done r) where
  run_directive-done :
      (next next' : List ℕ → List Arg → S → Run S)
      → ((fmt : List ℕ) (args : List Arg) (s r : S)
          → next fmt args s ≡ done r
          → next' fmt args s ≡ done r)
      → (o : Option (Option (Directive × List ℕ))) (args : List Arg) (s r : S)
      → run_directive convert next o args s ≡ done r
      → run_directive convert' next' o args s ≡ done r
  run_directive-done next next' ih none args s r e = e
  run_directive-done next next' ih (some none) args s r e = e
  run_directive-done next next' ih (some (some (d, rest))) args s r e =
      let (a, ea, e') = >>=_done (convert d args s) _ r e in
      rw (steps d args s a ea) (ih rest a.0 a.1 r e')

  after_percent-done :
      (next next' : List ℕ → List Arg → S → Run S)
      → ((fmt : List ℕ) (args : List Arg) (s r : S)
          → next fmt args s ≡ done r
          → next' fmt args s ≡ done r)
      → (fmt : List ℕ) (args : List Arg) (s r : S)
      → after_percent literal convert next fmt args s ≡ done r
      → after_percent literal convert' next' fmt args s ≡ done r
  after_percent-done next next' ih [] args s r e = e
  after_percent-done next next' ih (c ∷ fmt) args s r e = elim (Bool-cases (c == b'%')) [
    | inl p ↦ rw p (ih fmt args (literal b'%' s) r (rw p at e))
    | inr p ↦
        rw p (run_directive-done next next' ih (parse_directive (c ∷ fmt)) args s r (rw p at e))
  ]

  pub walk-done :
      (fuel : ℕ) (fmt : List ℕ) (args : List Arg) (s r : S)
      → walk literal convert fuel fmt args s ≡ done r
      → walk literal convert' fuel fmt args s ≡ done r
  unfolding walk
  walk-done zero fmt args s r e = absurd (cc)
  walk-done (suc fuel) [] args s r e = e
  walk-done (suc fuel) (c ∷ fmt) args s r e = elim (Bool-cases (c == b'%')) [
    | inl p ↦ rw p (
        after_percent-done (walk literal convert fuel) (walk literal convert' fuel) (walk-done fuel)
          fmt args s r (rw p at e))
    | inr p ↦ rw p (walk-done fuel fmt args (literal c s) r (rw p at e))
  ]
