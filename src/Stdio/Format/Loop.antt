-- ===== src/Stdio/Format/Loop.antt =====
-- The loop over the format of vsnprintf_internal and vprintf in sdk/src/stdio.c: it hands on plain
-- characters and `%%` as they are, and each directive with the arguments. The two functions differ
-- in what they do with these, which are parameters here.
use mathlib.Core.Path.{subst}
use axiome_toolchain.Base.{
  ℕ, zero, suc, ◌≤◌, ◌<◌, ◌≡◌, ◌≢◌, refl, inl, inr, List, [], ◌∷◌, Option, none, some, arith,
  length, not, ◌==◌, if◌then◌else◌, Bool-cases,
}
use axiome_toolchain.Stdio.Format.Directive.{
  Directive, parse_directive, length-parse_directive, parse_directive-inside,
}
use axiome_toolchain.Stdio.Format.Run.{Run, done, undefined, overrun, Arg, ◌>>=◌}

module _ {S : Type 0} where
  abbrev pub run_directive :
      (Directive → List Arg → S → Run (List Arg × S))
      → (List ℕ → List Arg → S → Run S)
      → Option (Option (Directive × List ℕ))
      → List Arg
      → S
      → Run S
  run_directive convert next none args s = done s
  run_directive convert next (some none) args s = overrun
  run_directive convert next (some (some (d, rest))) args s =
      convert d args s >>= λ (args', s'). next rest args' s'

  -- Behind a `%`.
  abbrev pub after_percent :
      (ℕ → S → S)
      → (Directive → List Arg → S → Run (List Arg × S))
      → (List ℕ → List Arg → S → Run S)
      → List ℕ
      → List Arg
      → S
      → Run S
  after_percent literal convert next [] args s = done s
  after_percent literal convert next (c ∷ fmt) args s =
      if c == b'%'
      then next fmt args (literal b'%' s)
      else run_directive convert next (parse_directive (c ∷ fmt)) args s

  -- `for (; *fmt; fmt++)`; the fuel is the number of rounds that may start.
  unfoldable pub walk :
      (ℕ → S → S)
      → (Directive → List Arg → S → Run (List Arg × S))
      → ℕ
      → List ℕ
      → List Arg
      → S
      → Run S
  walk literal convert zero fmt args s = overrun
  walk literal convert (suc fuel) [] args s = done s
  walk literal convert (suc fuel) (c ∷ fmt) args s =
      let plain = walk literal convert fuel fmt args (literal c s) in
      let directive = after_percent literal convert (walk literal convert fuel) fmt args s in
      if not (c == b'%') then plain else directive

-- Two outcomes that agree, with related results.
abbrev pub Agree {ℓ κ} : {A : Type ℓ} {B : Type κ} → (A → B → Type 0) → Run A → Run B → Type 0
Agree P (done a) (done b) = P a b
Agree P undefined undefined = Unit {0}
Agree P overrun overrun = Unit {0}
Agree P _ _ = ⊥

-- Outcomes other than an overrun.
abbrev pub Ends {ℓ} : {A : Type ℓ} → Run A → Type 0
Ends (done a) = Unit {0}
Ends undefined = Unit {0}
Ends overrun = ⊥

>>=-Agree :
    {A B C D : Type 0} (P : A → B → Type 0) (Q : C → D → Type 0) (r : Run A) (r' : Run B)
    (f : A → Run C) (g : B → Run D)
    → Agree P r r'
    → ((a : A) (b : B) → P a b → Agree Q (f a) (g b))
    → Agree Q (r >>= f) (r' >>= g)
>>=-Agree P Q (done a) (done b) f g h k = k a b h
>>=-Agree P Q (done a) undefined f g h k = absurd h
>>=-Agree P Q (done a) overrun f g h k = absurd h
>>=-Agree P Q undefined (done b) f g h k = absurd h
>>=-Agree P Q undefined undefined f g h k = tt
>>=-Agree P Q undefined overrun f g h k = absurd h
>>=-Agree P Q overrun (done b) f g h k = absurd h
>>=-Agree P Q overrun undefined f g h k = absurd h
>>=-Agree P Q overrun overrun f g h k = tt

pub >>=-Ends :
    {A B : Type 0} (r : Run A) (f : A → Run B) → Ends r → ((a : A) → Ends (f a)) → Ends (r >>= f)
>>=-Ends (done a) f h k = k a
>>=-Ends undefined f h k = tt
>>=-Ends overrun f h k = absurd h

-- An outcome that agrees with a result.
pub Agree-done :
    {A B : Type 0} (P : A → B → Type 0) (r : Run A) (b : B)
    → Agree P r (done b)
    → (a : A) × (r ≡ done a) × P a b
Agree-done P (done a) b h = (a, refl, h)
Agree-done P undefined b h = absurd h
Agree-done P overrun b h = absurd h

-- Two instances of the loop whose steps keep a relation between their states agree.
module _ {S T : Type 0} (rel : S → T → Type 0) (literal : ℕ → S → S)
    (convert : Directive → List Arg → S → Run (List Arg × S)) (literal' : ℕ → T → T)
    (convert' : Directive → List Arg → T → Run (List Arg × T))
    (keep : (c : ℕ) (s : S) (t : T) → rel s t → rel (literal c s) (literal' c t))
    (steps : (d : Directive) (args : List Arg) (s : S) (t : T)
      → rel s t
      → Agree (λ a b. (a.0 ≡ b.0) × rel a.1 b.1) (convert d args s) (convert' d args t)) where
  run_directive-Agree :
      (next : List ℕ → List Arg → S → Run S) (next' : List ℕ → List Arg → T → Run T)
      → ((fmt : List ℕ) (args : List Arg) (s : S) (t : T)
          → rel s t
          → Agree rel (next fmt args s) (next' fmt args t))
      → (o : Option (Option (Directive × List ℕ))) (args : List Arg) (s : S) (t : T) → rel s t
      → Agree rel (run_directive convert next o args s) (run_directive convert' next' o args t)
  run_directive-Agree next next' ih none args s t r = r
  run_directive-Agree next next' ih (some none) args s t r = tt
  run_directive-Agree next next' ih (some (some (d, rest))) args s t r =
      >>=-Agree (λ (a : List Arg × S) (b : List Arg × T). (a.0 ≡ b.0) × rel a.1 b.1) rel
        (convert d args s) (convert' d args t) _ _ (steps d args s t r)
        λ a b h.
          subst (λ x. Agree rel (next rest a.0 a.1) (next' rest x b.1)) h.0
            (ih rest a.0 a.1 b.1 h.1)

  after_percent-Agree :
      (next : List ℕ → List Arg → S → Run S) (next' : List ℕ → List Arg → T → Run T)
      → ((fmt : List ℕ) (args : List Arg) (s : S) (t : T)
          → rel s t
          → Agree rel (next fmt args s) (next' fmt args t))
      → (fmt : List ℕ) (args : List Arg) (s : S) (t : T) → rel s t
      → Agree rel
          (after_percent literal convert next fmt args s)
          (after_percent literal' convert' next' fmt args t)
  after_percent-Agree next next' ih [] args s t r = r
  after_percent-Agree next next' ih (c ∷ fmt) args s t r = elim (Bool-cases (c == b'%')) [
    | inl e ↦ rw e (ih fmt args (literal b'%' s) (literal' b'%' t) (keep b'%' s t r))
    | inr e ↦ rw e (run_directive-Agree next next' ih (parse_directive (c ∷ fmt)) args s t r)
  ]

  pub walk-Agree :
      (fuel : ℕ) (fmt : List ℕ) (args : List Arg) (s : S) (t : T)
      → rel s t
      → Agree rel (walk literal convert fuel fmt args s) (walk literal' convert' fuel fmt args t)
  unfolding walk
  walk-Agree zero fmt args s t r = tt
  walk-Agree (suc fuel) [] args s t r = r
  walk-Agree (suc fuel) (c ∷ fmt) args s t r = elim (Bool-cases (c == b'%')) [
    | inl e ↦ rw e (
        after_percent-Agree (walk literal convert fuel) (walk literal' convert' fuel)
          (walk-Agree fuel) fmt args s t r)
    | inr e ↦ rw e (walk-Agree fuel fmt args (literal c s) (literal' c t) (keep c s t r))
  ]

-- The loop ends within one round for each byte of the format, and one more.
module _ {S : Type 0} (literal : ℕ → S → S)
    (convert : Directive → List Arg → S → Run (List Arg × S))
    (steps : (d : Directive) (args : List Arg) (s : S) → Ends (convert d args s)) where
  run_directive-Ends :
      (next : List ℕ → List Arg → S → Run S) (bound : ℕ)
      → ((fmt : List ℕ) (args : List Arg) (s : S) → length fmt < bound → Ends (next fmt args s))
      → (o : Option (Option (Directive × List ℕ))) (args : List Arg) (s : S) → o ≢ some none
      → ((d : Directive) (rest : List ℕ) → o ≡ some (some (d, rest)) → length rest < bound)
      → Ends (run_directive convert next o args s)
  run_directive-Ends next bound ih none args s inside small = tt
  run_directive-Ends next bound ih (some none) args s inside small = absurd (inside refl)
  run_directive-Ends next bound ih (some (some (d, rest))) args s inside small =
      >>=-Ends (convert d args s) _ (steps d args s) λ a. ih rest a.0 a.1 (small d rest refl)

  after_percent-Ends :
      (next : List ℕ → List Arg → S → Run S) (bound : ℕ)
      → ((fmt : List ℕ) (args : List Arg) (s : S) → length fmt < bound → Ends (next fmt args s))
      → (fmt : List ℕ) (args : List Arg) (s : S) → length fmt ≤ bound
      → Ends (after_percent literal convert next fmt args s)
  after_percent-Ends next bound ih [] args s le = tt
  after_percent-Ends next bound ih (c ∷ fmt) args s le = elim (Bool-cases (c == b'%')) [
    | inl e ↦ rw e (ih fmt args (literal b'%' s) le)
    | inr e ↦ rw e (
        run_directive-Ends next bound ih (parse_directive (c ∷ fmt)) args s
          (parse_directive-inside (c ∷ fmt))
          λ d rest p. omega (arith, length-parse_directive (c ∷ fmt) p))
  ]

  pub walk-Ends :
      (fuel : ℕ) (fmt : List ℕ) (args : List Arg) (s : S)
      → length fmt < fuel
      → Ends (walk literal convert fuel fmt args s)
  unfolding walk
  walk-Ends zero fmt args s lt = absurd (omega arith)
  walk-Ends (suc fuel) [] args s lt = tt
  walk-Ends (suc fuel) (c ∷ fmt) args s lt = elim (Bool-cases (c == b'%')) [
    | inl e ↦ rw e (
        after_percent-Ends (walk literal convert fuel) fuel (walk-Ends fuel) fmt args s
          (omega arith))
    | inr e ↦ rw e (walk-Ends fuel fmt args (literal c s) (omega arith))
  ]
