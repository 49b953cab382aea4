-- ===== src/Util/Name.antt =====
-- The last name of a path that ax_basename of sdk/include/util.h finds, joined paths among them.
use mathlib.Core.Path.{subst}
use axiome_toolchain.Base.{
  ℕ, zero, suc, ◌+◌, ◌-◌, ◌<◌, ◌≡◌, refl, sym, ap, ◌∙◌, inl, inr, List, [], ◌∷◌, ◌++◌, arith,
  length, true, false, ◌==◌, if◌then◌else◌, Bool-cases, some, take_all,
}
use axiome_toolchain.Memory.{Memory, CString, CString-drop, Absent, Apart}
use axiome_toolchain.Util.{ax_join_path, basename_loop, ax_basename}
use axiome_toolchain.Util.Path.{separator, joined, ax_join_path-joined}

-- Where the name behind `ys` starts: at `b` when there is nothing before it.
start : ℕ → ℕ → List ℕ → ℕ
start b c [] = b
start b c (y ∷ ys) = c + length (y ∷ ys)

start_self : (p : ℕ) (ys : List ℕ) → start p p ys ≡ p + length ys
unfolding start
start_self p [] = omega arith
start_self p (y ∷ ys) = refl

separator-tail : (x y : ℕ) (ys : List ℕ) → separator (x ∷ y ∷ ys) ≡ separator (y ∷ ys)
separator-tail x y ys =
    let one : suc (suc (length ys)) - 1 ≡ suc (suc (length ys) - 1) = omega arith in rw one refl

separator-one : (y : ℕ) → separator (y ∷ []) ≡ [] → (y == b'/') ≡ true
separator-one y h = elim (Bool-cases (y == b'/')) [ inl same ↦ same | inr other ↦ grind arith ]

separator-join : (ds : List ℕ) → separator (ds ++ separator ds) ≡ []
separator-join [] = refl
separator-join (x ∷ []) = elim (Bool-cases (x == b'/')) [
  | inl same ↦ rw (same, same) refl
  | inr other ↦ rw other refl
]
separator-join (x ∷ y ∷ ys) =
    let same = separator-tail x y ys in
    rw same (separator-tail x y (ys ++ separator (y ∷ ys)) ∙ separator-join (y ∷ ys))

basename_loop_lem :
    (fuel b c : ℕ) (m : Memory) (ys zs : List ℕ)
    → CString m c (ys ++ zs)
    → separator ys ≡ []
    → Absent b'/' zs
    → length (ys ++ zs) < fuel
    → basename_loop fuel b c m ≡ some (start b c ys)
unfolding basename_loop start
basename_loop_lem zero b c m ys zs h ends absent lt = absurd (omega arith)
basename_loop_lem (suc fuel) b c m [] [] h ends absent lt = rw h refl
basename_loop_lem (suc fuel) b c m [] (z ∷ zs) h ends absent lt =
    let rest = basename_loop_lem fuel b (suc c) m [] zs h.2 refl absent.1 (omega arith) in
    let nonzero : (m c == 0) ≡ false = ground arith in
    let plain : (m c == b'/') ≡ false = ground (arith, absent.0) in rw (nonzero, plain) rest
basename_loop_lem (suc fuel) b c m (y ∷ []) zs h ends absent lt =
    let rest = basename_loop_lem fuel (suc c) (suc c) m [] zs h.2 refl absent (omega arith) in
    let at_slash = separator-one y ends in
    let nonzero : (m c == 0) ≡ false = ground arith in
    let slash : (m c == b'/') ≡ true = ground arith in
    let next : suc c ≡ c + 1 = omega arith in rw (nonzero, slash) (rest ∙ ap some next)
basename_loop_lem (suc fuel) b c m (x ∷ y ∷ ys) zs h ends absent lt =
    let next : ℕ = if m c == b'/' then suc c else b in
    let rest =
      basename_loop_lem fuel next (suc c) m (y ∷ ys) zs h.2 (sym (separator-tail x y ys) ∙ ends)
        absent (omega arith) in
    let nonzero : (m c == 0) ≡ false = ground arith in
    let count : suc c + suc (length ys) ≡ c + suc (suc (length ys)) = omega arith in
    rw nonzero (rest ∙ ap some count)

-- Of a string that splits into a front, empty or with a slash at its end, and a rest without
-- slashes, ax_basename, given fuel above the length, ends and returns where the rest starts, and the
-- rest is the string that stands there.
pub ax_basename-CString :
    (fuel p : ℕ) (m : Memory) (ys zs : List ℕ)
    → CString m p (ys ++ zs)
    → separator ys ≡ []
    → Absent b'/' zs
    → length (ys ++ zs) < fuel
    → (b : ℕ) × (ax_basename fuel p m ≡ some b) × (b ≡ p + length ys) × CString m b zs
unfolding ax_basename
ax_basename-CString fuel p m ys zs h ends absent lt =
    let run = basename_loop_lem fuel p p m ys zs h ends absent lt in
    (p + length ys, run ∙ ap some (start_self p ys), refl, CString-drop m p ys zs h)

-- ax_basename of a path that ax_join_path built, in a place with room for all of it, is the name
-- that was joined, where that name has no slash.
pub ax_basename-ax_join_path :
    (fuel dir name out cap : ℕ) (m : Memory) (ds ns : List ℕ)
    → CString m dir ds
    → CString m name ns
    → length (joined ds ns) < cap
    → Apart out cap dir (length ds + 1)
    → Apart out cap name (length ns + 1)
    → Absent b'/' ns
    → length (joined ds ns) < fuel
    → (b : ℕ) × (ax_basename fuel out (ax_join_path dir name out cap m) ≡ some b)
      × CString (ax_join_path dir name out cap m) b ns
ax_basename-ax_join_path fuel dir name out cap m ds ns hd hn room apart apart' absent lt =
    let g : Memory = ax_join_path dir name out cap m in
    let (built, _) =
      ax_join_path-joined dir name out cap m ds ns hd hn (omega arith) apart apart' in
    let whole = take_all (cap - 1) (joined ds ns) (omega arith) in
    let (b, run, _, found) =
      ax_basename-CString fuel out g (ds ++ separator ds) ns (subst (CString g out) whole built)
        (separator-join ds) absent lt in
    (b, run, found)
