-- ===== src/Util/Path.antt =====
-- The path that ax_join_path of sdk/include/util.h builds.
use mathlib.Core.Path.{subst}
use native.Mathlib.Nat.{add-zero}
use axiome_toolchain.Base.{
  ℕ, zero, suc, ◌+◌, ◌-◌, ◌≤◌, ◌<◌, ◌≡◌, ◌≢◌, refl, sym, ap, ◌∙◌, ◌⊎◌, inl, inr, List, [], ◌∷◌,
  ◌++◌, arith, length, take, get_or, Bool, true, false, not, ◌&&◌, ltb, ◌==◌, if◌then◌else◌,
  Bool-cases, length-append, length-take, take-append, take_all, take_front, append-nil,
}
use axiome_toolchain.Memory.{
  Memory, store, CString, CString-NonZero, CString-frame, NonZero, Holds, SameOutside, Apart,
}
use axiome_toolchain.Memory.Runs.{
  Holds-frame, Holds-append, Holds-get_or, Holds-closed, NonZero-take, NonZero-append,
}
use axiome_toolchain.Util.{join_loop, join_slash, join_name, ax_join_path}

-- What stands between a directory and a name: nothing behind an empty directory or one that ends
-- in '/'.
abbrev pub separator : List ℕ → List ℕ
separator ds = if get_or ds (length ds - 1) b'/' == b'/' then [] else b'/' ∷ []

abbrev pub joined : List ℕ → List ℕ → List ℕ
joined ds ns = (ds ++ separator ds) ++ ns

separator-cases :
    (ds : List ℕ)
    → ((separator ds ≡ []) × (0 < length ds → get_or ds (length ds - 1) b'/' ≡ b'/'))
      ⊎ ((separator ds ≡ b'/' ∷ []) × (0 < length ds) × (get_or ds (length ds - 1) b'/' ≢ b'/'))
separator-cases [] = inl (refl, λ lt. refl)
separator-cases (x ∷ xs) =
    let end : ℕ = get_or (x ∷ xs) (suc (length xs) - 1) b'/' in
    elim (Bool-cases (end == b'/')) [
      | inl same ↦ inl (rw same refl, λ lt. ground arith)
      | inr other ↦ inr (rw other refl, omega arith, ground arith)
    ]

NonZero-separator : (ds : List ℕ) → NonZero (separator ds)
NonZero-separator ds = elim (separator-cases ds) [
  | inl (none_needed, _) ↦ subst NonZero (sym none_needed) tt
  | inr (slash, _, _) ↦ subst NonZero (sym slash) (omega arith, tt)
]

NonZero-joined :
    (dir name : ℕ) (m : Memory) (ds ns : List ℕ)
    → CString m dir ds
    → CString m name ns
    → NonZero (joined ds ns)
NonZero-joined dir name m ds ns hd hn =
    NonZero-append (ds ++ separator ds) ns
      (NonZero-append ds (separator ds) (CString-NonZero m dir ds hd) (NonZero-separator ds))
      (CString-NonZero m name ns hn)

-- A loop copies what fits.
join_loop_lem :
    (left i src out base : ℕ) (m : Memory) (xs : List ℕ)
    → CString m (src + i) xs
    → Apart (out + (base + i)) left (src + i) (length xs + 1)
    → (g : Memory) × (join_loop left i src out base m ≡ (i + length (take left xs), g))
      × Holds g (out + (base + i)) (take left xs)
      × SameOutside (out + (base + i)) (length (take left xs)) m g
unfolding join_loop
join_loop_lem zero i src out base m xs h apart = (m, rw add-zero refl, tt, λ x o. refl)
join_loop_lem (suc left) i src out base m [] h apart = (m, rw h rw add-zero refl, tt, λ x o. refl)
join_loop_lem (suc left) i src out base m (x ∷ xs) h apart =
    let m' : Memory = store m (out + (base + i)) (m (src + i)) in
    let kept =
      CString-frame m m' (src + suc i) xs (λ y lo hi. ground arith)
        (subst (λ a. CString m a xs) (omega arith) h.2) in
    let (g, run, made, same) = join_loop_lem left (suc i) src out base m' xs kept (ground arith) in
    let nonzero : (m (src + i) == 0) ≡ false = ground arith in
    let count : suc i + length (take left xs) ≡ i + suc (length (take left xs)) = omega arith in
    (
      g,
      rw nonzero (run ∙ ap (λ k. (k, g)) count),
      (
        ground (arith, same (out + (base + i))),
        subst (λ a. Holds g a (take left xs)) (omega arith) made,
      ),
      λ y o. ground (arith, same y),
    )

join_loop_start :
    (left src out base : ℕ) (m : Memory) (xs : List ℕ)
    → CString m src xs
    → Apart (out + base) left src (length xs + 1)
    → (g : Memory) × (join_loop left 0 src out base m ≡ (length (take left xs), g))
      × Holds g (out + base) (take left xs)
      × SameOutside (out + base) (length (take left xs)) m g
join_loop_start left src out base m xs h apart =
    let source : src + 0 ≡ src = add-zero src in
    let target : out + (base + 0) ≡ out + base = ap (λ b. out + b) (add-zero base) in
    let (g, run, made, same) =
      join_loop_lem left 0 src out base m xs (rw source h) (rw (source, target) apart) in
    let count : 0 + length (take left xs) ≡ length (take left xs) = omega arith in
    (
      g,
      run ∙ ap (λ k. (k, g)) count,
      subst (λ a. Holds g a (take left xs)) target made,
      subst (λ a. SameOutside a (length (take left xs)) m g) target same,
    )

-- The test of join_slash, false and true.
abbrev slash_test : ℕ → ℕ → ℕ → Memory → Bool
slash_test out cap pl m = ltb 0 pl && (not (m (out + (pl - 1)) == b'/') && ltb (pl + 1) cap)

-- The slash, where there is room for one.
join_slash_lem :
    (out cap : ℕ) (m : Memory) (ds : List ℕ)
    → Holds m out (take (cap - 1) ds)
    → (g : Memory) × (join_slash out cap (length (take (cap - 1) ds), m)
        ≡ (length (take (cap - 1) (ds ++ separator ds)), g))
      × Holds g out (take (cap - 1) (ds ++ separator ds))
      × SameOutside out cap m g
unfolding join_slash
join_slash_lem out cap m ds made = elim (Bool-cases (ltb (length ds) (cap - 1))) [
  | inr filled ↦
      let full : length (take (cap - 1) ds) ≡ cap - 1 = ground (arith, length-take (cap - 1) ds) in
      let same : take (cap - 1) (ds ++ separator ds) ≡ take (cap - 1) ds =
        take_front (cap - 1) ds (separator ds) (ground arith) in
      let test : slash_test out cap (length (take (cap - 1) ds)) m ≡ false = ground arith in
      (m, rw (same, test) refl, rw same made, λ x o. refl)
  | inl room ↦
      let all : take (cap - 1) ds ≡ ds = take_all (cap - 1) ds (ground arith) in
      let there : Holds m out ds = rw all at made in
      let end_read : 0 < length ds → m (out + (length ds - 1)) ≡ get_or ds (length ds - 1) b'/' =
        λ more. Holds-get_or m out (length ds - 1) b'/' ds there (omega arith) in
      elim (separator-cases ds) [
        | inl (none_needed, ends) ↦
            let same : ds ++ separator ds ≡ ds = rw none_needed (append-nil ds) in
            let test : slash_test out cap (length ds) m ≡ false =
              elim (Bool-cases (ltb 0 (length ds))) [
                | inl test ↦
                    let more : 0 < length ds = ground arith in
                    ground (arith, ends more, end_read more)
                | inr empty ↦ ground arith
              ] in
            (m, rw (same, all, test) refl, rw (same, all) there, λ x o. refl)
        | inr (slash, more, other) ↦
            let test : slash_test out cap (length ds) m ≡ true = ground (arith, end_read more) in
            let whole : take (cap - 1) (ds ++ (b'/' ∷ [])) ≡ ds ++ (b'/' ∷ []) =
              take_all (cap - 1) (ds ++ (b'/' ∷ []))
                (ground (arith, length-append ds (b'/' ∷ []))) in
            let count : suc (length ds) ≡ length (ds ++ (b'/' ∷ [])) =
              omega (arith, length-append ds (b'/' ∷ [])) in
            let g : Memory = store m (out + length ds) b'/' in
            let kept = Holds-frame m g out ds there (λ x lo hi. ground arith) in
            (
              g,
              rw (all, slash, test, whole) (ap (λ k. (k, g)) count),
              rw (slash, whole) (Holds-append g out ds (b'/' ∷ []) kept (ground arith, tt)),
              λ x o. ground arith,
            )
      ]
]

-- The directory and what stands behind it, as far as there is room.
front_lem :
    (dir out cap : ℕ) (m : Memory) (ds : List ℕ)
    → CString m dir ds
    → Apart out cap dir (length ds + 1)
    → (g : Memory) × (join_slash out cap (join_loop (cap - 1) 0 dir out 0 m)
        ≡ (length (take (cap - 1) (ds ++ separator ds)), g))
      × Holds g out (take (cap - 1) (ds ++ separator ds))
      × SameOutside out cap m g
front_lem dir out cap m ds h apart =
    let (g, run, made, same) = join_loop_start (cap - 1) dir out 0 m ds h (ground arith) in
    let (g', run', made', same') = join_slash_lem out cap g ds (rw add-zero at made) in
    (
      g',
      rw run run',
      made',
      λ x o. same' x o ∙ same x (λ h. ground (arith, o, length-take (cap - 1) ds)),
    )

-- In a place of `cap` bytes, one at least, that is apart from both strings, ax_join_path leaves the
-- directory and the name with one slash between them, no second one behind a directory that ends in
-- one and none behind an empty directory, cut to `cap - 1` bytes and terminated. It changes no byte
-- outside that place.
pub ax_join_path-joined :
    (dir name out cap : ℕ) (m : Memory) (ds ns : List ℕ)
    → CString m dir ds
    → CString m name ns
    → 0 < cap
    → Apart out cap dir (length ds + 1)
    → Apart out cap name (length ns + 1)
    → CString (ax_join_path dir name out cap m) out (take (cap - 1) (joined ds ns))
      × SameOutside out cap m (ax_join_path dir name out cap m)
unfolding ax_join_path join_name
ax_join_path-joined dir name out cap m ds ns hd hn some_room apart apart' =
    let front = ds ++ separator ds in
    let (g, run, made, same) = front_lem dir out cap m ds hd apart in
    let hn' : CString g name ns =
      CString-frame m g name ns (λ y lo hi. same y (λ h. ground arith)) hn in
    let pl = length (take (cap - 1) front) in
    let bound : pl ≤ cap - 1 = omega (arith, length-take (cap - 1) front) in
    let (g', run', made', same') =
      join_loop_start (cap - 1 - pl) name out pl g ns hn' (ground arith) in
    let rest = take (cap - 1 - pl) ns in
    let more : length rest ≤ cap - 1 - pl = omega (arith, length-take (cap - 1 - pl) ns) in
    let both : take (cap - 1) front ++ rest ≡ take (cap - 1) (joined ds ns) =
      take-append (cap - 1) front ns in
    let text = take (cap - 1) front ++ rest in
    let kept =
      Holds-frame g g' out (take (cap - 1) front) made (λ x lo hi. same' x (λ h. omega arith)) in
    let nz =
      subst NonZero (sym both)
        (NonZero-take (cap - 1) (joined ds ns) (NonZero-joined dir name m ds ns hd hn)) in
    let whole =
      Holds-closed g' out text (Holds-append g' out (take (cap - 1) front) rest kept made') nz in
    let count : pl + length rest ≡ length text = sym (length-append (take (cap - 1) front) rest) in
    (
      rw (run, run', count) (subst (CString _ out) both whole),
      rw (run, run') (λ x o. ground (arith, same x o, same' x)),
    )
