-- ===== src/Stdio/Snprintf/Text.antt =====
-- The text that a format and its arguments stand for, and that the formatter puts it into memory.
use mathlib.Core.Path.{subst}
use axiome_toolchain.Base.{
  ℕ, zero, suc, ◌-◌, ◌%◌, ◌<◌, ◌≡◌, refl, sym, ◌∙◌, Bool, true, not, ◌&&◌, List, [], ◌∷◌, ◌++◌,
  append-nil, append_assoc, arith, length, get_or, replicate, length-append, ltb, leb, ◌==◌,
  if◌then◌else◌, ◌≢◌,
}
use axiome_toolchain.Memory.{Memory, null}
use axiome_toolchain.Stdlib.Heap.{word, sub64}
use axiome_toolchain.Stdio.Format.Directive.{Directive}
use axiome_toolchain.Stdio.Format.Run.{Run, done, undefined, overrun, Arg, ◌>>=◌}
use axiome_toolchain.Stdio.Format.Loop.{walk, Agree, walk-Agree}
use axiome_toolchain.Stdio.Snprintf.{
  content, padding, Sink, put, put_times, put_all, put_field, convert,
}

abbrev pub snoc : ℕ → List ℕ → List ℕ
snoc c t = t ++ c ∷ []

-- The bytes of a directive with its padding.
abbrev pub field : Directive → List ℕ → List ℕ
field d bytes =
    let pad = padding d.width (length bytes) in
    let left = if d.left_align then 0 else pad in
    let right = if d.left_align then pad else 0 in
    replicate left (if d.zero_pad then b'0' else b' ') ++ (bytes ++ replicate right b' ')

abbrev pub append_field : Directive → List Arg → List ℕ → Run (List Arg × List ℕ)
append_field d args t = content d args >>= λ (bytes, args'). done (args', t ++ field d bytes)

-- The whole text of a call.
abbrev pub formatted : List ℕ → List Arg → Run (List ℕ)
formatted fmt args = walk snoc append_field (suc (length fmt)) fmt args []

-- Memory `m` with the bytes `t` at `str`, as far as they fit into `room` bytes.
abbrev pub cut : Memory → ℕ → ℕ → List ℕ → Memory
cut m str room t x =
    if leb str x && (ltb (x - str) (length t) && ltb (x - str) room)
    then get_or t (x - str) 0
    else m x

pub get_or-snoc :
    (t : List ℕ) (c i : ℕ) → get_or (t ++ c ∷ []) i 0 ≡ (if i == length t then c else get_or t i 0)
get_or-snoc [] c zero = refl
get_or-snoc [] c (suc i) = ground arith
get_or-snoc (x ∷ t) c zero = ground arith
get_or-snoc (x ∷ t) c (suc i) = get_or-snoc t c i ∙ ground arith

module _ (str size : ℕ) (m : Memory) where
  -- The sink after the text `t`.
  pub record Holds (s : Sink) (t : List ℕ) : Type 0 where
    pub at : s.pos ≡ length t % word
    pub bytes : length t < word → (x : ℕ) → s.mem x ≡ cut m str (sub64 size 1) t x

  abbrev Step : List Arg × Sink → List Arg × List ℕ → Type 0
  Step a b = (a.0 ≡ b.0) × Holds a.1 b.1

  module _ (there : str ≢ null) where
    open_test : (b : Bool) → (true && (not (str == null) && b)) ≡ b
    open_test b = ground arith

    put-Holds :
        (c : ℕ) (s : Sink) (t : List ℕ) → Holds s t → Holds (put str size true c s) (snoc c t)
    unfolding put
    put-Holds c s t h = record {
      at = omega (arith, h.at, length-append t (c ∷ []));
      bytes = λ lt x.
          let low : length t < word = omega (arith, length-append t (c ∷ [])) in
          let pos : s.pos ≡ length t = omega (arith, h.at) in
          rw (open_test (ltb s.pos (sub64 size 1))) (
            ground
              (arith, pos, h.bytes low x, get_or-snoc t c (x - str), length-append t (c ∷ [])));
    }

    put_times-Holds :
        (n c : ℕ) (s : Sink) (t : List ℕ)
        → Holds s t
        → Holds (put_times str size true n c s) (t ++ replicate n c)
    unfolding put_times
    put_times-Holds zero c s t h = subst (Holds s) (sym (append-nil t)) h
    put_times-Holds (suc n) c s t h =
        subst (Holds _) (append_assoc t (c ∷ []) (replicate n c))
          (put_times-Holds n c (put str size true c s) (snoc c t) (put-Holds c s t h))

    put_all-Holds :
        (cs : List ℕ) (s : Sink) (t : List ℕ)
        → Holds s t
        → Holds (put_all str size true cs s) (t ++ cs)
    unfolding put_all
    put_all-Holds [] s t h = subst (Holds s) (sym (append-nil t)) h
    put_all-Holds (c ∷ cs) s t h =
        subst (Holds _) (append_assoc t (c ∷ []) cs)
          (put_all-Holds cs (put str size true c s) (snoc c t) (put-Holds c s t h))

    put_field-Holds :
        (d : Directive) (bytes : List ℕ) (s : Sink) (t : List ℕ)
        → Holds s t
        → Holds (put_field str size true d bytes s) (t ++ field d bytes)
    unfolding put_field
    put_field-Holds d bytes s t h =
        let pad = padding d.width (length bytes) in
        let left =
          replicate (if d.left_align then 0 else pad) (if d.zero_pad then b'0' else b' ') in
        let right = replicate (if d.left_align then pad else 0) b' ' in
        subst (Holds _)
          (append_assoc (t ++ left) bytes right ∙ append_assoc t left (bytes ++ right))
          (put_times-Holds _ b' ' _ ((t ++ left) ++ bytes)
            (put_all-Holds bytes _ (t ++ left) (put_times-Holds _ _ s t h)))

    convert-Agree :
        (d : Directive) (args : List Arg) (s : Sink) (t : List ℕ)
        → Holds s t
        → Agree Step (convert str size true d args s) (append_field d args t)
    convert-Agree d args s t h = step (content d args)
      where
        step :
            (r : Run (List ℕ × List Arg))
            → Agree Step
                (r >>= λ (bytes, args'). done (args', put_field str size true d bytes s))
                (r >>= λ (bytes, args'). done (args', t ++ field d bytes))
        step (done (bytes, args')) = (refl, put_field-Holds d bytes s t h)
        step undefined = tt
        step overrun = tt

    -- The loop leaves the text in the sink, with the outcome of the pure formatting.
    pub walk-Holds :
        (fmt : List ℕ) (args : List Arg)
        → Agree Holds
            (walk
              (put str size true)
              (convert str size true)
              (suc (length fmt))
              fmt
              args
              (record { pos = 0; mem = m }))
            (formatted fmt args)
    walk-Holds fmt args =
        walk-Agree Holds (put str size true) (convert str size true) snoc append_field put-Holds
          convert-Agree (suc (length fmt)) fmt args _ []
          (record { at = refl; bytes = λ lt x. ground arith })
