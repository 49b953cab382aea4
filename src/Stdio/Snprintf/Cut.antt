-- ===== src/Stdio/Snprintf/Cut.antt =====
-- What snprintf, vsnprintf and sprintf leave in memory and return.
use mathlib.Core.Path.{subst}
use axiome_toolchain.Base.{
  ℕ, suc, ◌+◌, ◌-◌, ◌%◌, ◌<◌, ◌≡◌, ap, Bool, true, false, ◌||◌, Option, some, none, List, [], ◌∷◌,
  arith, length, ltb, ◌==◌, if◌then◌else◌, ◌≢◌, ◌^◌,
}
use axiome_toolchain.Memory.{Memory, null}
use axiome_toolchain.Stdio.Format.Directive.{Directive}
use axiome_toolchain.Stdio.Format.Run.{
  Run, done, undefined, Arg, word, text, ◌>>=◌, next_word, next_text, signed_arg, is_negative,
}
use axiome_toolchain.Stdio.Digits.{render}
use axiome_toolchain.Stdio.Format.Loop.{walk, Agree, Ends, walk-Ends, >>=-Ends, Agree-done}
use axiome_toolchain.Stdio.Snprintf.{
  content, signed_text, string_text, Sink, put, convert, terminate, vsnprintf_internal, snprintf,
  vsnprintf, sprintf,
}
use axiome_toolchain.Stdio.Snprintf.Text.{formatted, cut, Holds, walk-Holds}

-- Memory `m` with the C string that a buffer of `size` bytes at `str` holds after the text `t`: as
-- many of its bytes as fit in front of the terminator, and the terminator.
abbrev pub terminated : Memory → ℕ → ℕ → List ℕ → Memory
terminated m str size t x =
    let end = if ltb (length t) (size - 1) then length t else size - 1 in
    if x == str + end then 0 else cut m str (size - 1) t x

-- The loop reaches the text.
reached :
    (str size : ℕ) (m : Memory) (fmt : List ℕ) (args : List Arg) (t : List ℕ)
    → str ≢ null
    → formatted fmt args ≡ done t
    → (s : Sink) × (walk
          (put str size true)
          (convert str size true)
          (suc (length fmt))
          fmt
          args
          (record { pos = 0; mem = m })
        ≡ done s)
      × Holds str size m s t
reached str size m fmt args t there e =
    Agree-done (Holds str size m) _ t
      (subst (Agree (Holds str size m) _) e (walk-Holds str size m there fmt args))

internal-terminated :
    (str size : ℕ) (fmt : List ℕ) (args : List Arg) (m : Memory) (t : List ℕ)
    → str ≢ null
    → 0 < size
    → size < 2 ^ 64
    → formatted fmt args ≡ done t
    → length t < 2 ^ 64
    → (m' : Memory) × (vsnprintf_internal str size fmt args true m ≡ done (length t % 2 ^ 32, m'))
      × ((x : ℕ) → m' x ≡ terminated m str size t x)
unfolding vsnprintf_internal terminate
internal-terminated str size fmt args m t there some_room small e lt =
    let (s, ran, h) = reached str size m fmt args t there e in
    let pos : s.pos ≡ length t = omega (arith, h.at) in
    (
      (terminate str size true s).1,
      rw ran (ap (λ n. done (n % 2 ^ 32, (terminate str size true s).1)) pos),
      λ x. ground (arith, pos, h.bytes lt x),
    )

-- snprintf to a buffer of `size` bytes, at least one and less than 2^64, at an address that is not
-- null, where the format and the arguments stand for a text `t` of less than 2^64 bytes: the call
-- returns the length of the whole text (its low 32 bits), and leaves in the buffer as many bytes of
-- the text as fit in front of a terminator, and the terminator; all other bytes are unchanged.
pub snprintf-terminated :
    (str size : ℕ) (fmt : List ℕ) (args : List Arg) (m : Memory) (t : List ℕ)
    → str ≢ null
    → 0 < size
    → size < 2 ^ 64
    → formatted fmt args ≡ done t
    → length t < 2 ^ 64
    → (m' : Memory) × (snprintf str size fmt args m ≡ done (length t % 2 ^ 32, m'))
      × ((x : ℕ) → m' x ≡ terminated m str size t x)
unfolding snprintf
snprintf-terminated = internal-terminated

-- sprintf to an address that is not null, where the format and the arguments stand for a text `t`
-- of less than 2^64 - 2 bytes: the call returns the length of the text (its low 32 bits) and leaves
-- the text and a terminator at `str`; all other bytes are unchanged.
pub sprintf-whole :
    (str : ℕ) (fmt : List ℕ) (args : List Arg) (m : Memory) (t : List ℕ)
    → str ≢ null
    → formatted fmt args ≡ done t
    → length t < 2 ^ 64 - 2
    → (m' : Memory) × (sprintf str fmt args m ≡ done (length t % 2 ^ 32, m'))
      × ((x : ℕ) → m' x ≡ (if x == str + length t then 0 else cut m str (length t) t x))
unfolding sprintf
sprintf-whole str fmt args m t there e lt =
    let (m', ran, bytes) =
      internal-terminated str (2 ^ 64 - 1) fmt args m t there (omega arith) (omega arith) e
        (omega arith) in
    (m', ran, λ x. ground (arith, bytes x))

-- vsnprintf with a target that is not null and the size 0, where the format and the arguments stand
-- for a text `t` of less than 2^64 - 1 bytes: the call writes the whole text to `str`, past the
-- buffer of no bytes, and no terminator.
pub vsnprintf-unbounded :
    (str : ℕ) (fmt : List ℕ) (args : List Arg) (m : Memory) (t : List ℕ)
    → str ≢ null
    → formatted fmt args ≡ done t
    → length t < 2 ^ 64 - 1
    → (m' : Memory) × (vsnprintf str 0 fmt args m ≡ done (length t % 2 ^ 32, m'))
      × ((x : ℕ) → m' x ≡ cut m str (length t) t x)
unfolding vsnprintf vsnprintf_internal terminate
vsnprintf-unbounded str fmt args m t there e lt =
    let (s, ran, h) = reached str 0 m fmt args t there e in
    let pos : s.pos ≡ length t = omega (arith, h.at) in
    (
      (terminate str 0 true s).1,
      rw ran (ap (λ n. done (n % 2 ^ 32, (terminate str 0 true s).1)) pos),
      λ x. ground (arith, h.bytes (omega arith) x),
    )

if_Ends : {A : Type 0} (b : Bool) (r r' : Run A) → Ends r → Ends r' → Ends (if b then r else r')
if_Ends true r r' h h' = h
if_Ends false r r' h h' = h'

next_word-Ends : (args : List Arg) → Ends (next_word args)
next_word-Ends [] = tt
next_word-Ends (word w ∷ args) = tt
next_word-Ends (text s ∷ args) = tt

next_text-Ends : (args : List Arg) → Ends (next_text args)
next_text-Ends [] = tt
next_text-Ends (word w ∷ args) = tt
next_text-Ends (text s ∷ args) = tt

signed_text-Ends : (v : ℕ) → Ends (signed_text v)
signed_text-Ends v = if_Ends (v == 2 ^ 63) _ _ tt (
    if_Ends (is_negative v) (done (b'-' ∷ render 10 false (2 ^ 64 - v))) (done (render 10 false v))
      tt tt)

string_text-Ends : (s : Option (List ℕ)) → Ends (string_text s)
string_text-Ends none = tt
string_text-Ends (some s) = if_Ends (ltb (length s) (2 ^ 31)) (done s) undefined tt tt

-- The content of a directive takes no fuel.
content-Ends : (d : Directive) (args : List Arg) → Ends (content d args)
content-Ends d args =
    if_Ends ((d.spec == b'd') || (d.spec == b'i')) _ _
      (>>=-Ends (next_word args) _ (next_word-Ends args) (λ a.
        >>=-Ends (signed_text (signed_arg d.longflag a.0)) _
          (signed_text-Ends (signed_arg d.longflag a.0)) (λ s. tt)))
      (if_Ends (d.spec == b'u') _ _ (of_word _ (λ a. tt)) (
        if_Ends ((d.spec == b'x') || (d.spec == b'X')) _ _ (of_word _ (λ a. tt)) (
          if_Ends (d.spec == b'p') _ _ (of_word _ (λ a. tt)) (
            if_Ends (d.spec == b's') _ _
              (>>=-Ends (next_text args) _ (next_text-Ends args)
                (λ a. >>=-Ends (string_text a.0) _ (string_text-Ends a.0) (λ s. tt)))
              (if_Ends (d.spec == b'c') _ _ (of_word _ (λ a. tt)) tt)))))
  where
    of_word :
        (f : ℕ × List Arg → Run (List ℕ × List Arg))
        → ((a : ℕ × List Arg) → Ends (f a))
        → Ends (next_word args >>= f)
    of_word f h = >>=-Ends (next_word args) f (next_word-Ends args) h

-- Whatever the format, the arguments and the target are, snprintf returns or meets an argument that C
-- leaves undefined: the loop starts at most one round for each byte of the format and one more, and
-- no round takes the terminator for a conversion, so that none goes on behind it.
pub snprintf-Ends :
    (str size : ℕ) (fmt : List ℕ) (args : List Arg) (m : Memory)
    → Ends (snprintf str size fmt args m)
unfolding snprintf vsnprintf_internal
snprintf-Ends str size fmt args m =
    >>=-Ends _ _
      (walk-Ends (put str size true) (convert str size true)
        (λ d args s. >>=-Ends _ _ (content-Ends d args) (λ a. tt)) _ fmt args _ (omega arith))
      (λ s. tt)
