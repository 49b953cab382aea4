-- ===== src/Stdio/Format/Run.antt =====
-- The outcome of a call of the formatters of sdk/src/stdio.c, and its arguments.
use axiome_toolchain.Base.{
  ℕ, ◌+◌, ◌-◌, ◌%◌, ◌^◌, Bool, List, [], ◌∷◌, Option, ltb, leb, if◌then◌else◌,
}

-- `undefined` stands for a `va_arg` that finds no argument of its kind, `overrun` for a loop that takes
-- more rounds than it has fuel for or goes on behind the terminator of the format.
pub data Run {ℓ} (A : Type ℓ) : Type ℓ where
  done : A → Run A
  undefined overrun : Run A

infixl 5 ◌>>=◌
abbrev pub ◌>>=◌ {ℓ κ} : {A : Type ℓ} {B : Type κ} → Run A → (A → Run B) → Run B
done a >>= f = f a
undefined >>= f = undefined
overrun >>= f = overrun

-- An argument: an integer or pointer by its 64-bit pattern, or a string, which may be null.
pub data Arg : Type 0 where
  word : ℕ → Arg
  text : Option (List ℕ) → Arg

abbrev pub next_word : List Arg → Run (ℕ × List Arg)
next_word [] = undefined
next_word (word w ∷ args) = done (w, args)
next_word (text s ∷ args) = undefined

abbrev pub next_text : List Arg → Run (Option (List ℕ) × List Arg)
next_text [] = undefined
next_text (text s ∷ args) = done (s, args)
next_text (word w ∷ args) = undefined

-- `longflag ? va_arg(ap, long) : (long)va_arg(ap, int)`, by its 64-bit pattern.
abbrev pub signed_arg : Bool → ℕ → ℕ
signed_arg longflag w =
    let low : ℕ = w % 2 ^ 32 in
    if longflag then w % 2 ^ 64 else if ltb low (2 ^ 31) then low else low + (2 ^ 64 - 2 ^ 32)

-- `longflag ? va_arg(ap, unsigned long) : (unsigned long)va_arg(ap, unsigned int)`
abbrev pub unsigned_arg : Bool → ℕ → ℕ
unsigned_arg longflag w = if longflag then w % 2 ^ 64 else w % 2 ^ 32

-- `v < 0` for the 64-bit pattern of a `long`.
abbrev pub is_negative : ℕ → Bool
is_negative v = leb (2 ^ 63) v
