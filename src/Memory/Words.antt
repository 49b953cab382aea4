-- ===== src/Memory/Words.antt =====
-- Numbers and structures in memory, the low byte first.
use native.Mathlib.Nat.{add-zero}
use axiome_toolchain.Base.{
  ℕ, zero, suc, ◌+◌, ◌-◌, ◌*◌, ◌/◌, ◌%◌, ◌^◌, ◌≤◌, ◌<◌, ◌≡◌, refl, sym, ap, ◌∙◌, arith, ◌&&◌, leb,
  ltb, if◌then◌else◌,
}
use axiome_toolchain.Memory.{Memory, store, SameOutside, Apart}

unfoldable pub get_bytes : ℕ → ℕ → Memory → ℕ
get_bytes zero a m = 0
get_bytes (suc n) a m = m a + 256 * get_bytes n (suc a) m

unfoldable pub put_bytes : ℕ → ℕ → ℕ → Memory → Memory
put_bytes zero a v m = m
put_bytes (suc n) a v m = put_bytes n (suc a) (v / 256) (store m a (v % 256))

-- A `long` or a pointer at `a`.
abbrev pub get_long : ℕ → Memory → ℕ
get_long a m = get_bytes 8 a m

abbrev pub put_long : ℕ → ℕ → Memory → Memory
put_long a v m = put_bytes 8 a v m

-- `*dst = *src` for structures of `n` bytes.
abbrev pub copy_struct : ℕ → ℕ → ℕ → Memory → Memory
copy_struct n dst src m x = if leb dst x && ltb x (dst + n) then m (src + (x - dst)) else m x

pub put_bytes_out : (n a v : ℕ) (m : Memory) → SameOutside a n m (put_bytes n a v m)
unfolding put_bytes
put_bytes_out zero a v m x out = refl
put_bytes_out (suc n) a v m x out =
    put_bytes_out n (suc a) (v / 256) (store m a (v % 256)) x (λ h. out (omega arith, omega arith))
    ∙ ground arith

-- Bytes that two memories share, at places that may differ, hold one number.
pub get_bytes_same :
    (n a b : ℕ) (m g : Memory)
    → ((i : ℕ) → i < n → g (b + i) ≡ m (a + i))
    → get_bytes n b g ≡ get_bytes n a m
unfolding get_bytes
get_bytes_same zero a b m g same = refl
get_bytes_same (suc n) a b m g same =
    let first : g b ≡ m a = sym (ap g (add-zero b)) ∙ same 0 (omega arith) ∙ ap m (add-zero a) in
    let rest = get_bytes_same n (suc a) (suc b) m g (λ i lt.
      let next : suc b + i ≡ b + suc i = omega arith in
      let next' : suc a + i ≡ a + suc i = omega arith in
      rw (next, next') (same (suc i) (omega arith))) in
    rw (first, rest) refl

get_bytes-put_bytes_lem :
    (n a v : ℕ) (m : Memory) → v < 256 ^ n → get_bytes n a (put_bytes n a v m) ≡ v
unfolding get_bytes put_bytes
get_bytes-put_bytes_lem zero a v m lt = omega arith
get_bytes-put_bytes_lem (suc n) a v m lt =
    let m' : Memory = store m a (v % 256) in
    let rest = get_bytes-put_bytes_lem n (suc a) (v / 256) m' (omega arith) in
    let first : put_bytes n (suc a) (v / 256) m' a ≡ v % 256 =
      put_bytes_out n (suc a) (v / 256) m' a (λ h. omega arith) ∙ ground arith in
    rw (first, rest) (omega arith)

-- A `long` that was stored is read back.
pub get_long-put_long : (a v : ℕ) (m : Memory) → v < 2 ^ 64 → get_long a (put_long a v m) ≡ v
get_long-put_long a v m lt = get_bytes-put_bytes_lem 8 a v m lt

-- A `long` apart from the one that is stored.
pub get_long-put_long_other :
    (a b v : ℕ) (m : Memory) → Apart a 8 b 8 → get_long a (put_long b v m) ≡ get_long a m
get_long-put_long_other a b v m apart =
    get_bytes_same 8 a a m (put_long b v m)
      (λ i lt. put_bytes_out 8 b v m (a + i) (λ h. ground arith))

-- A field of a copied structure.
pub get_long-copy_struct :
    (n dst src k : ℕ) (m : Memory)
    → k + 8 ≤ n
    → get_long (dst + k) (copy_struct n dst src m) ≡ get_long (src + k) m
get_long-copy_struct n dst src k m le =
    get_bytes_same 8 (src + k) (dst + k) m (copy_struct n dst src m) (λ i lt.
      let place : src + (dst + k + i - dst) ≡ src + k + i = omega arith in
      ground (arith, ap m place))
