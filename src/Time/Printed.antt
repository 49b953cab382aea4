-- ===== src/Time/Printed.antt =====
-- The string that asctime and ctime of sdk/src/time.c print, read back.
use axiome_toolchain.Base.{
  ℕ, ◌+◌, ◌-◌, ◌*◌, ◌/◌, ◌%◌, ◌^◌, ◌≤◌, ◌<◌, ◌≡◌, refl, Bool, true, false, ◌&&◌, zero, suc, leb,
  ◌==◌, List, [], ◌∷◌, some, arith, length, leb→le, take, drop, get_or, ltb, if◌then◌else◌,
}
use axiome_toolchain.Time.{
  Tm, is_leap, month_days, wday_name, mon_name, localtime, string, asctime, ctime, digit, two, four,
  three, lay_out, quot, rem, int_size,
}
use axiome_toolchain.Time.Calendar.{IsTm, day, days_before, time_to_tm-IsTm, quot_small, rem_small}

-- The value of decimal digits behind `n`; a space counts as 0.
abbrev pub number : ℕ → List ℕ → ℕ
number n [] = n
number n (c ∷ cs) = number (n * 10 + (c - b'0')) cs

-- The bytes from index `i` on, `n` of them.
abbrev pub part : ℕ → ℕ → List ℕ → List ℕ
part i n s = take n (drop i s)

-- The string `s` names the date and time of `tm`.
pub record Names (tm : Tm) (s : List ℕ) : Type 0 where
  pub weekday : part 0 3 s ≡ get_or wday_name tm.tm_wday []
  pub month : part 4 3 s ≡ get_or mon_name tm.tm_mon []
  pub mday : number 0 (part 8 2 s) ≡ tm.tm_mday
  pub hour : number 0 (part 11 2 s) ≡ tm.tm_hour
  pub minute : number 0 (part 14 2 s) ≡ tm.tm_min
  pub second : number 0 (part 17 2 s) ≡ tm.tm_sec
  pub year : number 0 (part 20 4 s) ≡ tm.tm_year + 1900
  pub size : length s ≡ 26
  pub terminator : get_or s 25 0 ≡ 0

two_digits : (n : ℕ) → n < 100 → number 0 (two n) ≡ n
two_digits n lt =
    rw (quot_small int_size n 10 (omega arith), rem_small int_size n 10 (omega arith)) (omega arith)

four_digits : (n : ℕ) → n < 10000 → number 0 (four (n % int_size)) ≡ n
four_digits n lt =
    let same : n % int_size ≡ n = omega arith in
    rw same (
      rw
        (
          quot_small int_size n 1000 (omega arith),
          quot_small int_size n 100 (omega arith),
          quot_small int_size n 10 (omega arith),
          rem_small int_size n 10 (omega arith),
          rem_small int_size (n / 100) 10 (omega arith),
          rem_small int_size (n / 10) 10 (omega arith),
        )
        (omega arith))

abbrev all {ℓ} : {A : Type ℓ} → (A → Bool) → List A → Bool
all p [] = true
all p (x ∷ xs) = p x && all p xs

all-get_or {ℓ} :
    {A : Type ℓ} (p : A → Bool) (xs : List A) (i : ℕ) (d : A)
    → all p xs ≡ true
    → i < length xs
    → p (get_or xs i d) ≡ true
all-get_or p [] i d h lt = absurd (omega arith)
all-get_or p (x ∷ xs) zero d h lt = ground arith
all-get_or p (x ∷ xs) (suc i) d h lt = all-get_or p xs i d (ground arith) (omega arith)

three_bytes : (s : List ℕ) → (length s == 3) ≡ true → three s ≡ s
three_bytes (a ∷ b ∷ c ∷ []) h = refl
three_bytes [] h = absurd (ground arith)
three_bytes (a ∷ []) h = absurd (ground arith)
three_bytes (a ∷ b ∷ []) h = absurd (ground arith)
three_bytes (a ∷ b ∷ c ∷ d ∷ s) h = absurd (ground arith)

spelled :
    (names : List (List ℕ)) (i : ℕ)
    → all (λ s. length s == 3) names ≡ true
    → i < length names
    → three (get_or names i []) ≡ get_or names i []
spelled names i h lt =
    three_bytes (get_or names i []) (all-get_or (λ s. length s == 3) names i [] h lt)

month_at_most : (leap : Bool) (k : ℕ) → k < 12 → get_or (month_days leap) k 0 ≤ 31
month_at_most true k lt = leb→le _ 31 (all-get_or (λ n. leb n 31) (month_days true) k 0 refl lt)
month_at_most false k lt = leb→le _ 31 (all-get_or (λ n. leb n 31) (month_days false) k 0 refl lt)

day_digits :
    (n : ℕ)
    → n < 100
    → number 0 (
        (if leb 10 n && ltb n (2 ^ 31) then digit (quot int_size n 10) else b' ')
        ∷ digit (rem int_size n 10)
        ∷ [])
      ≡ n
day_digits n lt =
    rw (quot_small int_size n 10 (omega arith), rem_small int_size n 10 (omega arith))
      (ground arith)

asctime-lay_out :
    (tm : Tm)
    → tm.tm_mon < 12
    → tm.tm_wday < 7
    → asctime tm ≡ string (lay_out tm tm.tm_wday tm.tm_mon)
unfolding asctime
asctime-lay_out tm mon wd =
    let wd_same : rem int_size tm.tm_wday 7 ≡ tm.tm_wday = ground arith in
    let mon_same : rem int_size tm.tm_mon 12 ≡ tm.tm_mon = ground arith in
    let wd_fits : ltb tm.tm_wday 7 ≡ true = ground arith in
    let mon_fits : ltb tm.tm_mon 12 ≡ true = ground arith in
    rw (wd_same, mon_same, wd_fits, mon_fits) refl

lay_out-Names :
    (tm : Tm)
    → IsTm tm
    → tm.tm_wday < 7
    → tm.tm_year + 1900 < 10000
    → Names tm (lay_out tm tm.tm_wday tm.tm_mon)
lay_out-Names tm is wd yr =
    let hour = is.hour in
    let minute = is.minute in
    let sec = is.sec in
    record {
      weekday = spelled wday_name tm.tm_wday refl wd;
      month = spelled mon_name tm.tm_mon refl is.mon;
      mday = day_digits tm.tm_mday (
          at_most tm.tm_mday _ is.last_day
            (month_at_most (is_leap (tm.tm_year + 1900)) tm.tm_mon is.mon));
      hour = two_digits tm.tm_hour (omega arith);
      minute = two_digits tm.tm_min (omega arith);
      second = two_digits tm.tm_sec (omega arith);
      year = four_digits _ yr;
      size = refl;
      terminator = refl;
    }
  where
    at_most : (n k : ℕ) → n ≤ k → k ≤ 31 → n < 100
    at_most n k le small = omega arith

year_bound :
    (y d r t : ℕ)
    → (days_before y + d - days_before 1970) * 86400 + r ≡ t
    → t < 253402300800
    → y < 10000
year_bound y d r t e lt = omega arith

-- ctime of a time from 1970 on and before the year 10000, with fuel for the days: the string has 25
-- bytes and a terminator, which fit the static buffer of 26 bytes, and names a date and time with
-- fields in their ranges that give back the time.
pub ctime-Names :
    (fuel t : ℕ)
    → t < 253402300800
    → t / 86400 < fuel * 365
    → (tm : Tm) × (s : List ℕ) × (ctime fuel (some t) ≡ some (some (string s)))
      × Names tm s
      × IsTm tm
      × (day tm * 86400 + tm.tm_hour * 3600 + tm.tm_min * 60 + tm.tm_sec ≡ t)
unfolding ctime localtime
ctime-Names fuel t lt enough =
    let (tm, run, is, back, wd) = time_to_tm-IsTm fuel t (omega arith) enough in
    let week : tm.tm_wday < 7 = omega (arith, wd) in
    (
      tm,
      lay_out tm tm.tm_wday tm.tm_mon,
      rw (run, asctime-lay_out tm is.mon week) refl,
      lay_out-Names tm is week (
          year_bound (tm.tm_year + 1900) tm.tm_yday (tm.tm_hour * 3600 + tm.tm_min * 60 + tm.tm_sec)
            t (omega arith) lt),
      is,
      back,
    )
