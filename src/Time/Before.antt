-- ===== src/Time/Before.antt =====
-- time_to_tm and asctime of sdk/src/time.c on times before 1970, where the divisions truncate towards
-- zero and the loops over years and months stop at once.
use native.Mathlib.Nat.{zero-div, zero-mod}
use axiome_toolchain.Base.{
  ℕ, zero, suc, ◌+◌, ◌-◌, ◌/◌, ◌%◌, ◌^◌, ◌≤◌, ◌<◌, ◌≡◌, ◌≢◌, refl, ap, ◌∙◌, true, false, some,
  arith, get_or, ltb,
}
use axiome_toolchain.Time.{
  Tm, is_leap, month_days, less, quot, rem, long_size, int_size, year_loop, month_loop, fields,
  time_to_tm, localtime, asctime, ctime, outside_wday_name,
}
use axiome_toolchain.Time.Calendar.{IsTm}

-- The pattern of -a, as a `long`.
abbrev minus : ℕ → ℕ
minus a = (long_size - a) % long_size

minus_value :
    (a : ℕ)
    → a ≢ 0
    → a < 2 ^ 63
    → (ltb (minus a) (long_size / 2) ≡ false) × (long_size - minus a ≡ a)
minus_value a ne lt = (ground arith, omega arith)

-- Both operations turn the sign of what they make of the number without it.
quot-minus : (a k : ℕ) → a < 2 ^ 63 → quot long_size (minus a) k ≡ minus (a / k)
quot-minus zero k lt = rw zero-div refl
quot-minus (suc a) k lt =
    let (high, back) = minus_value (suc a) (omega arith) lt in rw (high, back) refl

rem-minus : (a k : ℕ) → a < 2 ^ 63 → rem long_size (minus a) k ≡ minus (a % k)
rem-minus zero k lt = rw zero-mod refl
rem-minus (suc a) k lt =
    let (high, back) = minus_value (suc a) (omega arith) lt in rw (high, back) refl

rem_week :
    (d : ℕ) → 5 ≤ d → d < 2 ^ 62 → rem long_size ((minus d + 4) % long_size) 7 ≡ minus ((d - 4) % 7)
rem_week d early lt =
    let later : (minus d + 4) % long_size ≡ minus (d - 4) = omega arith in
    ap (λ x. rem long_size x 7) later ∙ rem-minus (d - 4) 7 (omega arith)

less-minus : (d k : ℕ) → d < 2 ^ 63 → 0 < k → less (minus d) k ≡ true
less-minus d k lt pos_k = ground arith

year_loop-minus :
    (fuel d : ℕ) → d < 2 ^ 63 → year_loop (suc fuel) 1970 (minus d) ≡ some (1970, minus d)
unfolding year_loop
year_loop-minus fuel d lt = rw (less-minus d 365 lt (omega arith)) refl

month_loop-minus :
    (d : ℕ) → d < 2 ^ 63 → month_loop (month_days (is_leap 1970)) 0 (minus d) ≡ (0, minus d)
unfolding month_loop
month_loop-minus d lt = rw (less-minus d 31 lt (omega arith)) refl

-- The fields that stand for `n` seconds before 1970.
abbrev before : ℕ → Tm
before n = fields (minus (n / 86400)) 1970 (0, minus (n / 86400)) (minus n)

time_to_tm-before : (fuel n : ℕ) → n < 2 ^ 63 → time_to_tm (suc fuel) (minus n) ≡ some (before n)
unfolding time_to_tm
time_to_tm-before fuel n lt =
    let days = quot-minus n 86400 lt in
    let run =
      ap (year_loop (suc fuel) 1970) days ∙ year_loop-minus fuel (n / 86400) (omega arith) in
    rw (run, month_loop-minus (n / 86400) (omega arith)) refl

time_parts :
    (n : ℕ)
    → n < 2 ^ 63
    → ((before n).tm_sec ≡ minus (n % 86400 % 3600 % 60) % int_size)
      × ((before n).tm_min ≡ minus (n % 86400 % 3600 / 60) % int_size)
      × ((before n).tm_hour ≡ minus (n % 86400 / 3600) % int_size)
time_parts n lt =
    let rest = rem-minus n 86400 lt in
    let rest' = rem-minus (n % 86400) 3600 (omega arith) in
    (
      rw (rest, rest') (ap (λ x. x % int_size) (rem-minus (n % 86400 % 3600) 60 (omega arith))),
      rw (rest, rest') (ap (λ x. x % int_size) (quot-minus (n % 86400 % 3600) 60 (omega arith))),
      rw rest (ap (λ x. x % int_size) (quot-minus (n % 86400) 3600 (omega arith))),
    )

january : get_or (month_days (is_leap (70 + 1900))) 0 0 ≡ 31
january = refl

before-IsTm : (n : ℕ) → 0 < n → n < 2 ^ 47 → ¬ IsTm (before n)
before-IsTm n pos_n lt is =
    let (sec, minute, hour) = time_parts n (omega arith) in
    let sec_lt = is.sec in
    let minute_lt = is.minute in
    let hour_lt = is.hour in
    let first = is.first_day in
    let last : (minus (n / 86400) + 1) % int_size ≤ 31 = is.last_day in
    omega (arith, sec, minute, hour)

-- For each time of 1 to 2^47 - 1 seconds before 1970, whatever the fuel above 0, time_to_tm ends with
-- fields that are no date and time of day: it leaves the year 1970 and the month January, and as
-- patterns of negative numbers the seconds, minutes and hours of the distance to 1970, and takes its
-- days off the first of January.
pub time_to_tm_negative :
    (fuel n : ℕ)
    → 0 < n
    → n < 2 ^ 47
    → (tm : Tm) × (time_to_tm (suc fuel) (2 ^ 64 - n) ≡ some tm)
      × ¬ IsTm tm
      × (tm.tm_year ≡ 70)
      × (tm.tm_mon ≡ 0)
      × ((tm.tm_sec + n % 60) % 2 ^ 32 ≡ 0)
      × ((tm.tm_min + n / 60 % 60) % 2 ^ 32 ≡ 0)
      × ((tm.tm_hour + n / 3600 % 24) % 2 ^ 32 ≡ 0)
      × ((tm.tm_mday + n / 86400) % 2 ^ 32 ≡ 1)
time_to_tm_negative fuel n pos_n lt =
    let (sec, minute, hour) = time_parts n (omega arith) in
    let pattern : 2 ^ 64 - n ≡ minus n = omega arith in
    (
      before n,
      ap (time_to_tm (suc fuel)) pattern ∙ time_to_tm-before fuel n (omega arith),
      before-IsTm n pos_n lt,
      refl,
      refl,
      omega (arith, sec),
      omega (arith, minute),
      omega (arith, hour),
      omega arith,
    )

outside_week :
    (r : ℕ)
    → r ≢ 0
    → r < 7
    → (minus r % int_size ≡ 2 ^ 32 - r)
      × (rem int_size (2 ^ 32 - r) 7 ≡ 2 ^ 32 - r)
      × (ltb (2 ^ 32 - r) 7 ≡ false)
outside_week r ne lt = (omega arith, ground arith, ground arith)

asctime_outside :
    (tm : Tm) (i : ℕ)
    → tm.tm_wday ≡ i
    → rem int_size i 7 ≡ i
    → ltb i 7 ≡ false
    → asctime tm ≡ outside_wday_name i
unfolding asctime
asctime_outside tm i wd index outside = rw (wd, index, outside) refl

ctime_read :
    (fuel t : ℕ) (tm : Tm)
    → time_to_tm fuel t ≡ some tm
    → ctime fuel (some t) ≡ some (some (asctime tm))
unfolding ctime localtime
ctime_read fuel t tm run = rw run refl

-- For a time of n seconds before 1970, with n below 2^47 and five whole days in n at least, where the
-- number r, the whole days but four modulo 7, is not 0, and fuel above 0: time_to_tm leaves the
-- pattern of -r as the weekday, and ctime and asctime read wday_name at the index -r, which is in
-- front of the table.
pub asctime_negative :
    (fuel n : ℕ)
    → n < 2 ^ 47
    → 5 ≤ n / 86400
    → (n / 86400 - 4) % 7 ≢ 0
    → (tm : Tm) × (time_to_tm (suc fuel) (2 ^ 64 - n) ≡ some tm)
      × (tm.tm_wday ≡ 2 ^ 32 - (n / 86400 - 4) % 7)
      × (asctime tm ≡ outside_wday_name (2 ^ 32 - (n / 86400 - 4) % 7))
      × (ctime (suc fuel) (some (2 ^ 64 - n))
          ≡ some (some (outside_wday_name (2 ^ 32 - (n / 86400 - 4) % 7))))
asctime_negative fuel n lt early other =
    let d : ℕ = n / 86400 in
    let r : ℕ = (d - 4) % 7 in
    let pattern : 2 ^ 64 - n ≡ minus n = omega arith in
    let days = quot-minus n 86400 (omega arith) in
    let (value, index, outside) = outside_week r other (omega arith) in
    let week : (before n).tm_wday ≡ 2 ^ 32 - r =
      rw days (ap (λ x. x % int_size) (rem_week d early (omega arith))) ∙ value in
    let run = ap (time_to_tm (suc fuel)) pattern ∙ time_to_tm-before fuel n (omega arith) in
    let read = asctime_outside (before n) (2 ^ 32 - r) week index outside in
    (
      before n,
      run,
      week,
      read,
      ctime_read (suc fuel) (2 ^ 64 - n) (before n) run ∙ ap (λ x. some (some x)) read,
    )
