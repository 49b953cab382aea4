-- ===== src/Time/Calendar.antt =====
-- The fields that time_to_tm of sdk/src/time.c fills in, against a count of days in closed form.
use axiome_toolchain.Base.{
  ℕ, zero, suc, ◌+◌, ◌-◌, ◌*◌, ◌/◌, ◌%◌, ◌^◌, ◌≤◌, ◌<◌, ◌≡◌, refl, sym, ap, ◌∙◌, inl, inr, Bool,
  true, false, List, [], ◌∷◌, some, arith, length, take, get_or, if◌then◌else◌, Bool-cases,
}
use axiome_toolchain.Time.{
  Tm, is_leap, month_days, year_loop, month_loop, fields, time_to_tm, less, quot, rem, long_size,
  int_size,
}

-- The days of the Gregorian calendar before the year `y`, counted from the year 1.
abbrev pub days_before : ℕ → ℕ
days_before y = 365 * (y - 1) + (y - 1) / 4 - (y - 1) / 100 + (y - 1) / 400

abbrev pub sum : List ℕ → ℕ
sum [] = 0
sum (n ∷ ns) = n + sum ns

abbrev year_length : ℕ → ℕ
year_length y = if is_leap y then 366 else 365

year_length_bound : (y : ℕ) → year_length y ≤ 366
year_length_bound y = ground arith

days_before-suc : (y : ℕ) → 1 ≤ y → days_before (y + 1) ≡ days_before y + year_length y
days_before-suc y pos_y = ground arith

-- What the year loop makes of `days` from the start of `year`.
abbrev Found : ℕ → ℕ → ℕ → ℕ → Type 0
Found year days y d =
    (year ≤ y) × (d < year_length y) × (days_before y + d ≡ days_before year + days)

year_step :
    (fuel year days : ℕ) (r : ℕ × ℕ)
    → less days (year_length year) ≡ false
    → (year + 1) % 2 ^ 32 ≡ year + 1
    → year_loop fuel (year + 1) (days - year_length year) ≡ some r
    → year_loop (suc fuel) year days ≡ some r
unfolding year_loop
year_step fuel year days r e wraps run = rw (e, wraps) run

month_step :
    (n : ℕ) (ns : List ℕ) (month days : ℕ) (r : ℕ × ℕ)
    → less days n ≡ false
    → month_loop ns (month + 1) (days - n) ≡ r
    → month_loop (n ∷ ns) month days ≡ r
unfolding month_loop
month_step n ns month days r e run = rw e run

year_loop-Found :
    (fuel year days : ℕ)
    → 1 ≤ year
    → year * 365 + days < 2 ^ 38
    → days < fuel * 365
    → (y : ℕ) × (d : ℕ) × (year_loop fuel year days ≡ some (y, d)) × Found year days y d
unfolding year_loop
year_loop-Found zero year days pos_year small lt = absurd (omega arith)
year_loop-Found (suc fuel) year days pos_year small lt =
    elim (Bool-cases (less days (year_length year))) [
      | inl e ↦ (year, days, rw e refl, (omega arith, ground arith, omega arith))
      | inr e ↦
          let long : year_length year ≤ days = ground arith in
          let at_least : 365 ≤ year_length year = ground arith in
          let wraps : (year + 1) % 2 ^ 32 ≡ year + 1 = omega arith in
          let (y, d, run, (le, fits, same)) =
            year_loop-Found fuel (year + 1) (days - year_length year) (omega arith) (omega arith)
              (omega arith) in
          (
            y,
            d,
            year_step fuel year days (y, d) e wraps run,
            (omega arith, fits, omega (arith, days_before-suc year pos_year)),
          )
    ]

month_loop-sum :
    (ns : List ℕ) (month days : ℕ)
    → days < sum ns
    → days < 2 ^ 63
    → (k : ℕ) × (d : ℕ) × (month_loop ns month days ≡ (month + k, d))
      × (k < length ns)
      × (d < get_or ns k 0)
      × (sum (take k ns) + d ≡ days)
unfolding month_loop
month_loop-sum [] month days lt small = absurd (omega arith)
month_loop-sum (n ∷ ns) month days lt small = elim (Bool-cases (less days n)) [
  | inl e ↦
      (0, days, rw e (ap (λ x. (x, days)) (omega arith)), omega arith, ground arith, omega arith)
  | inr e ↦
      let long : n ≤ days = ground arith in
      let (k, d, run, lt_k, lt_d, same) =
        month_loop-sum ns (month + 1) (days - n) (omega arith) (omega arith) in
      (
        suc k,
        d,
        month_step n ns month days _ e (run ∙ ap (λ x. (x, d)) (omega arith)),
        omega arith,
        lt_d,
        omega arith,
      )
]

-- The ranges of the fields, and that they agree with each other.
pub record IsTm (tm : Tm) : Type 0 where
  pub sec : tm.tm_sec < 60
  pub minute : tm.tm_min < 60
  pub hour : tm.tm_hour < 24
  pub mon : tm.tm_mon < 12
  pub first_day : 1 ≤ tm.tm_mday
  pub last_day : tm.tm_mday ≤ get_or (month_days (is_leap (tm.tm_year + 1900))) tm.tm_mon 0
  pub yday :
      tm.tm_yday + 1 ≡ sum (take tm.tm_mon (month_days (is_leap (tm.tm_year + 1900)))) + tm.tm_mday

-- The day that the date names, counted from 1970-01-01.
abbrev pub day : Tm → ℕ
day tm = days_before (tm.tm_year + 1900) + tm.tm_yday - days_before 1970

year_sum : (leap : Bool) → sum (month_days leap) ≡ (if leap then 366 else 365)
year_sum true = refl
year_sum false = refl

month_count : (leap : Bool) → length (month_days leap) ≡ 12
month_count true = refl
month_count false = refl

-- The fields in plain numbers.
abbrev plain : ℕ → ℕ → ℕ × ℕ → ℕ → Tm
plain yday year (month, days) t = record {
  tm_sec = t % 86400 % 3600 % 60;
  tm_min = t % 86400 % 3600 / 60;
  tm_hour = t % 86400 / 3600;
  tm_mday = days + 1;
  tm_mon = month;
  tm_year = year - 1900;
  tm_wday = (t / 86400 + 4) % 7;
  tm_yday = yday;
  tm_isdst = 0;
}

pub quot_small : (m a k : ℕ) → a < m / 2 → quot m a k ≡ a / k
quot_small m a k lt = ground arith

pub rem_small : (m a k : ℕ) → a < m / 2 → rem m a k ≡ a % k
rem_small m a k lt = ground arith

int_small : (x : ℕ) → x < 2 ^ 32 → x % int_size ≡ x
int_small x lt = omega arith

fields-plain :
    (yday year month days t : ℕ)
    → t < 2 ^ 50
    → days < 400
    → yday < 400
    → fields yday year (month, days) t ≡ plain yday year (month, days) t
fields-plain yday year month days t small lt lt' =
    let first = rem_small long_size t 86400 (omega arith) in
    let second = rem_small long_size (t % 86400) 3600 (omega arith) in
    let whole = quot_small long_size t 86400 (omega arith) in
    let sum_small : (t / 86400 + 4) % long_size ≡ t / 86400 + 4 = omega arith in
    rw (first, second, whole, sum_small)
      (rw
        (
          rem_small long_size (t % 86400 % 3600) 60 (omega arith),
          quot_small long_size (t % 86400 % 3600) 60 (omega arith),
          quot_small long_size (t % 86400) 3600 (omega arith),
          rem_small long_size (t / 86400 + 4) 7 (omega arith),
        )
        (rw
          (
            int_small (t % 86400 % 3600 % 60) (omega arith),
            int_small (t % 86400 % 3600 / 60) (omega arith),
            int_small (t % 86400 / 3600) (omega arith),
            int_small (days + 1) (omega arith),
            int_small ((t / 86400 + 4) % 7) (omega arith),
            int_small yday (omega arith),
          )
          refl))

plain-IsTm :
    (t y d k left : ℕ)
    → 1970 ≤ y
    → d < year_length y
    → k < length (month_days (is_leap y))
    → left < get_or (month_days (is_leap y)) k 0
    → sum (take k (month_days (is_leap y))) + left ≡ d
    → IsTm (plain d y (k, left) t)
plain-IsTm t y d k left le fits lt_k lt_left whole =
    let back : y - 1900 + 1900 ≡ y = omega arith in
    record {
      sec = omega arith;
      minute = omega arith;
      hour = omega arith;
      mon = omega (arith, month_count (is_leap y));
      first_day = omega arith;
      last_day = rw back (omega arith);
      yday = rw back (omega arith);
    }

plain-day :
    (t y d : ℕ) (month : ℕ × ℕ)
    → 1970 ≤ y
    → days_before y + d ≡ days_before 1970 + t / 86400
    → day (plain d y month t) ≡ t / 86400
plain-day t y d month le same =
    let back : y - 1900 + 1900 ≡ y = omega arith in rw back (omega arith)

run_fields :
    (fuel t y d k left : ℕ)
    → t < 2 ^ 50
    → left < 400
    → d < 400
    → year_loop fuel 1970 (quot long_size t 86400) ≡ some (y, d)
    → month_loop (month_days (is_leap y)) 0 d ≡ (0 + k, left)
    → time_to_tm fuel t ≡ some (plain d y (k, left) t)
unfolding time_to_tm
run_fields fuel t y d k left small lt lt' run months =
    let same : 0 + k ≡ k = omega arith in
    rw (run, months, same) (ap (λ x. some x) (fields-plain d y k left t small lt lt'))

-- For a time from 1970 on and before 2^50, with fuel for the days, time_to_tm ends with fields in
-- their ranges: the day of the month lies in the month of that year, and agrees with the day of the
-- year. Day and time of day give back the time, and the weekday counts on from Thursday 1970-01-01.
pub time_to_tm-IsTm :
    (fuel t : ℕ)
    → t < 2 ^ 50
    → t / 86400 < fuel * 365
    → (tm : Tm) × (time_to_tm fuel t ≡ some tm)
      × IsTm tm
      × (day tm * 86400 + tm.tm_hour * 3600 + tm.tm_min * 60 + tm.tm_sec ≡ t)
      × (tm.tm_wday ≡ (day tm + 4) % 7)
time_to_tm-IsTm fuel t small enough =
    let (y, d, run, (le, fits, same)) =
      year_loop-Found fuel 1970 (t / 86400) (omega arith) (omega arith) enough in
    let short = year_length_bound y in
    let days_run = ap (year_loop fuel 1970) (quot_small long_size t 86400 (omega arith)) ∙ run in
    let (k, left, months, lt_k, lt_left, whole) =
      month_loop-sum (month_days (is_leap y)) 0 d (omega (arith, year_sum (is_leap y)))
        (omega (arith, short)) in
    let left_short : left < 400 = omega (arith, short) in
    let named = plain-day t y d (k, left) le same in
    (
      plain d y (k, left) t,
      run_fields fuel t y d k left small left_short (omega (arith, short)) days_run months,
      plain-IsTm t y d k left le fits lt_k lt_left whole,
      omega (arith, named),
      ap (λ n. (n + 4) % 7) (sym named),
    )
