-- ===== src/Time.antt =====
-- time_to_tm, localtime, gmtime, asctime and ctime of sdk/src/time.c. A `long` is its 64-bit pattern
-- and an `int` its 32-bit pattern. The loop over the years takes fuel, the number of years that it may
-- look at, and answers `none` when it runs out.
pub mod Calendar
pub mod Printed
pub mod Before
pub mod Clock
use axiome_toolchain.Base.{
  ℕ, zero, suc, ◌+◌, ◌-◌, ◌/◌, ◌%◌, ◌^◌, Bool, true, false, not, ◌&&◌, ◌||◌, List, [], ◌∷◌, Option,
  none, some, ◌>>=◌, ltb, leb, ◌++◌, ◌==◌, if◌then◌else◌, codes, get_or,
}

-- `a / k` and `a % k` of C for the pattern `a` of a signed number of `2 ^ w = m`, and a positive `k`:
-- both truncate towards zero.
abbrev pub quot : ℕ → ℕ → ℕ → ℕ
quot m a k = if ltb a (m / 2) then a / k else (m - (m - a) / k) % m

abbrev pub rem : ℕ → ℕ → ℕ → ℕ
rem m a k = if ltb a (m / 2) then a % k else (m - (m - a) % k) % m

abbrev pub long_size : ℕ
long_size = 2 ^ 64

abbrev pub int_size : ℕ
int_size = 2 ^ 32

-- `a < b` for a `long` and a number that is not negative.
abbrev pub less : ℕ → ℕ → Bool
less a b = leb (2 ^ 63) a || ltb a b

-- `struct tm`, each field the pattern of an `int`.
pub record Tm : Type 0 where
  pub tm_sec : ℕ
  pub tm_min : ℕ
  pub tm_hour : ℕ
  pub tm_mday : ℕ
  pub tm_mon : ℕ
  pub tm_year : ℕ
  pub tm_wday : ℕ
  pub tm_yday : ℕ
  pub tm_isdst : ℕ

abbrev pub is_leap : ℕ → Bool
is_leap year = ((year % 4 == 0) && not (year % 100 == 0)) || (year % 400 == 0)

abbrev pub month_days : Bool → List ℕ
month_days false = 31 ∷ 28 ∷ 31 ∷ 30 ∷ 31 ∷ 30 ∷ 31 ∷ 31 ∷ 30 ∷ 31 ∷ 30 ∷ 31 ∷ []
month_days true = 31 ∷ 29 ∷ 31 ∷ 30 ∷ 31 ∷ 30 ∷ 31 ∷ 31 ∷ 30 ∷ 31 ∷ 30 ∷ 31 ∷ []

-- The year, of type `int`, and the days left.
unfoldable pub year_loop : ℕ → ℕ → ℕ → Option (ℕ × ℕ)
year_loop zero year days = none
year_loop (suc fuel) year days =
    let year_days : ℕ = if is_leap year then 366 else 365 in
    let rest = year_loop fuel ((year + 1) % 2 ^ 32) (days - year_days) in
    if less days year_days then some (year, days) else rest

-- The month and the days left, with the lengths of the months from `month` on.
unfoldable pub month_loop : List ℕ → ℕ → ℕ → ℕ × ℕ
month_loop [] month days = (month, days)
month_loop (n ∷ ns) month days =
    let rest = month_loop ns (month + 1) (days - n) in if less days n then (month, days) else rest

-- The fields from the day of the year, the year, the month with the days left in it, and the time.
abbrev pub fields : ℕ → ℕ → ℕ × ℕ → ℕ → Tm
fields yday year (month, days) t =
    let rest : ℕ = rem long_size t 86400 in
    let rest' : ℕ = rem long_size rest 3600 in
    record {
      tm_sec = rem long_size rest' 60 % int_size;
      tm_min = quot long_size rest' 60 % int_size;
      tm_hour = quot long_size rest 3600 % int_size;
      tm_mday = (days + 1) % int_size;
      tm_mon = month;
      tm_year = year - 1900;
      tm_wday = rem long_size ((quot long_size t 86400 + 4) % long_size) 7 % int_size;
      tm_yday = yday % int_size;
      tm_isdst = 0;
    }

unfoldable pub time_to_tm : ℕ → ℕ → Option Tm
time_to_tm fuel t = do
  (year, yday) ← year_loop fuel 1970 (quot long_size t 86400)
  some (fields yday year (month_loop (month_days (is_leap year)) 0 yday) t)

-- localtime and gmtime, with `none` for a null argument; the result is the static `_tm_buf`.
unfoldable pub localtime : ℕ → Option ℕ → Option (Option Tm)
localtime fuel none = some none
localtime fuel (some t) = time_to_tm fuel t >>= λ tm. some (some tm)

unfoldable pub gmtime : ℕ → Option ℕ → Option (Option Tm)
gmtime fuel timep = localtime fuel timep

abbrev pub wday_name : List (List ℕ)
wday_name =
    codes "Sun"
    ∷ codes "Mon"
    ∷ codes "Tue"
    ∷ codes "Wed"
    ∷ codes "Thu"
    ∷ codes "Fri"
    ∷ codes "Sat"
    ∷ []

abbrev pub mon_name : List (List ℕ)
mon_name =
    codes "Jan"
    ∷ codes "Feb"
    ∷ codes "Mar"
    ∷ codes "Apr"
    ∷ codes "May"
    ∷ codes "Jun"
    ∷ codes "Jul"
    ∷ codes "Aug"
    ∷ codes "Sep"
    ∷ codes "Oct"
    ∷ codes "Nov"
    ∷ codes "Dec"
    ∷ []

abbrev pub digit : ℕ → ℕ
digit n = (b'0' + n) % 256

-- The two digits of a field, and the four of a year.
abbrev pub two : ℕ → List ℕ
two n = digit (quot int_size n 10) ∷ digit (rem int_size n 10) ∷ []

abbrev pub four : ℕ → List ℕ
four n =
    digit (quot int_size n 1000)
    ∷ digit (rem int_size (quot int_size n 100) 10)
    ∷ digit (rem int_size (quot int_size n 10) 10)
    ∷ digit (rem int_size n 10)
    ∷ []

-- The first three bytes of a name.
abbrev pub three : List ℕ → List ℕ
three s = get_or s 0 0 ∷ get_or s 1 0 ∷ get_or s 2 0 ∷ []

-- The string with the weekday and the month of these numbers.
abbrev pub lay_out : Tm → ℕ → ℕ → List ℕ
lay_out tm wd mn =
    let mday : ℕ = tm.tm_mday in
    let late = leb 10 mday && ltb mday (2 ^ 31) in
    three (get_or wday_name wd [])
    ++ (b' '
        ∷ (three (get_or mon_name mn [])
            ++ (b' '
                ∷ (if late then digit (quot int_size mday 10) else b' ')
                ∷ digit (rem int_size mday 10)
                ∷ b' '
                ∷ (two tm.tm_hour
                    ++ (b':'
                        ∷ (two tm.tm_min
                            ++ (b':'
                                ∷ (two tm.tm_sec
                                    ++ (b' '
                                        ∷ (four ((tm.tm_year + 1900) % int_size)
                                            ++ (b'\n' ∷ 0 ∷ [])))))))))))

-- What asctime does: a string, or a read of wday_name or mon_name at an index, the pattern of an
-- `int`, that is outside the table.
pub data Printout : Type 0 where
  string : List ℕ → Printout
  outside_wday_name : ℕ → Printout
  outside_mon_name : ℕ → Printout

-- The bytes that asctime leaves in `buf`, for a `tm` that is not null.
unfoldable pub asctime : Tm → Printout
asctime tm =
    let wd = rem int_size tm.tm_wday 7 in
    let mn = rem int_size tm.tm_mon 12 in
    if not (ltb wd 7)
    then outside_wday_name wd
    else if not (ltb mn 12)
    then outside_mon_name mn
    else string (lay_out tm wd mn)

-- ctime: asctime of localtime.
unfoldable pub ctime : ℕ → Option ℕ → Option (Option Printout)
ctime fuel timep = localtime fuel timep >>= λ tm. some (print tm)
  where
    print : Option Tm → Option Printout
    print none = none
    print (some tm) = some (asctime tm)
