-- ===== src/Examples/Dates.antt =====
-- Examples for the calendar of sdk/src/time.c: the billionth second, and times before 1970.
use axiome_toolchain.Base.{ℕ, ◌+◌, ◌-◌, ◌*◌, ◌/◌, ◌%◌, ◌^◌, ◌≡◌, List, some, arith}
use axiome_toolchain.Time.{Tm, time_to_tm, string, outside_wday_name, asctime, ctime}
use axiome_toolchain.Time.Calendar.{IsTm, day, time_to_tm-IsTm}
use axiome_toolchain.Time.Before.{time_to_tm_negative, asctime_negative}
use axiome_toolchain.Time.Printed.{Names, ctime-Names}

time_to_tm-IsTm_example :
    (tm : Tm) × (time_to_tm 40 1000000000 ≡ some tm)
    × IsTm tm
    × (day tm * 86400 + tm.tm_hour * 3600 + tm.tm_min * 60 + tm.tm_sec ≡ 1000000000)
    × (tm.tm_wday ≡ (day tm + 4) % 7)
time_to_tm-IsTm_example = time_to_tm-IsTm 40 1000000000 (omega arith) (omega arith)

ctime-Names_example :
    (tm : Tm) × (s : List ℕ) × (ctime 40 (some 1000000000) ≡ some (some (string s)))
    × Names tm s
    × IsTm tm
    × (day tm * 86400 + tm.tm_hour * 3600 + tm.tm_min * 60 + tm.tm_sec ≡ 1000000000)
ctime-Names_example = ctime-Names 40 1000000000 (omega arith) (omega arith)

time_to_tm_negative_example :
    (tm : Tm) × (time_to_tm 1 (2 ^ 64 - 90061) ≡ some tm)
    × ¬ IsTm tm
    × (tm.tm_year ≡ 70)
    × (tm.tm_mon ≡ 0)
    × ((tm.tm_sec + 90061 % 60) % 2 ^ 32 ≡ 0)
    × ((tm.tm_min + 90061 / 60 % 60) % 2 ^ 32 ≡ 0)
    × ((tm.tm_hour + 90061 / 3600 % 24) % 2 ^ 32 ≡ 0)
    × ((tm.tm_mday + 90061 / 86400) % 2 ^ 32 ≡ 1)
time_to_tm_negative_example = time_to_tm_negative 0 90061 (omega arith) (omega arith)

asctime_negative_example :
    (tm : Tm) × (time_to_tm 1 (2 ^ 64 - 864000) ≡ some tm)
    × (tm.tm_wday ≡ 2 ^ 32 - 6)
    × (asctime tm ≡ outside_wday_name (2 ^ 32 - 6))
    × (ctime 1 (some (2 ^ 64 - 864000)) ≡ some (some (outside_wday_name (2 ^ 32 - 6))))
asctime_negative_example = asctime_negative 0 864000 (omega arith) (omega arith) (omega arith)
