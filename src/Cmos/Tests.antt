-- ===== src/Cmos/Tests.antt =====
-- Dates and times of src/kernel/io/cmos.c, and the theorems applied to them.
use homemade_os.Base.{◌≡◌, refl, false, arith}
use homemade_os.Cmos.{DateTime, count_days, read_cmos_time}
use homemade_os.Cmos.Calendar.{IsDate}
use homemade_os.Cmos.Clock.{IsTime}
use homemade_os.Cmos.Registers.{registers_of, read_cmos_time-registers_of}

-- the checks that the source runs on itself
count_days-one : count_days 1 1 1 ≡ 0
unfolding count_days
count_days-one = refl

count_days-end : count_days 1 12 31 ≡ 364
unfolding count_days
count_days-end = refl

leap_day : IsDate 2024 2 29
leap_day = record {
  from_one = omega arith;
  month_from = omega arith;
  month_to = omega arith;
  day_from = omega arith;
  day_to = omega arith;
}

abbrev evening : DateTime
evening = record { year = 24; month = 2; day = 29; hour = 23; minute = 59; second = 59 }

evening-IsTime : IsTime evening
evening-IsTime = record {
  date = leap_day;
  hour_to = omega arith;
  minute_to = omega arith;
  second_to = omega arith;
}

read_cmos_time_example : read_cmos_time (registers_of evening false false) false false ≡ evening
read_cmos_time_example =
    read_cmos_time-registers_of evening false false evening-IsTime (omega arith)
