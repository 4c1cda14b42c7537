-- ===== src/Cmos/Clock.antt =====
-- The seconds of src/kernel/io/cmos.c.
use homemade_os.Base.{◌+◌, ◌-◌, ◌<◌, ltb, if◌then◌else◌}
use homemade_os.Cmos.{DateTime}
use homemade_os.Cmos.Calendar.{next_day, IsDate}

-- A time of a date in the calendar, the year counted from 2000.
pub record IsTime (dt : DateTime) : Type 0 where
  pub date : IsDate (dt.year + 2000) dt.month dt.day
  pub hour_to : dt.hour < 24
  pub minute_to : dt.minute < 60
  pub second_to : dt.second < 60

pub next_midnight : DateTime → DateTime
next_midnight dt =
    let (y, m, d) = next_day (dt.year + 2000) dt.month dt.day in
    record { year = y - 2000; month = m; day = d; hour = 0; minute = 0; second = 0 }

-- The time one second on.
pub next_second : DateTime → DateTime
unfolding next_midnight
next_second dt =
    if ltb dt.second 59
    then record dt { second = dt.second + 1 }
    else if ltb dt.minute 59
    then record dt { second = 0; minute = dt.minute + 1 }
    else if ltb dt.hour 23
    then record dt { second = 0; minute = 0; hour = dt.hour + 1 }
    else next_midnight dt
