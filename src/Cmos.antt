-- ===== src/Cmos.antt =====
-- The real-time clock of src/kernel/io/cmos.c: what it computes from the registers it reads. The
-- numbers stay far below the bounds of `int` and of 64 bits.
pub mod Calendar
pub mod Clock
pub mod Registers
mod Tests
use homemade_os.Base.{
  ℕ, zero, suc, ◌+◌, ◌-◌, ◌*◌, ◌/◌, ◌%◌, ◌^◌, Bool, true, false, not, ◌&&◌, ◌||◌, List, [], ◌∷◌,
  ltb, ◌==◌, if◌then◌else◌, get_or,
}

abbrev pub days_in_month : List ℕ
days_in_month = 31 ∷ 28 ∷ 31 ∷ 30 ∷ 31 ∷ 30 ∷ 31 ∷ 31 ∷ 30 ∷ 31 ∷ 30 ∷ 31 ∷ []

-- `for(i = 1; i < m; i++) r += daysInMonth[i - 1];` with `rounds` rounds left.
unfoldable pub add_months : (rounds i r : ℕ) → ℕ
add_months zero i r = r
add_months (suc n) i r = add_months n (i + 1) (r + get_or days_in_month (i - 1) 0)

abbrev pub is_leap : ℕ → Bool
is_leap y = (y % 400 == 0) || (not (y % 100 == 0) && (y % 4 == 0))

unfoldable pub count_days : (y m d : ℕ) → ℕ
unfolding add_months
count_days y m d =
    let r = (y - 1) * 365 + (y - 1) / 4 - (y - 1) / 100 + (y - 1) / 400 in
    let r' = add_months (m - 1) 1 r in (if ltb 2 m && is_leap y then r' + 1 else r') + (d - 1)

pub record DateTime : Type 0 where
  pub year : ℕ
  pub month : ℕ
  pub day : ℕ
  pub hour : ℕ
  pub minute : ℕ
  pub second : ℕ

unfoldable pub date_time_to_uint64 : DateTime → ℕ
unfolding count_days
date_time_to_uint64 dt =
    ((count_days (dt.year + 2000) dt.month dt.day * 24 + dt.hour) * 60 + dt.minute) * 60 + dt.second

-- `((*v) & 0xf) + ((*v) >> 4) * 10` on a byte
abbrev pub from_bcd : ℕ → ℕ
from_bcd v = v % 16 + (v / 16) * 10

-- `readCMOSTime`, of the bytes that `readCMOS` reads from the six registers.
unfoldable pub read_cmos_time : (registers : DateTime) → (binary_mode hour24_mode : Bool) → DateTime
read_cmos_time r binary_mode hour24_mode =
    let is_pm = (r.hour / 2 ^ 7) % 2 in
    let low = r.hour % 2 ^ 7 in
    let convert : ℕ → ℕ = λ v. if binary_mode then v else from_bcd v in
    let hour = convert low in
    record {
      year = convert r.year;
      month = convert r.month;
      day = convert r.day;
      hour =
          if hour24_mode
          then hour
          else (if hour == 12 then 0 else hour) + (if is_pm == 1 then 12 else 0);
      minute = convert r.minute;
      second = convert r.second;
    }
