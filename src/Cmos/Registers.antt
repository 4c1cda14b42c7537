-- ===== src/Cmos/Registers.antt =====
-- Reading the clock of src/kernel/io/cmos.c undoes the encodings of its registers.
use homemade_os.Base.{
  ℕ, ◌+◌, ◌*◌, ◌/◌, ◌%◌, ◌^◌, ◌<◌, ◌≡◌, refl, Bool, true, false, arith, ltb, ◌==◌, if◌then◌else◌,
}
use homemade_os.Cmos.{DateTime, from_bcd, read_cmos_time}
use homemade_os.Cmos.Clock.{IsTime}

-- The encoding of a byte in the registers.
abbrev pub encode : (binary_mode : Bool) → ℕ → ℕ
encode binary_mode n = if binary_mode then n else n / 10 * 16 + n % 10

-- The hours of a clock with 12 hours: 12 at midnight and at noon, the highest bit after noon.
abbrev pub encode_hour : (binary_mode hour24_mode : Bool) → ℕ → ℕ
encode_hour binary_mode hour24_mode h =
    if hour24_mode
    then encode binary_mode h
    else encode binary_mode (if h % 12 == 0 then 12 else h % 12) + (if ltb h 12 then 0 else 2 ^ 7)

abbrev pub registers_of : DateTime → (binary_mode hour24_mode : Bool) → DateTime
registers_of dt binary_mode hour24_mode = record {
  year = encode binary_mode dt.year;
  month = encode binary_mode dt.month;
  day = encode binary_mode dt.day;
  hour = encode_hour binary_mode hour24_mode dt.hour;
  minute = encode binary_mode dt.minute;
  second = encode binary_mode dt.second;
}

decode-encode : (b : Bool) (n : ℕ) → (if b then encode b n else from_bcd (encode b n)) ≡ n
decode-encode true n = refl
decode-encode false n = omega arith

hour_lem :
    (b h24 : Bool) (h : ℕ)
    → h < 24
    → let r = encode_hour b h24 h in
      let low = r % 2 ^ 7 in
      let hour = if b then low else from_bcd low in
      (if h24
        then hour
        else (if hour == 12 then 0 else hour) + (if (r / 2 ^ 7) % 2 == 1 then 12 else 0))
      ≡ h
hour_lem b h24 h l = ground arith

-- For a clock set to any mode, binary or in decimal digits, with 24 or with 12 hours, the registers
-- that hold a time of the years 2000 to 2099 are read as that time.
pub read_cmos_time-registers_of :
    (dt : DateTime) (binary_mode hour24_mode : Bool)
    → IsTime dt
    → dt.year < 100
    → read_cmos_time (registers_of dt binary_mode hour24_mode) binary_mode hour24_mode ≡ dt
unfolding read_cmos_time
read_cmos_time-registers_of dt b h24 t y =
    rw
      (
        decode-encode b dt.year,
        decode-encode b dt.month,
        decode-encode b dt.day,
        decode-encode b dt.minute,
        decode-encode b dt.second,
        hour_lem b h24 dt.hour t.hour_to,
      )
      refl
