-- ===== src/Cmos/Calendar.antt =====
-- The days and seconds of src/kernel/io/cmos.c count on from one calendar day or second to the next.
use homemade_os.Base.{
  ℕ, zero, suc, ◌+◌, ◌-◌, ◌*◌, ◌/◌, ◌≤◌, ◌<◌, ◌≡◌, sym, ap, ◌∙◌, inl, inr, Bool, ◌&&◌, List, [],
  ◌∷◌, arith, ltb, ◌==◌, if◌then◌else◌, get_or, Bool-cases, ltb→lt, All, length,
}
use homemade_os.Cmos.{days_in_month, add_months, is_leap, count_days}

abbrev pub days_of : (y m : ℕ) → ℕ
days_of y m = get_or days_in_month (m - 1) 0 + (if is_leap y && (m == 2) then 1 else 0)

-- One more round adds the next month.
add_months-suc :
    (n i r : ℕ)
    → 0 < i
    → add_months (suc n) i r ≡ add_months n i r + get_or days_in_month (i + n - 1) 0
unfolding add_months
add_months-suc zero i r h =
    let e : i - 1 ≡ i + 0 - 1 = omega arith in ap (λ k. r + get_or days_in_month k 0) e
add_months-suc (suc n) i r h =
    let e : i + 1 + n - 1 ≡ i + suc n - 1 = omega arith in
    let more : ℕ = r + get_or days_in_month (i - 1) 0 in
    add_months-suc n (i + 1) more (omega arith)
    ∙ ap (λ k. add_months n (i + 1) more + get_or days_in_month k 0) e

-- The day after a date.
pub next_day : (y m d : ℕ) → ℕ × ℕ × ℕ
next_day y m d =
    if ltb d (days_of y m) then (y, m, d + 1) else if ltb m 12 then (y, m + 1, 1) else (y + 1, 1, 1)

-- A date from year 1 on.
pub record IsDate (y m d : ℕ) : Type 0 where
  pub from_one : 1 ≤ y
  pub month_from : 1 ≤ m
  pub month_to : m ≤ 12
  pub day_from : 1 ≤ d
  pub day_to : d ≤ days_of y m

year_step :
    (y : ℕ)
    → 1 ≤ y
    → y * 365 + y / 4 - y / 100 + y / 400
      ≡ (y - 1) * 365
        + (y - 1) / 4
        - (y - 1) / 100
        + (y - 1) / 400
        + 365
        + (if is_leap y then 1 else 0)
year_step y h = ground arith

abbrev days_before_year : ℕ → ℕ
days_before_year y = (y - 1) * 365 + (y - 1) / 4 - (y - 1) / 100 + (y - 1) / 400

get_or-positive : (xs : List ℕ) (i : ℕ) → All (λ x. 0 < x) xs → i < length xs → 0 < get_or xs i 0
get_or-positive [] i a h = absurd (omega arith)
get_or-positive (x ∷ xs) zero a h = a.0
get_or-positive (x ∷ xs) (suc i) a h = get_or-positive xs i a.1 (omega arith)

days_of-positive : (y m : ℕ) → m ≤ 12 → 1 ≤ m → 0 < get_or days_in_month (m - 1) 0
days_of-positive y m h k =
    let all : All (λ (x : ℕ). 0 < x) days_in_month = (
      omega arith,
      (
        omega arith,
        (
          omega arith,
          (
            omega arith,
            (
              omega arith,
              (
                omega arith,
                (
                  omega arith,
                  (omega arith, (omega arith, (omega arith, (omega arith, (omega arith, tt))))),
                ),
              ),
            ),
          ),
        ),
      ),
    ) in
    get_or-positive days_in_month (m - 1) all (omega arith)

-- The leap day is counted from March on, and February has it.
leap_month :
    (leap : Bool) (m a g : ℕ)
    → 1 ≤ m
    → 0 < g
    → (if ltb 2 (m + 1) && leap then a + g + 1 else a + g) + (1 - 1)
      ≡ (if ltb 2 m && leap then a + 1 else a) + (g + (if leap && (m == 2) then 1 else 0) - 1) + 1
leap_month leap m a g h k = ground arith

month_step : (y m : ℕ) → 1 ≤ m → m < 12 → count_days y (m + 1) 1 ≡ count_days y m (days_of y m) + 1
unfolding count_days
month_step y m h k =
    let r : ℕ = days_before_year y in
    let rounds : m + 1 - 1 ≡ suc (m - 1) = omega arith in
    let at : 1 + (m - 1) - 1 ≡ m - 1 = omega arith in
    let sum : add_months (m + 1 - 1) 1 r ≡ add_months (m - 1) 1 r + get_or days_in_month (m - 1) 0 =
      ap (λ n. add_months n 1 r) rounds
      ∙ add_months-suc (m - 1) 1 r (omega arith)
      ∙ ap (λ n. add_months (m - 1) 1 r + get_or days_in_month n 0) at in
    ap (λ n. (if ltb 2 (m + 1) && is_leap y then n + 1 else n) + (1 - 1)) sum
    ∙ leap_month (is_leap y) m (add_months (m - 1) 1 r) (get_or days_in_month (m - 1) 0) h
        (days_of-positive y m (omega arith) h)

last_step : (y : ℕ) → 1 ≤ y → count_days (y + 1) 1 1 ≡ count_days y 12 (days_of y 12) + 1
unfolding count_days add_months
last_step y h =
    let base : ℕ = days_before_year y + 365 in
    let step = year_step y h in
    let first : y + 1 - 1 ≡ y = omega arith in
    ap (λ n. n * 365 + n / 4 - n / 100 + n / 400 + (1 - 1)) first ∙ elim (Bool-cases (is_leap y)) [
      | inl leap ↦
          let s = step ∙ ap (λ (b : Bool). base + (if b then 1 else 0)) leap in
          rw leap (omega (arith, s))
      | inr common ↦
          let s = step ∙ ap (λ (b : Bool). base + (if b then 1 else 0)) common in
          rw common (omega (arith, s))
    ]

days_of-first : (y m : ℕ) → m ≤ 12 → 1 ≤ m → 1 ≤ days_of y m
days_of-first y m h k = omega (arith, days_of-positive y m h k)

next-in_month : (y m d : ℕ) → 1 ≤ d → count_days y m (d + 1) ≡ count_days y m d + 1
unfolding count_days
next-in_month y m d h = omega arith

-- From a date of the calendar to the next, `countDays` goes up by one, and the next is a date.
pub next_day-count_days :
    (y m d : ℕ)
    → IsDate y m d
    → let (y', m', d') = next_day y m d in
      (count_days y' m' d' ≡ count_days y m d + 1) × IsDate y' m' d'
unfolding next_day
next_day-count_days y m d i = elim (Bool-cases (ltb d (days_of y m))) [
  | inl more ↦
      let less = ltb→lt d (days_of y m) more in
      rw (more, next_day)
        (
          next-in_month y m d i.day_from,
          record {
            from_one = i.from_one;
            month_from = i.month_from;
            month_to = i.month_to;
            day_from = omega arith;
            day_to = omega arith;
          },
        )
  | inr last ↦
      let e : d ≡ days_of y m = ground (arith, i.day_to) in
      elim (Bool-cases (ltb m 12)) [
        | inl month ↦
            let less = ltb→lt m 12 month in
            rw (last, month, next_day)
              (
                month_step y m i.month_from less ∙ ap (λ n. count_days y m n + 1) (sym e),
                record {
                  from_one = i.from_one;
                  month_from = omega arith;
                  month_to = omega arith;
                  day_from = omega arith;
                  day_to = omega (arith, days_of-first y (m + 1) (omega arith) (omega arith));
                },
              )
        | inr year ↦
            let twelve : m ≡ 12 = ground (arith, i.month_to) in
            rw (last, year, next_day)
              (
                last_step y i.from_one
                    ∙ ap (λ n. count_days y n (days_of y n) + 1) (sym twelve)
                    ∙ ap (λ n. count_days y m n + 1) (sym e),
                record {
                  from_one = omega arith;
                  month_from = omega arith;
                  month_to = omega arith;
                  day_from = omega arith;
                  day_to = omega (arith, days_of-first (y + 1) 1 (omega arith) (omega arith));
                },
              )
      ]
]

pub next_day-year : (y m d : ℕ) → y ≤ (next_day y m d).0
unfolding next_day
next_day-year y m d = ground arith
