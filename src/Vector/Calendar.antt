-- ===== src/Vector/Calendar.antt =====
-- internal/vector/fast.go, dayNumberFromYMD, and isLeap of vector.go.

pub mod Count
use rinha_de_backend.Base.{
  ℕ, zero, suc, ◌+◌, ◌-◌, ◌*◌, ◌/◌, ◌%◌, Bool, true, false, not, List, [], ◌∷◌, Option, none, some,
  ltb, ◌==◌, ◌||◌, ◌&&◌, if◌then◌else◌, get_elem?, ℤ, pos, negsuc, pos_part, neg_part, sub_ℕ,
}

unfoldable pub is_leap : ℕ → Bool
is_leap y = (y % 4 == 0 && not (y % 100 == 0)) || y % 400 == 0

abbrev pub month_days_before : List ℕ
month_days_before = 0 ∷ 31 ∷ 59 ∷ 90 ∷ 120 ∷ 151 ∷ 181 ∷ 212 ∷ 243 ∷ 273 ∷ 304 ∷ 334 ∷ []

-- yPrev*365 + yPrev/4 - yPrev/100 + yPrev/400 + before + d - 1, and one more behind a leap day. In
-- year 0 yPrev is -1, whose quotients are 0.
unfoldable pub sum_days : ℕ → ℕ → ℕ → ℕ → ℤ
sum_days y m d before =
    let p = y - 1 in
    let leap_day = if ltb 2 m && is_leap y then 1 else 0 in
    let year_zero = if y == 0 then 365 else 0 in
    sub_ℕ (p * 365 + p / 4 + p / 400 + before + d + leap_day) (p / 100 + 1 + year_zero)

-- `none` is the panic of monthDaysBefore[m-1] out of range.
unfoldable pub day_number_from_ymd : ℕ → ℕ → ℕ → Option ℤ
day_number_from_ymd y zero d = none
day_number_from_ymd y (suc m) d = elim (get_elem? month_days_before m) [
  | none ↦ none
  | some before ↦ some (sum_days y (suc m) d before)
]

-- dayNum*1440 + hour*60 + min
unfoldable pub minutes_of : ℤ → ℕ → ℕ → ℤ
minutes_of days hour minute =
    sub_ℕ (pos_part days * 1440 + hour * 60 + minute) (neg_part days * 1440)

-- dayNum % 7, with the sign of the day number
unfoldable pub week_day : ℤ → ℤ
week_day (pos n) = pos (n % 7)
week_day (negsuc n) = sub_ℕ 0 ((n + 1) % 7)
