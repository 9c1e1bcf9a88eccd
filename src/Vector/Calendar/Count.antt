-- ===== src/Vector/Calendar/Count.antt =====
-- dayNumberFromYMD against a count of the days of the calendar, year by year and month by month.
use rinha_de_backend.Base.{
  ℕ, zero, suc, ◌+◌, ◌-◌, ◌*◌, ◌/◌, ◌%◌, ◌≤◌, ◌<◌, ◌≡◌, refl, ap, some, arith, ltb, ◌==◌, ◌&&◌,
  if◌then◌else◌, get_elem?, pos, sub_ℕ,
}
use rinha_de_backend.Vector.Calendar.{is_leap, month_days_before, sum_days, day_number_from_ymd}

abbrev pub days_in_month : ℕ → ℕ → ℕ
days_in_month y m =
    if ltb 7 m
    then 30 + (1 - m % 2)
    else if m == 2
    then 28 + (if is_leap y then 1 else 0)
    else 30 + m % 2

-- The days of the months 1 to m.
abbrev pub month_count : ℕ → ℕ → ℕ
month_count y zero = 0
month_count y (suc m) = month_count y m + days_in_month y (suc m)

-- The days of the years 1 to n.
abbrev pub year_count : ℕ → ℕ
year_count zero = 0
year_count (suc n) = year_count n + (if is_leap (suc n) then 366 else 365)

-- The closed formula agrees with the leap rule.
year_count-formula : (n : ℕ) → year_count n + n / 100 ≡ n * 365 + n / 4 + n / 400
unfolding is_leap
year_count-formula zero = refl
year_count-formula (suc n) = ground (arith, year_count-formula n)

sub_ℕ-add : (a b c : ℕ) → a ≡ b + c → sub_ℕ a b ≡ pos c
sub_ℕ-add a b c h = ground arith

not_zero : (n : ℕ) → let none_of : ℕ = 0 in (if suc n == 0 then 365 else 0) ≡ none_of
not_zero n = ground arith

sum_days-count :
    (n m d before : ℕ)
    → 1 ≤ d
    → before + (if ltb 2 m && is_leap (suc n) then 1 else 0) ≡ month_count (suc n) (m - 1)
    → sum_days (suc n) m d before ≡ pos (year_count n + month_count (suc n) (m - 1) + (d - 1))
unfolding sum_days
sum_days-count n m d before h e =
    let p : suc n - 1 ≡ n = omega arith in
    let z = not_zero n in rw (p, z) (sub_ℕ-add _ _ _ (omega (arith, year_count-formula n)))

-- The table and the leap day, by the months before.
month_table :
    (y m : ℕ)
    → m < 12
    → (before : ℕ) × (get_elem? month_days_before m ≡ some before)
      × (before + (if ltb 2 (suc m) && is_leap y then 1 else 0) ≡ month_count y m)
month_table y zero h = (0, refl, ground arith)
month_table y (suc zero) h = (31, refl, ground arith)
month_table y (suc (suc zero)) h = (59, refl, ground arith)
month_table y (suc (suc (suc zero))) h = (90, refl, ground arith)
month_table y (suc (suc (suc (suc zero)))) h = (120, refl, ground arith)
month_table y (suc (suc (suc (suc (suc zero))))) h = (151, refl, ground arith)
month_table y (suc (suc (suc (suc (suc (suc zero)))))) h = (181, refl, ground arith)
month_table y (suc (suc (suc (suc (suc (suc (suc zero))))))) h = (212, refl, ground arith)
month_table y (suc (suc (suc (suc (suc (suc (suc (suc zero)))))))) h = (243, refl, ground arith)
month_table y (suc (suc (suc (suc (suc (suc (suc (suc (suc zero))))))))) h =
    (273, refl, ground arith)
month_table y (suc (suc (suc (suc (suc (suc (suc (suc (suc (suc zero)))))))))) h =
    (304, refl, ground arith)
month_table y (suc (suc (suc (suc (suc (suc (suc (suc (suc (suc (suc zero))))))))))) h =
    (334, refl, ground arith)
month_table y (suc (suc (suc (suc (suc (suc (suc (suc (suc (suc (suc (suc m)))))))))))) h =
    absurd (omega arith)

-- From year 1 on, for a month from 1 to 12 and a day from 1 on, dayNumberFromYMD returns the days of
-- the years before, of the months before in that year and of the days before in that month, counted
-- one year and one month at a time by the rule of the leap years.
pub day_number_from_ymd-count :
    (y m d : ℕ)
    → 1 ≤ y
    → 1 ≤ m
    → m ≤ 12
    → 1 ≤ d
    → day_number_from_ymd y m d ≡ some (pos (year_count (y - 1) + month_count y (m - 1) + (d - 1)))
unfolding day_number_from_ymd
day_number_from_ymd-count zero m d hy h k hd = absurd (omega arith)
day_number_from_ymd-count (suc n) zero d hy h k hd = absurd (omega arith)
day_number_from_ymd-count (suc n) (suc m) d hy h k hd =
    let (before, entry, count) = month_table (suc n) m (omega arith) in
    let pm : suc m - 1 ≡ m = omega arith in
    let pn : suc n - 1 ≡ n = omega arith in
    rw (entry, pn) (ap some (sum_days-count n (suc m) d before hd (rw pm count)))
