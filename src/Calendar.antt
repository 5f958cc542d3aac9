-- ===== src/Calendar.antt =====
-- The dates of Python's `datetime` and `calendar` (the standard library), as the schedules of
-- backend/src/rendercart/jobs/tasks.py and business/invoice.py use them: a date in UTC, its order,
-- `calendar.monthrange` and the sum with `timedelta(days=n)`. Years above 9999, where `datetime`
-- raises OverflowError, are not treated apart.
pub mod Order
use render_cart.Prelude.{
  ℕ, zero, suc, ◌+◌, ◌*◌, ◌%◌, ◌≤◌, ◌<◌, Bool, not, ◌&&◌, ◌||◌, if◌then◌else◌, ◌==◌, ltb,
}

pub record DateTime : Type 0 where
  pub year : ℕ
  pub month : ℕ
  pub day : ℕ
  -- since midnight
  pub microsecond : ℕ

abbrev pub is_leap : ℕ → Bool
is_leap y = y % 4 == 0 && (not (y % 100 == 0) || y % 400 == 0)

-- `monthrange(year, month)[1]`
unfoldable pub days_in_month : (year month : ℕ) → ℕ
days_in_month year month =
    if month == 2
    then (if is_leap year then 29 else 28)
    else if (month == 4 || month == 6) || (month == 9 || month == 11)
    then 30
    else 31

unfoldable pub tomorrow : DateTime → DateTime
unfolding days_in_month
tomorrow t =
    if ltb t.day (days_in_month t.year t.month)
    then record t { day = t.day + 1 }
    else if t.month == 12
    then record t { year = t.year + 1; month = 1; day = 1 }
    else record t { month = t.month + 1; day = 1 }

-- `t + timedelta(days=n)`
unfoldable pub plus_days : ℕ → DateTime → DateTime
unfolding tomorrow
plus_days zero t = t
plus_days (suc n) t = plus_days n (tomorrow t)

-- The place of a date in the order: dates are compared by year, month, day and time.
abbrev pub stamp : DateTime → ℕ
stamp t = ((t.year * 12 + t.month) * 32 + t.day) * 86400000000 + t.microsecond

abbrev pub month_number : DateTime → ℕ
month_number t = t.year * 12 + t.month

pub record IsDate (t : DateTime) : Type 0 where
  pub month_from : 1 ≤ t.month
  pub month_to : t.month ≤ 12
  pub day_from : 1 ≤ t.day
  pub day_to : t.day ≤ days_in_month t.year t.month
  pub in_day : t.microsecond < 86400000000
