-- ===== src/Calendar/Order.antt =====
-- Adding days moves a date later, and keeps it a date.
use render_cart.Prelude.{ℕ, zero, suc, ◌+◌, ◌≤◌, ◌<◌, arith}
use render_cart.Calendar.{DateTime, days_in_month, tomorrow, plus_days, stamp, IsDate}

pub days_in_month_bounds :
    (year month : ℕ) → (28 ≤ days_in_month year month) × (days_in_month year month ≤ 31)
unfolding days_in_month
days_in_month_bounds year month = ground arith

tomorrow-IsDate : (t : DateTime) → IsDate t → IsDate (tomorrow t)
unfolding tomorrow
tomorrow-IsDate t h =
    ground (arith, days_in_month_bounds (t.year + 1) 1, days_in_month_bounds t.year (t.month + 1))

tomorrow-later : (t : DateTime) → IsDate t → stamp t < stamp (tomorrow t)
unfolding tomorrow
tomorrow-later t h = ground (arith, days_in_month_bounds t.year t.month)

pub plus_days-IsDate : (n : ℕ) (t : DateTime) → IsDate t → IsDate (plus_days n t)
unfolding plus_days
plus_days-IsDate zero t h = h
plus_days-IsDate (suc n) t h = plus_days-IsDate n (tomorrow t) (tomorrow-IsDate t h)

-- Each day adds at least one to the place in the order.
pub plus_days-later : (n : ℕ) (t : DateTime) → IsDate t → stamp t + n ≤ stamp (plus_days n t)
unfolding plus_days
plus_days-later zero t h = omega arith
plus_days-later (suc n) t h =
    omega (arith, tomorrow-later t h, plus_days-later n (tomorrow t) (tomorrow-IsDate t h))
