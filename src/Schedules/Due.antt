-- ===== src/Schedules/Due.antt =====
-- The loop of `generate_recurring_invoices` and `generate_website_audit_schedules`
-- (backend/src/rendercart/jobs/tasks.py) that moves a schedule past the present.
use render_cart.Prelude.{
  ℕ, zero, suc, ◌+◌, ◌%◌, ◌≤◌, ◌<◌, ◌≡◌, ◌⊎◌, refl, min, arith, inl, inr, Bool-cases, leb,
}
use render_cart.Calendar.{DateTime, days_in_month, plus_days, stamp, month_number, IsDate}
use render_cart.Calendar.Order.{days_in_month_bounds, plus_days-IsDate, plus_days-later}
use render_cart.Schedules.{Interval, advance_recurring_invoice, catch_up, next_run, repeat}

-- An advance of dates: it gives a later date.
pub record Advance (advance : DateTime → DateTime) : Type 0 where
  pub keeps : (t : DateTime) → IsDate t → IsDate (advance t)
  pub later : (t : DateTime) → IsDate t → stamp t < stamp (advance t)

-- `r` is the first date after `now` among `t` and its repeated advances.
abbrev pub FirstAfter : DateTime → (DateTime → DateTime) → (t r : DateTime) → Type 0
FirstAfter now advance t r =
    (k : ℕ) × (r ≡ repeat advance k t)
    × ((i : ℕ) → i < k → stamp (repeat advance i t) ≤ stamp now)
    × (stamp now < stamp r)

due_below :
    (now : DateTime) (advance : DateTime → DateTime) (t : DateTime) (k : ℕ)
    → stamp t ≤ stamp now
    → ((i : ℕ) → i < k → stamp (repeat advance i (advance t)) ≤ stamp now)
    → (i : ℕ) → i < suc k
    → stamp (repeat advance i t) ≤ stamp now
due_below now advance t k due before zero h = due
due_below now advance t k due before (suc i) h = before i (omega arith)

module _ (now : DateTime) (advance : DateTime → DateTime) (a : Advance advance) where
  FirstAfter-next :
      (t r : DateTime)
      → stamp t ≤ stamp now
      → FirstAfter now advance (advance t) r
      → FirstAfter now advance t r
  FirstAfter-next t r due (k, e, before, after) =
      (suc k, e, due_below now advance t k due before, after)

  catch_up-FirstAfter :
      (fuel : ℕ) (t : DateTime)
      → IsDate t
      → stamp now < stamp t + fuel
      → FirstAfter now advance t (catch_up fuel now advance t)
  unfolding catch_up
  catch_up-FirstAfter zero t d h = (zero, refl, (λ i k. elim k [ ]), omega (arith, h))
  catch_up-FirstAfter (suc fuel) t d h = elim (Bool-cases (leb (stamp t) (stamp now))) [
    | inl due ↦ rw due (
        FirstAfter-next t _ (ground arith)
          (catch_up-FirstAfter fuel (advance t) (a.keeps t d) (omega (arith, a.later t d))))
    | inr past ↦ rw past (zero, refl, (λ i k. elim k [ ]), ground arith)
  ]

  -- The loop ends: the next run of a due schedule is the first date after the present among its
  -- date and the repeated advances of it, so no round is skipped and none is repeated.
  pub next_run-FirstAfter :
      (t : DateTime)
      → IsDate t
      → stamp t ≤ stamp now
      → FirstAfter now advance t (next_run now advance t)
  unfolding next_run
  next_run-FirstAfter t d due =
      FirstAfter-next t _ due
        (catch_up-FirstAfter (suc (stamp now)) (advance t) (a.keeps t d) (omega arith))

next_month : (m : ℕ) → 1 ≤ m → m ≤ 12 → (m ≡ 12) ⊎ (m % 12 + 1 ≡ m + 1)
next_month m h k = ground arith

monthly-Advance :
    (anchor : ℕ) → 1 ≤ anchor → Advance (advance_recurring_invoice Interval.monthly anchor)
unfolding advance_recurring_invoice
monthly-Advance anchor h = record {
  keeps = λ t d. ground (
    arith,
    next_month t.month d.month_from d.month_to,
    days_in_month_bounds (t.year + 1) 1,
    days_in_month_bounds t.year (t.month + 1),
  );
  later = λ t d. ground (
    arith,
    next_month t.month d.month_from d.month_to,
    days_in_month_bounds t.year t.month,
    days_in_month_bounds (t.year + 1) 1,
    days_in_month_bounds t.year (t.month + 1),
  );
}

plus_week-Advance : Advance (plus_days 7)
plus_week-Advance = record {
  keeps = plus_days-IsDate 7;
  later = λ t d. omega (arith, plus_days-later 7 t d);
}

pub advance_recurring_invoice-Advance :
    (interval : Interval) (anchor : ℕ)
    → 1 ≤ anchor
    → Advance (advance_recurring_invoice interval anchor)
unfolding advance_recurring_invoice
advance_recurring_invoice-Advance Interval.weekly anchor h = plus_week-Advance
advance_recurring_invoice-Advance Interval.monthly anchor h = monthly-Advance anchor h

-- The loop of recurring invoices ends, for either interval: the next run of a due schedule is the
-- first date after the present among its date and the repeated advances of it, so that no
-- occurrence is skipped. Its date is a date of the calendar, and its anchor a day of a month.
pub next_invoice_run-FirstAfter :
    (interval : Interval) (anchor : ℕ) (now t : DateTime)
    → 1 ≤ anchor
    → IsDate t
    → stamp t ≤ stamp now
    → let advance = advance_recurring_invoice interval anchor in
      FirstAfter now advance t (next_run now advance t)
next_invoice_run-FirstAfter interval anchor now t h d due =
    next_run-FirstAfter now _ (advance_recurring_invoice-Advance interval anchor h) t d due

one_month :
    (anchor : ℕ) (t : DateTime)
    → IsDate t
    → month_number (advance_recurring_invoice Interval.monthly anchor t) ≡ month_number t + 1
unfolding advance_recurring_invoice
one_month anchor t d = ground (arith, next_month t.month d.month_from d.month_to)

-- Monthly invoices do not drift: the n-th repetition (n from 1) of the advance of a date of the
-- calendar falls n months later, on the anchor day or on the last day of a shorter month, at the
-- same time of day.
pub advance_recurring_invoice-monthly :
    (anchor n : ℕ) (t : DateTime)
    → 1 ≤ anchor
    → IsDate t
    → let r = repeat (advance_recurring_invoice Interval.monthly anchor) (suc n) t in
      (month_number r ≡ month_number t + suc n)
      × (r.day ≡ min anchor (days_in_month r.year r.month))
      × (r.microsecond ≡ t.microsecond)
unfolding advance_recurring_invoice
advance_recurring_invoice-monthly anchor zero t h d =
    (omega (arith, one_month anchor t d), refl, refl)
advance_recurring_invoice-monthly anchor (suc n) t h d =
    let a = advance_recurring_invoice-Advance Interval.monthly anchor h in
    let rest = advance_recurring_invoice-monthly anchor n _ h (a.keeps t d) in
    (omega (arith, one_month anchor t d, rest.0), rest.1, rest.2)
