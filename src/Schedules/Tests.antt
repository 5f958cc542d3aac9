-- ===== src/Schedules/Tests.antt =====
-- A monthly invoice that missed a month, two users with due schedules, and the laws at these inputs.
use render_cart.Prelude.{
  ℕ, ◌+◌, ◌≡◌, refl, min, true, none, some, [], ◌∷◌, arith, ◌==◌, if◌then◌else◌,
}
use render_cart.Prelude.Int.{pos}
use render_cart.Access.{Level}
use render_cart.Credits.{Wallet}
use render_cart.Credits.Books.{Books}
use render_cart.Calendar.{DateTime, IsDate, days_in_month, month_number, plus_days}
use render_cart.Schedules.{Interval, Now, advance_recurring_invoice, catch_up, next_run, repeat}
use render_cart.Schedules.Due.{
  FirstAfter, next_invoice_run-FirstAfter, advance_recurring_invoice-monthly,
}
use render_cart.Schedules.Invoices.{
  DocumentType, InvoicePayload, InvoiceSchedule, InvoiceRows, InvoiceRun,
  generate_recurring_invoices,
}
use render_cart.Schedules.Created.{Numbered, generate_recurring_invoices-Numbered}
use render_cart.Schedules.Audits.{
  AuditSchedule, AuditRows, AuditRun, generate_website_audit_schedules,
}
use render_cart.Schedules.Held.{HoldsCharges, generate_website_audit_schedules-HoldsCharges}

abbrev at_nine : (year month day : ℕ) → DateTime
at_nine year month day = record { year = year; month = month; day = day; microsecond = 32400000000 }

abbrev last_of_january : DateTime
last_of_january = at_nine 2024 1 31

abbrev in_march : DateTime
in_march = at_nine 2024 3 15

abbrev by_month : DateTime → DateTime
by_month = advance_recurring_invoice Interval.monthly 31

last_of_january-IsDate : IsDate last_of_january
unfolding days_in_month
last_of_january-IsDate = record {
  month_from = omega arith;
  month_to = omega arith;
  day_from = omega arith;
  day_to = omega arith;
  in_day = omega arith;
}

-- February has passed, on its last day; the next run is the last of March.
next_run-march : next_run in_march by_month last_of_january ≡ at_nine 2024 3 31
unfolding next_run advance_recurring_invoice catch_up days_in_month
next_run-march = refl

weekly-new_year :
    advance_recurring_invoice Interval.weekly 1 (at_nine 2023 12 28) ≡ at_nine 2024 1 4
unfolding advance_recurring_invoice plus_days
weekly-new_year = refl

next_invoice_run_example :
    FirstAfter in_march by_month last_of_january (next_run in_march by_month last_of_january)
next_invoice_run_example =
    next_invoice_run-FirstAfter Interval.monthly 31 in_march last_of_january (omega arith)
      last_of_january-IsDate (omega arith)

advance_recurring_invoice_example :
    let r = repeat by_month 3 last_of_january in
    (month_number r ≡ month_number last_of_january + 3)
    × (r.day ≡ min 31 (days_in_month r.year r.month))
    × (r.microsecond ≡ 32400000000)
advance_recurring_invoice_example =
    advance_recurring_invoice-monthly 31 2 last_of_january (omega arith) last_of_january-IsDate

abbrev rent : InvoicePayload
rent = record {
  document_type = DocumentType.invoice;
  number = none;
  issued_on = 100;
  due_on = some 114;
  rest = "";
}

abbrev rent_schedule : (id user : ℕ) → InvoiceSchedule
rent_schedule id user = record {
  id = id;
  user_id = user;
  interval = Interval.monthly;
  anchor_day = 31;
  payload = some rent;
  active = true;
  next_run_at = last_of_january;
  last_job_id = none;
}

abbrev invoice_rows : InvoiceRows
invoice_rows = record {
  schedules = rent_schedule 1 7 ∷ rent_schedule 2 7 ∷ rent_schedule 3 8 ∷ [];
  sequences = λ u t. none;
  jobs = [];
  dispatches = [];
  audit_log = [];
}

abbrev now : Now
now = record { date = in_march; time = 5000; today = 144 }

-- User 7 is on the pro plan, and user 8 is not.
abbrev invoice_run : InvoiceRun
invoice_run = record {
  now = now;
  tool_available = true;
  levels = λ u. if u == 7 then some Level.pro else some Level.free;
  job_ids = λ i. i + 100;
}

invoice_run-two : (generate_recurring_invoices invoice_run invoice_rows).1 ≡ 2
unfolding generate_recurring_invoices
invoice_run-two = refl

generate_recurring_invoices-Numbered_example :
    Numbered (generate_recurring_invoices invoice_run invoice_rows).0
generate_recurring_invoices-Numbered_example =
    generate_recurring_invoices-Numbered invoice_run invoice_rows
      (record { issued = tt; apart = tt })

abbrev wallet : Wallet
wallet = record {
  account = some (record { balance = pos 5; held = 0 });
  lots =
      record {
        id = 1;
        source_ledger_id = 11;
        total = 5;
        remaining = 5;
        held = 0;
        expires_at = some 9000;
        created_at = 100;
      }
      ∷ [];
  reservations = [];
  ledger = [];
}

wallet-Books : Books wallet
wallet-Books = record {
  balanced = refl;
  held = refl;
  covered = omega arith;
  known = tt;
  distinct = omega arith;
}

abbrev site : (id user : ℕ) → AuditSchedule
site id user = record {
  id = id;
  user_id = user;
  target_valid = true;
  active = true;
  next_run_at = last_of_january;
  last_job_id = none;
  last_error_code = none;
}

-- Three audits of one user, with credits for two.
abbrev audit_rows : AuditRows
audit_rows = record {
  schedules = site 1 7 ∷ site 2 7 ∷ site 3 7 ∷ [];
  wallets = λ u. wallet;
  jobs = [];
  dispatches = [];
  audit_log = [];
}

abbrev audit_run : AuditRun
audit_run = record {
  now = now;
  tool_available = true;
  levels = λ u. some Level.pro;
  job_ids = λ i. i + 100;
  ledger_ids = λ i. i + 200;
}

generate_website_audit_schedules_example :
    HoldsCharges audit_rows (generate_website_audit_schedules audit_run audit_rows).0
generate_website_audit_schedules_example =
    generate_website_audit_schedules-HoldsCharges audit_run audit_rows (λ u. wallet-Books)
