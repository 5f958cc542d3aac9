-- ===== src/Schedules.antt =====
-- The schedules that create jobs: recurring invoices (backend/src/rendercart/jobs/tasks.py,
-- business/invoice.py, business/numbering.py) and weekly website audits (jobs/tasks.py). Here is
-- what the two share: the clock, the loop that moves a schedule past the present, the query for
-- the due ones, and the rows of a created job.
pub mod Due
pub mod Invoices
pub mod Audits
pub mod Created
pub mod Held
mod Tests
use render_cart.Prelude.{
  ℕ, zero, suc, ◌+◌, ◌%◌, ◌&&◌, ◌==◌, min, String, Bool, false, Option, none, some, List, [], ◌∷◌,
  if◌then◌else◌, leb,
}
use render_cart.Calendar.{DateTime, stamp, month_number, days_in_month, plus_days}
use render_cart.Jobs.{Job, JobOptions, queued, no_artifact}

pub data Interval : Type 0 where
  weekly monthly : Interval

-- One reading of the clock: the date, the same instant in seconds, as the columns of jobs and
-- credits are modelled, and the number of the day.
pub record Now : Type 0 where
  pub date : DateTime
  pub time : ℕ
  pub today : ℕ

-- `_advance_recurring_invoice`
unfoldable pub advance_recurring_invoice : Interval → (anchor_day : ℕ) → DateTime → DateTime
advance_recurring_invoice Interval.weekly anchor_day value = plus_days 7 value
advance_recurring_invoice Interval.monthly anchor_day value =
    let month = value.month % 12 + 1 in
    let year = value.year + (if value.month == 12 then 1 else 0) in
    record value { year = year; month = month; day = min anchor_day (days_in_month year month) }

-- `while next_run_at <= now: next_run_at = advance(next_run_at)`
unfoldable pub catch_up : (fuel : ℕ) → DateTime → (DateTime → DateTime) → DateTime → DateTime
catch_up zero now advance t = t
catch_up (suc fuel) now advance t =
    let rest = catch_up fuel now advance (advance t) in
    if leb (stamp t) (stamp now) then rest else t

-- One advance, and the loop. Every advance adds to the stamp, so a round for each stamp up to the
-- present is enough.
unfoldable pub next_run : DateTime → (DateTime → DateTime) → DateTime → DateTime
next_run now advance t = catch_up (suc (stamp now)) now advance (advance t)

abbrev pub repeat : (DateTime → DateTime) → ℕ → DateTime → DateTime
repeat advance zero t = t
repeat advance (suc n) t = repeat advance n (advance t)

module _ {S : Type 0} (next : S → DateTime) where
  -- `ORDER BY next_run_at`
  unfoldable pub insert_due : S → List S → List S
  insert_due s [] = s ∷ []
  insert_due s (x ∷ xs) =
      if leb (stamp (next s)) (stamp (next x)) then s ∷ x ∷ xs else x ∷ insert_due s xs

  -- `WHERE active AND next_run_at <= now ORDER BY next_run_at`
  unfoldable pub due_rows : (active : S → Bool) → DateTime → List S → List S
  unfolding insert_due
  due_rows active now [] = []
  due_rows active now (s ∷ xs) =
      let rest = due_rows active now xs in
      if active s && leb (stamp (next s)) (stamp now) then insert_due s rest else rest

-- `LIMIT n`
abbrev pub limit {ℓ} : {A : Type ℓ} → ℕ → List A → List A
limit zero xs = []
limit (suc n) [] = []
limit (suc n) (x ∷ xs) = x ∷ limit n xs

abbrev pub plain_options : JobOptions
plain_options = record {
  bill_credits = false;
  batch_mode = false;
  max_minutes_per_month = none;
  max_characters = none;
  max_words = none;
  max_pages = none;
  word_count_per_day = none;
}

-- The `Job` that a schedule adds: queued, without inputs, kept for two days.
abbrev pub scheduled_job : (id user now : ℕ) → (tool_slug : String) → (charged_credits : ℕ) → Job
scheduled_job id user now slug charged = record {
  id = id;
  user_id = some user;
  guest_id = none;
  tool_slug = slug;
  payment_tier = none;
  charged_credits = charged;
  state = queued;
  options = plain_options;
  input_upload_ids = [];
  output = no_artifact;
  locked_output = no_artifact;
  progress = 0;
  quota_reserved = false;
  quota_key = none;
  duration_quota_key = none;
  duration_quota_reserved_seconds = 0;
  word_quota_key = none;
  word_quota_reserved_words = 0;
  error_code = none;
  created_at = now;
  started_at = none;
  finished_at = none;
  expires_at = now + 172800;
}
