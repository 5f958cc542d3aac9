-- ===== src/Schedules/Invoices.antt =====
-- Recurring invoices: `generate_recurring_invoices` of backend/src/rendercart/jobs/tasks.py, the
-- schedules of business/invoice.py and the numbers of business/numbering.py.
use render_cart.Prelude.{
  ℕ, ◌+◌, ◌-◌, ◌%◌, ◌/◌, String, Bool, true, false, ◌&&◌, not, Option, none, some, List, [], ◌∷◌,
  ◌++◌, if◌then◌else◌, ◌==◌, leb, min, length, filter_by, find_by, update_by,
}
use render_cart.Access.{Level, below}
use render_cart.Jobs.{Job, AuditRow}
use render_cart.Calendar.{DateTime, plus_days, days_in_month}
use render_cart.Schedules.{
  Interval, Now, advance_recurring_invoice, next_run, due_rows, limit, scheduled_job,
}

pub data DocumentType : Type 0 where
  invoice quote receipt : DocumentType

-- A document number: printed as the prefix, a dash and at least four digits.
pub record DocumentNumber : Type 0 where
  pub prefix : String
  pub number : ℕ

abbrev pub prefix_of : DocumentType → String
prefix_of invoice = "INV"
prefix_of quote = "QUO"
prefix_of receipt = "REC"

-- `InvoicePayload`: the fields that the task changes, and the others as one text. Dates are numbers
-- of days; its validator has refused a payload that is due before it is issued.
pub record InvoicePayload : Type 0 where
  pub document_type : DocumentType
  pub number : Option DocumentNumber
  pub issued_on : ℕ
  pub due_on : Option ℕ
  pub rest : String

-- `RecurringInvoiceSchedule`. The payload is what the stored text decrypts to, none if that fails
-- or is not valid.
pub record InvoiceSchedule : Type 0 where
  pub id : ℕ
  pub user_id : ℕ
  pub interval : Interval
  pub anchor_day : ℕ
  pub payload : Option InvoicePayload
  pub active : Bool
  pub next_run_at : DateTime
  pub last_job_id : Option ℕ

-- The rows that the task and the handlers write. A sequence is the `next_value` of a user and a
-- type, none before the first number; a created job stands with the payload of its options.
pub record InvoiceRows : Type 0 where
  pub schedules : List InvoiceSchedule
  pub sequences : ℕ → DocumentType → Option ℕ
  pub jobs : List (Job × InvoicePayload)
  pub dispatches : List ℕ
  pub audit_log : List AuditRow

abbrev pub same_type : DocumentType → DocumentType → Bool
same_type invoice invoice = true
same_type quote quote = true
same_type receipt receipt = true
same_type _ _ = false

abbrev pub following : Option ℕ → ℕ
following none = 1
following (some n) = n + 1

-- `reserve_number`: `INSERT ... ON CONFLICT DO UPDATE ... RETURNING next_value`.
unfoldable pub reserve_number :
    (user : ℕ) → DocumentType → InvoiceRows → DocumentNumber × InvoiceRows
reserve_number user type r =
    let value = following (r.sequences user type) in
    (
      record { prefix = prefix_of type; number = value },
      record r {
        sequences = λ u t. if u == user && same_type t type then some value else r.sequences u t;
      },
    )

abbrev pub audited : (action : String) → (target : ℕ) → InvoiceRows → InvoiceRows
audited action target r = record r { audit_log = r.audit_log ++ (action, target) ∷ [] }

abbrev pub write_schedule : InvoiceSchedule → InvoiceRows → InvoiceRows
write_schedule s r = record r { schedules = update_by (λ x. x.id == s.id) (λ x. s) r.schedules }

-- The new due date is as many days after today as the old one was after its issue.
abbrev pub due_date : (today issued_on : ℕ) → Option ℕ → Option ℕ
due_date today issued_on none = none
due_date today issued_on (some due) = some (today + (due - issued_on))

abbrev pub renewed : (today : ℕ) → DocumentNumber → InvoicePayload → InvoicePayload
renewed today number p = record p {
  number = some number;
  issued_on = today;
  due_on = due_date today p.issued_on p.due_on;
}

abbrev pub moved : Now → (job_id : ℕ) → InvoiceSchedule → InvoiceSchedule
moved now job_id s = record s {
  last_job_id = some job_id;
  next_run_at = next_run now.date (advance_recurring_invoice s.interval s.anchor_day) s.next_run_at;
}

-- The `try` block up to its commit, for a payload that decrypts and a tool that is there.
unfoldable pub create_invoice_job :
    Now → (job_id : ℕ) → InvoiceSchedule → InvoicePayload → InvoiceRows → InvoiceRows
unfolding reserve_number
create_invoice_job now job_id s p r =
    let (number, r') = reserve_number s.user_id p.document_type r in
    audited "recurring_invoice.job_created" s.id (
      write_schedule (moved now job_id s) (record r' {
        jobs =
            r'.jobs
            ++ (
              scheduled_job job_id s.user_id now.time "invoice-generator" 0,
              renewed now.today number p,
            )
              ∷ [];
        dispatches = r'.dispatches ++ job_id ∷ [];
      }))

abbrev pub paused : InvoiceSchedule → InvoiceRows → InvoiceRows
paused s r =
    audited "recurring_invoice.paused_entitlement" s.id
      (write_schedule (record s { active = false }) r)

-- An exception rolls the transaction back.
abbrev pub attempt_invoice :
    Now
    → (tool_available : Bool) → (job_id : ℕ) → InvoiceSchedule
    → Option InvoicePayload
    → InvoiceRows
    → InvoiceRows × Bool
attempt_invoice now tool_available job_id s none r = (r, false)
attempt_invoice now false job_id s (some p) r = (r, false)
attempt_invoice now true job_id s (some p) r = (create_invoice_job now job_id s p r, true)

-- `user is None or user_level(db, user) < Level.PRO`
abbrev pub not_pro : Option Level → Bool
not_pro none = true
not_pro (some level) = below level Level.pro

-- One round of the task: the rows, and whether it counts as created.
unfoldable pub renew_invoice :
    Now
    → (tool_available : Bool) → Option Level
    → (job_id : ℕ) → InvoiceSchedule
    → InvoiceRows
    → InvoiceRows × Bool
unfolding create_invoice_job
renew_invoice now tool_available level job_id s r =
    if not_pro level
    then (paused s r, false)
    else attempt_invoice now tool_available job_id s s.payload r

abbrev pub is_due : InvoiceSchedule → Bool
is_due s = s.active

-- What the task reads besides its rows: the clock, the registry, the levels of the users, and the
-- fresh id of the job of a schedule.
pub record InvoiceRun : Type 0 where
  pub now : Now
  pub tool_available : Bool
  pub levels : ℕ → Option Level
  pub job_ids : ℕ → ℕ

unfoldable pub renew_each : InvoiceRun → List InvoiceSchedule → InvoiceRows → InvoiceRows × ℕ
unfolding renew_invoice
renew_each run [] r = (r, 0)
renew_each run (s ∷ ss) r =
    let (r', created) =
      renew_invoice run.now run.tool_available (run.levels s.user_id) (run.job_ids s.id) s r in
    let (r'', count) = renew_each run ss r' in (r'', if created then count + 1 else count)

-- `generate_recurring_invoices`
unfoldable pub generate_recurring_invoices : InvoiceRun → InvoiceRows → InvoiceRows × ℕ
unfolding renew_each due_rows
generate_recurring_invoices run r =
    renew_each run
      (limit 50 (due_rows (λ (s : InvoiceSchedule). s.next_run_at) is_due run.now.date r.schedules))
      r

-- `_next_occurrence` of business/invoice.py.
unfoldable pub next_occurrence : DateTime → Interval → DateTime
next_occurrence now Interval.weekly = plus_days 7 now
next_occurrence now Interval.monthly =
    let year = now.year + now.month / 12 in
    let month = now.month % 12 + 1 in
    record now { year = year; month = month; day = min now.day (days_in_month year month) }

pub data ScheduleError : Type 0 where
  pro_required too_many_schedules invalid_invoice only_invoices_repeat not_found : ScheduleError

pub data Answer : Type 0 where
  schedule_ok : InvoiceRows → Answer
  schedule_error : ScheduleError → Answer

abbrev pub new_schedule : Now → (id user : ℕ) → Interval → InvoicePayload → InvoiceSchedule
new_schedule now id user interval p = record {
  id = id;
  user_id = user;
  interval = interval;
  anchor_day = now.date.day;
  payload = some p;
  active = true;
  next_run_at = next_occurrence now.date interval;
  last_job_id = none;
}

abbrev pub active_of : (user : ℕ) → InvoiceSchedule → Bool
active_of user s = s.user_id == user && s.active

abbrev pub add_schedule :
    Now → (id user : ℕ) → Interval → Option InvoicePayload → InvoiceRows → Answer
add_schedule now id user interval none r = schedule_error invalid_invoice
add_schedule now id user interval (some p) r =
    if same_type p.document_type invoice
    then schedule_ok (
        audited "recurring_invoice.created" id
          (record r { schedules = r.schedules ++ new_schedule now id user interval p ∷ [] }))
    else schedule_error only_invoices_repeat

-- `create_recurring_schedule`, for a caller who is signed in; the payload is none if it is not valid.
unfoldable pub create_recurring_schedule :
    Now → Level → (id user : ℕ) → Interval → Option InvoicePayload → InvoiceRows → Answer
unfolding next_occurrence
create_recurring_schedule now level id user interval p r =
    if below level Level.pro
    then schedule_error pro_required
    else if leb 20 (length (filter_by (active_of user) r.schedules))
    then schedule_error too_many_schedules
    else add_schedule now id user interval p r

abbrev pub owned_by : (user id : ℕ) → InvoiceSchedule → Bool
owned_by user id s = s.id == id && s.user_id == user

abbrev pub set_active : Level → (activate : Bool) → Option InvoiceSchedule → InvoiceRows → Answer
set_active level activate none r = schedule_error not_found
set_active level activate (some s) r =
    if activate && below level Level.pro
    then schedule_error pro_required
    else schedule_ok (
        audited (if activate then "recurring_invoice.resumed" else "recurring_invoice.paused") s.id
          (write_schedule (record s { active = activate }) r))

-- `update_recurring_schedule`
unfoldable pub update_recurring_schedule :
    Level → (user id : ℕ) → (activate : Bool) → InvoiceRows → Answer
update_recurring_schedule level user id activate r =
    set_active level activate (find_by (owned_by user id) r.schedules) r

abbrev pub drop_schedule : Option InvoiceSchedule → InvoiceRows → Answer
drop_schedule none r = schedule_error not_found
drop_schedule (some s) r = schedule_ok (
    audited "recurring_invoice.deleted" s.id
      (record r { schedules = filter_by (λ x. not (x.id == s.id)) r.schedules }))

-- `delete_recurring_schedule`
unfoldable pub delete_recurring_schedule : (user id : ℕ) → InvoiceRows → Answer
delete_recurring_schedule user id r = drop_schedule (find_by (owned_by user id) r.schedules) r
