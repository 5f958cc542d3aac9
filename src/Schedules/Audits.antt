-- ===== src/Schedules/Audits.antt =====
-- Weekly website audits: `generate_website_audit_schedules` of backend/src/rendercart/jobs/tasks.py
-- and the handlers of business/website_audits.py. An audit costs two credits, which are held for
-- the job when it is created.
use render_cart.Prelude.{
  ℕ, ◌+◌, String, Bool, true, false, ◌&&◌, not, Option, none, some, List, [], ◌∷◌, ◌++◌,
  if◌then◌else◌, ◌==◌, leb, length, filter_by, find_by, update_by,
}
use render_cart.Access.{Level, below}
use render_cart.Credits.{Account, Wallet, usable_lots}
use render_cart.Credits.Reserve.{Share, allocate, with_hold, short_of}
use render_cart.Jobs.{Job, AuditRow}
use render_cart.Calendar.{DateTime, plus_days}
use render_cart.Schedules.{Now, next_run, due_rows, limit, scheduled_job}

-- `WebsiteAuditSchedule`; `target_valid` tells whether the stored target decrypts to valid options.
pub record AuditSchedule : Type 0 where
  pub id : ℕ
  pub user_id : ℕ
  pub target_valid : Bool
  pub active : Bool
  pub next_run_at : DateTime
  pub last_job_id : Option ℕ
  pub last_error_code : Option String

-- The rows that the task writes; each user has a wallet.
pub record AuditRows : Type 0 where
  pub schedules : List AuditSchedule
  pub wallets : ℕ → Wallet
  pub jobs : List Job
  pub dispatches : List ℕ
  pub audit_log : List AuditRow

abbrev pub cost : ℕ
cost = 2

-- The shares of the usable lots, and what of the cost is left; no lots without enough credits.
abbrev pub audit_shares : Now → Account → Wallet → List Share × ℕ
audit_shares now a w = allocate cost (if short_of cost a then [] else usable_lots now.time w.lots)

abbrev pub hold_if : (job_id ledger_id : ℕ) → List Share × ℕ → Account → Wallet → Option Wallet
hold_if job_id ledger_id (shares, left) a w =
    if left == 0 then some (with_hold job_id ledger_id cost shares a w) else none

abbrev pub hold_for : Now → (job_id ledger_id : ℕ) → Option Account → Wallet → Option Wallet
hold_for now job_id ledger_id none w = none
hold_for now job_id ledger_id (some a) w = hold_if job_id ledger_id (audit_shares now a w) a w

-- The wallet with the hold of the audit, none if the credits do not suffice. The rows are written
-- later in the same transaction.
unfoldable pub hold_audit : Now → (job_id ledger_id : ℕ) → Wallet → Option Wallet
hold_audit now job_id ledger_id w = hold_for now job_id ledger_id w.account w

abbrev pub write_schedule : AuditSchedule → AuditRows → AuditRows
write_schedule s r = record r { schedules = update_by (λ x. x.id == s.id) (λ x. s) r.schedules }

abbrev pub audited : (action : String) → (target : ℕ) → AuditRows → AuditRows
audited action target r = record r { audit_log = r.audit_log ++ (action, target) ∷ [] }

abbrev pub set_wallet : ℕ → Wallet → AuditRows → AuditRows
set_wallet user w r = record r { wallets = λ u. if u == user then w else r.wallets u }

-- A round that creates no job.
abbrev pub pause : AuditSchedule → AuditRows → AuditRows
pause s r =
    audited "website_audit_schedule.paused_entitlement" s.id
      (write_schedule (record s { active = false; last_error_code = some "pro_required" }) r)

abbrev pub in_a_week : Now → (error : String) → AuditSchedule → AuditSchedule
in_a_week now error s = record s {
  last_error_code = some error;
  next_run_at = plus_days 7 now.date;
}

-- A round that creates one.
abbrev pub create_audit_job : Now → (job_id : ℕ) → AuditSchedule → Wallet → AuditRows → AuditRows
create_audit_job now job_id s w r = audited "website_audit_schedule.job_created" s.id (
    write_schedule
      (record s {
        last_job_id = some job_id;
        last_error_code = none;
        next_run_at = next_run now.date (plus_days 7) s.next_run_at;
      })
      (set_wallet s.user_id w (record r {
        jobs = r.jobs ++ scheduled_job job_id s.user_id now.time "website-audit" cost ∷ [];
        dispatches = r.dispatches ++ job_id ∷ [];
      })))

abbrev pub audit_with :
    Now
    → (tool_available : Bool) → (job_id : ℕ) → AuditSchedule
    → Option Wallet
    → AuditRows
    → AuditRows × Bool
audit_with now tool_available job_id s none r = (
  audited "website_audit_schedule.skipped_credits" s.id
      (write_schedule (in_a_week now "insufficient_credits" s) r),
  false,
)
audit_with now tool_available job_id s (some w) r =
    if not tool_available
    then (write_schedule (in_a_week now "tool_unavailable" s) r, false)
    else if not s.target_valid
    then (
      write_schedule (record s { last_error_code = some "invalid_target"; active = false }) r,
      false,
    )
    else (create_audit_job now job_id s w r, true)

abbrev pub not_pro : Option Level → Bool
not_pro none = true
not_pro (some level) = below level Level.pro

-- One round of the task: the rows, and whether it counts as created.
unfoldable pub audit_site :
    Now
    → (tool_available : Bool) → Option Level
    → (job_id ledger_id : ℕ) → AuditSchedule
    → AuditRows
    → AuditRows × Bool
unfolding hold_audit
audit_site now tool_available level job_id ledger_id s r =
    if not_pro level
    then (pause s r, false)
    else audit_with now tool_available job_id s
        (hold_audit now job_id ledger_id (r.wallets s.user_id)) r

-- What the task reads besides its rows, with the fresh ids for a schedule.
pub record AuditRun : Type 0 where
  pub now : Now
  pub tool_available : Bool
  pub levels : ℕ → Option Level
  pub job_ids : ℕ → ℕ
  pub ledger_ids : ℕ → ℕ

unfoldable pub audit_each : AuditRun → List AuditSchedule → AuditRows → AuditRows × ℕ
unfolding audit_site
audit_each run [] r = (r, 0)
audit_each run (s ∷ ss) r =
    let (r', created) =
      audit_site run.now run.tool_available (run.levels s.user_id) (run.job_ids s.id)
        (run.ledger_ids s.id) s r in
    let (r'', count) = audit_each run ss r' in (r'', if created then count + 1 else count)

-- `generate_website_audit_schedules`
unfoldable pub generate_website_audit_schedules : AuditRun → AuditRows → AuditRows × ℕ
unfolding audit_each due_rows
generate_website_audit_schedules run r =
    audit_each run
      (limit 50
        (due_rows (λ (s : AuditSchedule). s.next_run_at) (λ s. s.active) run.now.date r.schedules))
      r

-- A caller who is signed in, for `_owner`.
pub record Owner : Type 0 where
  pub user_id : ℕ
  pub is_banned : Bool
  pub email_verified : Bool
  pub level : Level

pub data AuditError : Type 0 where
  account_unavailable verify_email pro_required too_many_audits invalid_options not_found :
      AuditError

pub data Answer : Type 0 where
  audit_ok : AuditRows → Answer
  audit_error : AuditError → Answer

abbrev pub check_owner : Owner → Answer → Answer
check_owner o answer =
    if o.is_banned
    then audit_error account_unavailable
    else if not o.email_verified
    then audit_error verify_email
    else if below o.level Level.pro
    then audit_error pro_required
    else answer

abbrev pub new_schedule : Now → (id user : ℕ) → AuditSchedule
new_schedule now id user = record {
  id = id;
  user_id = user;
  target_valid = true;
  active = true;
  next_run_at = plus_days 7 now.date;
  last_job_id = none;
  last_error_code = none;
}

-- `create_website_audit_schedule`, for a caller who is signed in.
unfoldable pub create_website_audit_schedule :
    Now → Owner → (id : ℕ) → (options_valid : Bool) → AuditRows → Answer
create_website_audit_schedule now o id options_valid r = check_owner o (
    if leb 5 (length (filter_by (λ (s : AuditSchedule). s.user_id == o.user_id) r.schedules))
    then audit_error too_many_audits
    else if not options_valid
    then audit_error invalid_options
    else audit_ok (record r { schedules = r.schedules ++ new_schedule now id o.user_id ∷ [] }))

abbrev pub drop_schedule : Option AuditSchedule → AuditRows → Answer
drop_schedule none r = audit_error not_found
drop_schedule (some s) r =
    audit_ok (record r { schedules = filter_by (λ x. not (x.id == s.id)) r.schedules })

-- `delete_website_audit_schedule`, for a caller who is signed in.
unfoldable pub delete_website_audit_schedule : Owner → (id : ℕ) → AuditRows → Answer
delete_website_audit_schedule o id r =
    check_owner o
      (drop_schedule (find_by (λ s. s.id == id && s.user_id == o.user_id) r.schedules) r)
