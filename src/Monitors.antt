-- ===== src/Monitors.antt =====
-- Uptime monitors: `check_uptime_monitor`, `check_due_uptime_monitors` and `_deliver_monitor_alert` of
-- backend/src/rendercart/jobs/tasks.py, and the handlers of business/monitors.py, on the rows of
-- one user. The fetch, the mail, the webhook and the SMS service are parameters of a check.
pub mod Handlers
pub mod Phases
pub mod Repeats
mod Tests
use render_cart.Prelude.{
  ℕ, ◌+◌, String, Bool, true, false, not, ◌&&◌, ◌||◌, Option, none, some, List, [], ◌∷◌, ◌++◌,
  if◌then◌else◌, ◌==◌, ltb, leb, is_some, find_by, update_by,
}
use render_cart.Access.{Level, below}
use render_cart.Jobs.{AuditRow}
use render_cart.Alerts.{AlertRows, Alert, AlertReferences, reserve_monitor_sms, settle_monitor_sms}

-- `UptimeMonitor`
pub record Monitor : Type 0 where
  pub id : ℕ
  pub has_webhook : Bool
  pub has_sms : Bool
  pub outage_generation : ℕ
  pub active : Bool
  pub interval_seconds : ℕ
  pub next_check_at : ℕ
  pub last_checked_at : Option ℕ
  pub last_status_code : Option ℕ
  pub last_error_code : Option String
  pub consecutive_failures : ℕ
  pub outage_alert_sent : Bool

-- `UptimeMonitorCheck`
pub record MonitorCheck : Type 0 where
  pub monitor_id : ℕ
  pub checked_at : ℕ
  pub status_code : Option ℕ
  pub error_code : Option String

-- What `safe_get` returns or raises.
pub data Probe : Type 0 where
  response : (status : ℕ) → Probe
  unsafe_url : Probe
  no_connection : Probe
  other_exception : Probe

abbrev pub status_of : Probe → Option ℕ
status_of (response status) = some status
status_of _ = none

abbrev pub error_of : Probe → Option String
error_of (response status) = if leb 200 status && ltb status 400 then none else some "http_error"
error_of unsafe_url = some "unsafe_target"
error_of no_connection = some "connection_failed"
error_of other_exception = some "check_failed"

-- The rows of the user: the monitors in the order of creation, the checks, the SMS and the wallet,
-- the audit log, and the mails that were attempted, by the event (true for a recovery).
pub record MonitorRows : Type 0 where
  pub monitors : List Monitor
  pub checks : List MonitorCheck
  pub alerts : AlertRows
  pub audit_log : List AuditRow
  pub mails : List Bool

-- A run of the check: the clock, its month, the level of the user, the answer of the site, whether
-- the mail goes out, the status of the webhook (none for an exception), whether the SMS goes out,
-- and the fresh ids.
pub record CheckRun : Type 0 where
  pub now : ℕ
  pub month : ℕ
  pub level : Level
  pub probe : Probe
  pub mail_works : Bool
  pub webhook_status : Option ℕ
  pub sms_works : Bool
  pub delivery_id : ℕ
  pub hold_id : ℕ
  pub settle_id : ℕ

-- The settings: the references of the ledger rows and the monthly cap on SMS.
pub record AlertSettings : Type 0 where
  pub names : AlertReferences
  pub monitor_sms_monthly_cap : ℕ

abbrev pub webhook_delivers : Option ℕ → Bool
webhook_delivers none = false
webhook_delivers (some status) = leb 200 status && ltb status 300

abbrev pub alert_of : CheckRun → Monitor → (recovered : Bool) → Alert
alert_of run m recovered = record {
  monitor_id = m.id;
  outage_generation = m.outage_generation;
  recovered = recovered;
  delivery_id = run.delivery_id;
  ledger_id = run.hold_id;
  now = run.now;
  month = run.month;
  level = run.level;
}

-- A reserved SMS is sent or given back.
abbrev pub settle_reserved : AlertSettings → CheckRun → Option ℕ × AlertRows → Bool × AlertRows
settle_reserved s run (none, r) = (false, r)
settle_reserved s run (some delivery, r) =
    (run.sms_works, settle_monitor_sms s.names run.settle_id delivery run.sms_works r)

unfoldable pub send_sms :
    AlertSettings → CheckRun → Monitor → (recovered : Bool) → AlertRows → Bool × AlertRows
send_sms s run m recovered r =
    if not (below run.level Level.pro) && m.has_sms
    then settle_reserved s run
        (reserve_monitor_sms s.names s.monitor_sms_monthly_cap (alert_of run m recovered) r)
    else (false, r)

-- `_deliver_monitor_alert`: whether any of the three ways worked, and the rows.
unfoldable pub deliver_monitor_alert :
    AlertSettings → CheckRun → Monitor → (recovered : Bool) → MonitorRows → Bool × MonitorRows
deliver_monitor_alert s run m recovered r =
    let webhook =
      (not (below run.level Level.day_pass) && m.has_webhook)
      && webhook_delivers run.webhook_status in
    let (sms, alerts) = send_sms s run m recovered r.alerts in
    (
      (run.mail_works || webhook) || sms,
      record r { alerts = alerts; mails = r.mails ++ recovered ∷ [] },
    )

abbrev pub healthy : Probe → Bool
healthy p = not (is_some (error_of p))

-- The interval of the plan: 60 seconds, or 900.
abbrev pub plan_interval : Level → ℕ
plan_interval level = if below level Level.day_pass then 900 else 60

-- The first commit: the next check is planned.
abbrev pub plan_check : CheckRun → Monitor → Monitor
plan_check run m = record m {
  interval_seconds = plan_interval run.level;
  next_check_at = run.now + plan_interval run.level;
}

abbrev pub failures_after : Probe → Monitor → ℕ
failures_after p m = if healthy p then 0 else m.consecutive_failures + 1

-- The second commit: the outcome of the fetch, and a new generation at the second failure.
unfoldable pub record_check : CheckRun → Monitor → Monitor
record_check run m =
    let n = failures_after run.probe m in
    record m {
      last_checked_at = some run.now;
      last_status_code = status_of run.probe;
      last_error_code = error_of run.probe;
      consecutive_failures = n;
      outage_generation =
          if not (healthy run.probe) && (n == 2 && not m.outage_alert_sent)
          then m.outage_generation + 1
          else m.outage_generation;
    }

abbrev pub check_row : CheckRun → Monitor → MonitorCheck
check_row run m = record {
  monitor_id = m.id;
  checked_at = run.now;
  status_code = status_of run.probe;
  error_code = error_of run.probe;
}

abbrev pub put_monitor : Monitor → MonitorRows → MonitorRows
put_monitor m r = record r { monitors = update_by (λ x. x.id == m.id) (λ x. m) r.monitors }

-- The alert of an outage or of a recovery, if it is due, with the flag that it was sent; `before`
-- is the flag as the check found it.
unfoldable pub alert_if_due :
    AlertSettings → CheckRun → (before : Bool) → Monitor → MonitorRows → Monitor × MonitorRows
unfolding deliver_monitor_alert
alert_if_due s run before m r =
    if not (healthy run.probe) && leb 2 m.consecutive_failures
    then (let (delivered, r') = deliver_monitor_alert s run m false r in
        (if delivered then record m { outage_alert_sent = true } else m, r'))
    else if healthy run.probe && before
    then (let (delivered, r') = deliver_monitor_alert s run m true r in
        (if delivered then record m { outage_alert_sent = false } else m, r'))
    else (m, r)

-- The fetch and what follows it, for an entitled monitor.
unfoldable pub observe : AlertSettings → CheckRun → Monitor → MonitorRows → Monitor × MonitorRows
unfolding record_check alert_if_due
observe s run m r =
    let m' = record_check run (plan_check run m) in
    alert_if_due s run m.outage_alert_sent m'
      (record r { checks = r.checks ++ check_row run m ∷ [] })

abbrev pub deactivate_from : List Monitor → List Monitor × List AuditRow
deactivate_from [] = ([], [])
deactivate_from (m ∷ ms) =
    let (ms', log) = deactivate_from ms in
    if m.active
    then (record m { active = false } ∷ ms', ("monitor.paused_entitlement", m.id) ∷ log)
    else (m ∷ ms', log)

-- Below a day pass the first active monitor stays, and the others are paused.
unfoldable pub keep_first : List Monitor → List Monitor × List AuditRow
keep_first [] = ([], [])
keep_first (m ∷ ms) =
    let rest = keep_first ms in
    let (ms', log) = if m.active then deactivate_from ms else rest in (m ∷ ms', log)

abbrev pub apply_plan : Level → MonitorRows → MonitorRows
apply_plan level r =
    let (ms, log) = keep_first r.monitors in
    if below level Level.day_pass
    then record r { monitors = ms; audit_log = r.audit_log ++ log }
    else r

abbrev pub observe_in : AlertSettings → CheckRun → Monitor → MonitorRows → MonitorRows
observe_in s run m r = let (m', r') = observe s run m r in put_monitor m' r'

abbrev pub check_active : AlertSettings → CheckRun → Option Monitor → MonitorRows → MonitorRows
check_active s run none r = r
check_active s run (some m) r = if m.active then observe_in s run m r else r

abbrev pub find_monitor : ℕ → MonitorRows → Option Monitor
find_monitor i r = find_by (λ m. m.id == i) r.monitors

abbrev pub check_found : AlertSettings → CheckRun → ℕ → Option Monitor → MonitorRows → MonitorRows
check_found s run i none r = r
check_found s run i (some m) r =
    let planned = apply_plan run.level r in
    if m.active then check_active s run (find_monitor i planned) planned else r

-- `check_uptime_monitor`, for a user that is there.
unfoldable pub check_uptime_monitor :
    AlertSettings → CheckRun → (id : ℕ) → MonitorRows → MonitorRows
unfolding observe keep_first
check_uptime_monitor s run i r = check_found s run i (find_monitor i r) r
