-- ===== src/Monitors/Phases.antt =====
-- The outages of a monitor as an abstract machine, which `check_uptime_monitor`
-- (backend/src/rendercart/jobs/tasks.py) implements.
use render_cart.Prelude.{
  Option, none, some, is_some, ◌||◌, ℕ, Bool, true, false, ◌&&◌, List, [], ◌∷◌, ◌++◌, if◌then◌else◌,
  ◌==◌, leb,
}
use render_cart.Access.{rank}
use render_cart.Alerts.{reserve_monitor_sms}
use render_cart.Monitors.{
  Probe, response, alert_of, Monitor, MonitorRows, CheckRun, AlertSettings, plan_check,
  record_check, deliver_monitor_alert, observe, check_row,
}

-- No failure and nothing announced; one failure; an outage that no alert has announced; one that was
-- announced; and an announced one that is over, whose recovery was not announced.
pub data Phase : Type 0 where
  calm doubt unannounced announced recovering : Phase

-- What a check does to the phase: by whether the site is healthy, and whether an alert of it, if
-- one is due, is delivered.
abbrev pub next_phase : (is_healthy delivered : Bool) → Phase → Phase
next_phase true delivered calm = calm
next_phase true delivered doubt = calm
next_phase true delivered unannounced = calm
next_phase true delivered announced = if delivered then calm else recovering
next_phase true delivered recovering = if delivered then calm else recovering
next_phase false delivered calm = doubt
next_phase false delivered doubt = if delivered then announced else unannounced
next_phase false delivered unannounced = if delivered then announced else unannounced
next_phase false delivered announced = announced
next_phase false delivered recovering = announced

abbrev phase_with : (sent : Bool) → (failures : ℕ) → Phase
phase_with true failures = if failures == 0 then recovering else announced
phase_with false failures =
    if failures == 0 then calm else if failures == 1 then doubt else unannounced

-- The phase of a monitor: what its count of failures and its flag stand for.
abbrev pub phase_of : Monitor → Phase
phase_of m = phase_with m.outage_alert_sent m.consecutive_failures

-- A site is up if it answers with a status from 200 to 399.
abbrev pub is_up : Probe → Bool
is_up (response status) = leb 200 status && leb status 399
is_up _ = false

-- A webhook is delivered if it answers with a status from 200 to 299.
abbrev pub webhook_answers : Option ℕ → Bool
webhook_answers none = false
webhook_answers (some status) = leb 200 status && leb status 299

-- Whether an SMS of the check is reserved and sent: for a user who is pro or more and
-- gave a number, if `_reserve_monitor_sms` reserves one on the rows that the check finds.
abbrev pub sms_arrives : AlertSettings → CheckRun → Monitor → MonitorRows → Bool
sms_arrives s run m r =
    leb 3 (rank run.level)
    && (m.has_sms
        && (run.sms_works
            && is_some
                (reserve_monitor_sms s.names s.monitor_sms_monthly_cap
                  (alert_of run (record_check run m) (is_up run.probe)) r.alerts).0))

-- Whether an alert of the check, if one is due, reaches the user: by mail, by the webhook of a
-- user with a day pass or more, or by SMS.
abbrev pub arrives : AlertSettings → CheckRun → Monitor → MonitorRows → Bool
arrives s run m r =
    run.mail_works
    || (leb 2 (rank run.level) && (m.has_webhook && webhook_answers run.webhook_status)
        || sms_arrives s run m r)

-- Whether the alert of a check is delivered, as the code finds it: of a recovery or of an outage.
abbrev delivers : AlertSettings → CheckRun → (recovered : Bool) → Monitor → MonitorRows → Bool
delivers s run recovered m r =
    (deliver_monitor_alert s run (record_check run (plan_check run m)) recovered
      (record r { checks = r.checks ++ check_row run m ∷ [] })).0

-- Checks of a monitor one after the other.
abbrev pub observe_all :
    AlertSettings → List CheckRun → Monitor × MonitorRows → Monitor × MonitorRows
observe_all s [] st = st
observe_all s (run ∷ runs) st = observe_all s runs (observe s run st.0 st.1)

-- An event of the machine: whether the site is up, and whether an alert reaches the user.
abbrev pub run_phases : List (Bool × Bool) → Phase → Phase
run_phases [] p = p
run_phases ((up, delivered) ∷ es) p = run_phases es (next_phase up delivered p)

-- What happens at the checks, each on the monitor and the rows that the checks before it leave.
abbrev pub events : AlertSettings → List CheckRun → Monitor × MonitorRows → List (Bool × Bool)
events s [] st = []
events s (run ∷ runs) st =
    (is_up run.probe, arrives s run st.0 st.1) ∷ events s runs (observe s run st.0 st.1)
