-- ===== src/Monitors/Repeats.antt =====
-- Which mails a monitor sends
-- (`check_uptime_monitor` of backend/src/rendercart/jobs/tasks.py).
use mathlib.Core.List.{append-nil}
use render_cart.Prelude.{◌≤◌, ◌≡◌, refl, sym, ap, ◌∙◌, Bool, false, List, [], ◌∷◌, ◌++◌, All, arith}
use render_cart.Monitors.{
  Monitor, MonitorRows, CheckRun, AlertSettings, healthy, record_check, deliver_monitor_alert,
  alert_if_due, observe,
}
use render_cart.Monitors.Phases.{observe_all}

-- One outage mail for each of the runs.
abbrev pub outage_mails : List CheckRun → List Bool
outage_mails [] = []
outage_mails (run ∷ runs) = false ∷ outage_mails runs

observe-mail :
    (s : AlertSettings) (run : CheckRun) (m : Monitor) (r : MonitorRows)
    → healthy run.probe ≡ false
    → 1 ≤ m.consecutive_failures
    → ((observe s run m r).1.mails ≡ r.mails ++ false ∷ [])
      × (1 ≤ (observe s run m r).0.consecutive_failures)
unfolding observe alert_if_due record_check deliver_monitor_alert
observe-mail s run m r down failed = (ground (arith, down, failed), ground (arith, down, failed))

append-snoc : (xs : List Bool) (x : Bool) (ys : List Bool) → (xs ++ x ∷ []) ++ ys ≡ xs ++ x ∷ ys
append-snoc [] x ys = refl
append-snoc (z ∷ xs) x ys = ap (λ l. z ∷ l) (append-snoc xs x ys)

-- The mail of an outage is not sent once: every further failing check of a monitor that has failed
-- before mails again, also when an alert of the outage was delivered.
pub observe_all-mails :
    (s : AlertSettings) (runs : List CheckRun) (m : Monitor) (r : MonitorRows)
    → All (λ run. healthy run.probe ≡ false) runs
    → 1 ≤ m.consecutive_failures
    → (observe_all s runs (m, r)).1.mails ≡ r.mails ++ outage_mails runs
observe_all-mails s [] m r down failed = sym (append-nil r.mails)
observe_all-mails s (run ∷ runs) m r down failed =
    let st = observe s run m r in
    let one = observe-mail s run m r down.0 failed in
    observe_all-mails s runs st.0 st.1 down.1 one.1
    ∙ ap (λ x. x ++ outage_mails runs) one.0
    ∙ append-snoc r.mails false (outage_mails runs)
