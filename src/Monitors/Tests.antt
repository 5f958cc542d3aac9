-- ===== src/Monitors/Tests.antt =====
-- A site that goes down and comes back, and the laws at these inputs.
use render_cart.Prelude.{ℕ, ◌≡◌, refl, true, false, none, List, [], ◌∷◌, ◌++◌, arith}
use render_cart.Access.{Level}
use render_cart.Upkeep.{no_wallet}
use render_cart.Monitors.{
  Monitor, MonitorRows, CheckRun, AlertSettings, Probe, response, no_connection, observe,
}
use render_cart.Monitors.Handlers.{Caller, MonitorCreate, monitor_error, plan_limit, create_monitor}
use render_cart.Monitors.Phases.{phase_of, observe_all, events, calm}
use render_cart.Monitors.Repeats.{outage_mails, observe_all-mails}

abbrev settings : AlertSettings
settings = record {
  names = record {
    hold = λ i. "monitor-sms:3:hold";
    spend = λ i. "monitor-sms:3:spend";
    release = λ i. "monitor-sms:3:release";
  };
  monitor_sms_monthly_cap = 20;
}

abbrev monitor : (id : ℕ) → Monitor
monitor id = record {
  id = id;
  has_webhook = false;
  has_sms = false;
  outage_generation = 0;
  active = true;
  interval_seconds = 900;
  next_check_at = 100;
  last_checked_at = none;
  last_status_code = none;
  last_error_code = none;
  consecutive_failures = 0;
  outage_alert_sent = false;
}

abbrev rows : MonitorRows
rows = record {
  monitors = monitor 1 ∷ monitor 2 ∷ monitor 3 ∷ [];
  checks = [];
  alerts = record { wallet = no_wallet; usages = λ q. none; deliveries = [] };
  audit_log = [];
  mails = [];
}

abbrev run_at : (now : ℕ) → Probe → CheckRun
run_at now p = record {
  now = now;
  month = 7;
  level = Level.free;
  probe = p;
  mail_works = true;
  webhook_status = none;
  sms_works = false;
  delivery_id = 3;
  hold_id = 40;
  settle_id = 41;
}

abbrev outage : List CheckRun
outage =
    run_at 100 (response 503)
    ∷ run_at 1000 no_connection
    ∷ run_at 1900 (response 500)
    ∷ run_at 2800 (response 200)
    ∷ []

-- Two mails of the outage, and one of the recovery.
outage-mails : (observe_all settings outage (monitor 1, rows)).1.mails ≡ false ∷ false ∷ true ∷ []
unfolding observe
outage-mails = refl

outage-calm : phase_of (observe_all settings outage (monitor 1, rows)).0 ≡ calm
unfolding observe
outage-calm = refl

-- The mail of the third check is lost, but the second has announced the outage.
abbrev lossy : List CheckRun
lossy =
    run_at 100 (response 503)
    ∷ run_at 1000 no_connection
    ∷ record (run_at 1900 (response 500)) { mail_works = false }
    ∷ run_at 2800 (response 200)
    ∷ []

outage-events :
    events settings lossy (monitor 1, rows)
    ≡ (false, true) ∷ (false, true) ∷ (false, false) ∷ (true, true) ∷ []
unfolding observe
outage-events = refl

abbrev failed_once : Monitor
failed_once = record (monitor 1) { consecutive_failures = 1; outage_alert_sent = true }

abbrev failing : List CheckRun
failing = run_at 100 (response 503) ∷ run_at 1000 no_connection ∷ []

observe_all-mails_example :
    (observe_all settings failing (failed_once, rows)).1.mails ≡ [] ++ outage_mails failing
observe_all-mails_example =
    observe_all-mails settings failing failed_once rows (refl, (refl, tt)) (omega arith)

abbrev caller : Caller
caller = record {
  is_banned = false;
  email_verified = true;
  level = Level.free;
  sms_configured = true;
  now = 50;
}

abbrev body : MonitorCreate
body = record {
  has_webhook = false;
  has_phone = false;
  sms_consent = false;
  valid_target = true;
  valid_webhook = false;
}

create_monitor-limit : create_monitor caller 4 body rows ≡ monitor_error plan_limit
unfolding create_monitor
create_monitor-limit = refl
