-- ===== src/Monitors/Handlers.antt =====
-- The handlers of backend/src/rendercart/business/monitors.py, and `check_due_uptime_monitors` of
-- jobs/tasks.py. The validation of addresses is a parameter: a target or a webhook is valid or not.
-- An HTTPException leaves the rows as they were, since nothing is committed.
use render_cart.Prelude.{
  ℕ, ◌+◌, String, Bool, true, false, not, ◌&&◌, Option, none, some, List, [], ◌∷◌, ◌++◌,
  if◌then◌else◌, ◌==◌, ltb, leb, length, filter_by,
}
use render_cart.Access.{Level, below}
use render_cart.Monitors.{Monitor, MonitorRows, put_monitor, find_monitor, plan_interval}

pub data MonitorError : Type 0 where
  account_unavailable verify_email plan_limit webhook_requires_pro : MonitorError
  consent_required phone_required sms_requires_pro sms_not_configured : MonitorError
  invalid_target invalid_webhook not_found not_active too_early : MonitorError

-- The rows, with the id of a monitor whose check is to be queued.
pub data Answer : Type 0 where
  monitor_ok : MonitorRows → Option ℕ → Answer
  monitor_error : MonitorError → Answer

-- A caller who is signed in, for `_monitor_user`, and whether SMS are configured.
pub record Caller : Type 0 where
  pub is_banned : Bool
  pub email_verified : Bool
  pub level : Level
  pub sms_configured : Bool
  pub now : ℕ

abbrev pub refuse_if : Bool → MonitorError → Answer → Answer
refuse_if b e answer = if b then monitor_error e else answer

-- `_monitor_user`
abbrev pub monitor_user : Caller → Answer → Answer
monitor_user c answer =
    refuse_if c.is_banned account_unavailable (refuse_if (not c.email_verified) verify_email answer)

-- The body of a creation: whether a webhook, a phone number and the consent are given, and whether
-- the addresses are valid.
pub record MonitorCreate : Type 0 where
  pub has_webhook : Bool
  pub has_phone : Bool
  pub sms_consent : Bool
  pub valid_target : Bool
  pub valid_webhook : Bool

abbrev pub plan_limit_of : Level → ℕ
plan_limit_of level = if below level Level.day_pass then 1 else 20

abbrev pub new_monitor : Caller → (id : ℕ) → MonitorCreate → Monitor
new_monitor c id body = record {
  id = id;
  has_webhook = body.has_webhook;
  has_sms = body.has_phone;
  outage_generation = 0;
  active = true;
  interval_seconds = plan_interval c.level;
  next_check_at = c.now;
  last_checked_at = none;
  last_status_code = none;
  last_error_code = none;
  consecutive_failures = 0;
  outage_alert_sent = false;
}

abbrev pub audited : (action : String) → (target : ℕ) → MonitorRows → MonitorRows
audited action target r = record r { audit_log = r.audit_log ++ (action, target) ∷ [] }

-- `create_monitor`
unfoldable pub create_monitor : Caller → (id : ℕ) → MonitorCreate → MonitorRows → Answer
create_monitor c id body r = monitor_user c (
    refuse_if (leb (plan_limit_of c.level) (length r.monitors)) plan_limit (
      refuse_if (body.has_webhook && below c.level Level.day_pass) webhook_requires_pro (
        refuse_if (body.has_phone && not body.sms_consent) consent_required (
          refuse_if (body.sms_consent && not body.has_phone) phone_required (
            refuse_if (body.has_phone && below c.level Level.pro) sms_requires_pro (
              refuse_if (body.has_phone && not c.sms_configured) sms_not_configured (
                refuse_if (not body.valid_target) invalid_target (
                  refuse_if (body.has_webhook && not body.valid_webhook) invalid_webhook (
                    monitor_ok
                      (audited "monitor.created" id
                        (record r { monitors = r.monitors ++ new_monitor c id body ∷ [] }))
                      none)))))))))

pub record MonitorUpdate : Type 0 where
  pub active : Option Bool
  pub sms_consent : Option Bool
  pub has_phone : Bool

abbrev pub says : Option Bool → Bool → Bool
says none b = false
says (some true) b = b
says (some false) b = not b

abbrev pub or_keep : Option Bool → Bool → Bool
or_keep none b = b
or_keep (some a) b = a

abbrev pub switch : Caller → MonitorUpdate → Monitor → Monitor
switch c body m = record m {
  active = or_keep body.active m.active;
  next_check_at = if says body.active true then c.now else m.next_check_at;
}

abbrev pub update_action : MonitorUpdate → String
update_action body =
    if says body.sms_consent false
    then "monitor.sms_disabled"
    else if says body.active true
    then "monitor.resumed"
    else "monitor.paused"

abbrev pub save_update : MonitorUpdate → Monitor → MonitorRows → Answer
save_update body m r = monitor_ok (audited (update_action body) m.id (put_monitor m r)) none

abbrev pub update_sms : Caller → MonitorUpdate → Option Bool → Monitor → MonitorRows → Answer
update_sms c body none m r = save_update body m r
update_sms c body (some false) m r = save_update body (record m { has_sms = false }) r
update_sms c body (some true) m r = refuse_if (not body.has_phone && not m.has_sms) phone_required (
    refuse_if (below c.level Level.pro) sms_requires_pro (
      refuse_if (not c.sms_configured) sms_not_configured
        (save_update body (record m { has_sms = true }) r)))

abbrev pub update_found : Caller → MonitorUpdate → Option Monitor → MonitorRows → Answer
update_found c body none r = monitor_error not_found
update_found c body (some m) r =
    refuse_if (body.has_phone && not (says body.sms_consent true)) consent_required
      (update_sms c body body.sms_consent (switch c body m) r)

-- `update_monitor`
unfoldable pub update_monitor : Caller → (id : ℕ) → MonitorUpdate → MonitorRows → Answer
update_monitor c id body r = monitor_user c (update_found c body (find_monitor id r) r)

abbrev pub request_found : Caller → Option Monitor → MonitorRows → Answer
request_found c none r = monitor_error not_found
request_found c (some m) r = refuse_if (not m.active) not_active (
    refuse_if (ltb c.now m.next_check_at) too_early (
      monitor_ok (put_monitor (record m { next_check_at = c.now + m.interval_seconds }) r)
        (some m.id)))

-- `request_monitor_check`
unfoldable pub request_monitor_check : Caller → (id : ℕ) → MonitorRows → Answer
request_monitor_check c id r = monitor_user c (request_found c (find_monitor id r) r)

abbrev pub delete_found : Option Monitor → MonitorRows → Answer
delete_found none r = monitor_error not_found
delete_found (some m) r =
    monitor_ok
      (audited "monitor.deleted" m.id
        (record r { monitors = filter_by (λ x. not (x.id == m.id)) r.monitors }))
      none

-- `delete_monitor`
unfoldable pub delete_monitor : Caller → (id : ℕ) → MonitorRows → Answer
delete_monitor c id r = monitor_user c (delete_found (find_monitor id r) r)

abbrev pub is_due : (now : ℕ) → Monitor → Bool
is_due now m = m.active && leb m.next_check_at now

-- `check_due_uptime_monitors` on the monitors of one user, with the ids to check: the due ones get
-- their next time. The limit of two hundred counts the monitors of all users, and a user has
-- twenty at most.
unfoldable pub check_due_uptime_monitors : (now : ℕ) → List Monitor → List Monitor × List ℕ
check_due_uptime_monitors now [] = ([], [])
check_due_uptime_monitors now (m ∷ ms) =
    let (ms', ids) = check_due_uptime_monitors now ms in
    if is_due now m
    then (record m { next_check_at = now + m.interval_seconds } ∷ ms', m.id ∷ ids)
    else (m ∷ ms', ids)
