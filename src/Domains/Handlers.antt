-- ===== src/Domains/Handlers.antt =====
-- The handlers of backend/src/rendercart/business/domain_alerts.py, on the alert rows of one user.
-- The name of a domain is normalized already. An HTTPException leaves the rows as they were.
use text.Mathlib.Text.{◌==◌ as str_eq}
use render_cart.Prelude.{
  ℕ, String, Bool, true, not, ◌&&◌, Option, none, some, [], ◌∷◌, ◌++◌, if◌then◌else◌, ◌==◌, leb,
  length, any_of, filter_by, update_by,
}
use render_cart.Access.{Level, below}
use render_cart.Domains.{DomainAlert, DomainRows, find_alert}

pub data DomainError : Type 0 where
  account_unavailable verify_email plan_limit already_alerted not_found : DomainError

pub data DomainAnswer : Type 0 where
  answer : DomainRows → DomainAnswer
  refusal : DomainError → DomainAnswer

-- A caller who is signed in, and the time of the call.
pub record DomainCaller : Type 0 where
  pub is_banned : Bool
  pub email_verified : Bool
  pub level : Level
  pub now : ℕ

-- `_user`
abbrev pub for_user : DomainCaller → DomainAnswer → DomainAnswer
for_user c reply =
    if c.is_banned
    then refusal account_unavailable
    else if not c.email_verified
    then refusal verify_email
    else reply

abbrev pub new_alert : DomainCaller → (id : ℕ) → (domain : String) → DomainAlert
new_alert c id domain = record {
  id = id;
  domain = domain;
  active = true;
  interval_seconds = 86400;
  next_check_at = c.now;
  last_checked_at = none;
  tls_expires_at = none;
  domain_expires_at = none;
  tls_error_code = none;
  domain_error_code = none;
  tls_alerted_expiry = none;
  domain_alerted_expiry = none;
}

abbrev pub create_for : DomainCaller → (id : ℕ) → (domain : String) → DomainRows → DomainAnswer
create_for c id domain r =
    if below c.level Level.day_pass && leb 1 (length r.alerts)
    then refusal plan_limit
    else if any_of (λ a. str_eq a.domain domain) r.alerts
    then refusal already_alerted
    else answer (record r {
      alerts = r.alerts ++ new_alert c id domain ∷ [];
      audit_log = r.audit_log ++ ("domain_alert.created", id) ∷ [];
    })

unfoldable pub create_domain_alert :
    DomainCaller → (id : ℕ) → (domain : String) → DomainRows → DomainAnswer
create_domain_alert c id domain r = for_user c (create_for c id domain r)

abbrev pub switch_alert : DomainCaller → (active : Bool) → DomainAlert → DomainAlert
switch_alert c active a = record a {
  active = active;
  next_check_at = if active then c.now else a.next_check_at;
}

abbrev pub update_found :
    DomainCaller → (active : Bool) → Option DomainAlert → DomainRows → DomainAnswer
update_found c active none r = refusal not_found
update_found c active (some a) r = answer (record r {
  alerts = update_by (λ x. x.id == a.id) (switch_alert c active) r.alerts;
  audit_log =
      r.audit_log
      ++ ((if active then "domain_alert.resumed" else "domain_alert.paused"), a.id) ∷ [];
})

unfoldable pub update_domain_alert :
    DomainCaller → (id : ℕ) → (active : Bool) → DomainRows → DomainAnswer
update_domain_alert c id active r = for_user c (update_found c active (find_alert id r) r)

abbrev pub delete_found : Option DomainAlert → DomainRows → DomainAnswer
delete_found none r = refusal not_found
delete_found (some a) r = answer (record r {
  alerts = filter_by (λ x. not (x.id == a.id)) r.alerts;
  audit_log = r.audit_log ++ ("domain_alert.deleted", a.id) ∷ [];
})

unfoldable pub delete_domain_alert : DomainCaller → (id : ℕ) → DomainRows → DomainAnswer
delete_domain_alert c id r = for_user c (delete_found (find_alert id r) r)
