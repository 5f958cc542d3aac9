-- ===== src/Domains.antt =====
-- Domain expiry alerts: `check_domain_expiry_alert` of backend/src/rendercart/jobs/tasks.py, on the
-- alert rows of one user. The TLS and RDAP lookups and the mail are parameters of a check.
pub mod Once
pub mod Handlers
pub mod Distinct
mod Tests
use render_cart.Prelude.{
  ℕ, ◌+◌, String, Bool, true, false, not, ◌&&◌, ◌||◌, Option, none, some, List, [], ◌∷◌, ◌++◌,
  if◌then◌else◌, ◌==◌, leb, is_some, find_by, update_by,
}
use render_cart.Access.{Level, below}
use render_cart.Jobs.{AuditRow}

-- `DomainExpiryAlert`
pub record DomainAlert : Type 0 where
  pub id : ℕ
  pub domain : String
  pub active : Bool
  pub interval_seconds : ℕ
  pub next_check_at : ℕ
  pub last_checked_at : Option ℕ
  pub tls_expires_at : Option ℕ
  pub domain_expires_at : Option ℕ
  pub tls_error_code : Option String
  pub domain_error_code : Option String
  pub tls_alerted_expiry : Option ℕ
  pub domain_alerted_expiry : Option ℕ

-- What a lookup of an expiry returns or raises.
pub data Lookup : Type 0 where
  found : (expiry : ℕ) → Lookup
  nothing : Lookup
  unsafe_url : Lookup
  fails : Lookup

abbrev pub expiry_of : Lookup → Option ℕ
expiry_of (found t) = some t
expiry_of _ = none

abbrev pub error_of : (failure : String) → Lookup → Option String
error_of failure (found t) = none
error_of failure nothing = none
error_of failure unsafe_url = some "unsafe_domain"
error_of failure fails = some failure

-- A mail that was attempted: the expiries that it names.
pub record Mail : Type 0 where
  pub alert_id : ℕ
  pub tls_expiry : Option ℕ
  pub domain_expiry : Option ℕ

pub record DomainRows : Type 0 where
  pub alerts : List DomainAlert
  pub audit_log : List AuditRow
  pub mails : List Mail

pub record DomainRun : Type 0 where
  pub now : ℕ
  pub checked_at : ℕ
  pub level : Level
  pub tls : Lookup
  pub domain : Lookup
  pub mail_works : Bool

-- `keep = expiry if expiry is not None else keep`
abbrev pub or_keep : Option ℕ → Option ℕ → Option ℕ
or_keep none old = old
or_keep (some t) old = some t

abbrev pub same_time : Option ℕ → ℕ → Bool
same_time none t = false
same_time (some s) t = s == t

-- An expiry is alerted if it comes within thirty days and was not alerted before.
abbrev pub needs_alert : (checked_at : ℕ) → Option ℕ → (alerted : Option ℕ) → Bool
needs_alert checked_at none alerted = false
needs_alert checked_at (some t) alerted = leb t (checked_at + 2592000) && not (same_time alerted t)

abbrev pub plan_check : DomainRun → DomainAlert → DomainAlert
plan_check run a = record a { interval_seconds = 86400; next_check_at = run.now + 86400 }

unfoldable pub record_lookups : DomainRun → DomainAlert → DomainAlert
record_lookups run a = record a {
  last_checked_at = some run.checked_at;
  tls_error_code = error_of "tls_check_failed" run.tls;
  domain_error_code = error_of "rdap_lookup_failed" run.domain;
  tls_expires_at = or_keep (expiry_of run.tls) a.tls_expires_at;
  domain_expires_at = or_keep (expiry_of run.domain) a.domain_expires_at;
}

abbrev pub when : Bool → Option ℕ → Option ℕ
when b o = if b then o else none

abbrev pub tls_due : DomainRun → DomainAlert → Bool
tls_due run a = needs_alert run.checked_at (expiry_of run.tls) a.tls_alerted_expiry

abbrev pub domain_due : DomainRun → DomainAlert → Bool
domain_due run a = needs_alert run.checked_at (expiry_of run.domain) a.domain_alerted_expiry

abbrev pub mail_of : DomainRun → DomainAlert → Mail
mail_of run a = record {
  alert_id = a.id;
  tls_expiry = when (tls_due run a) (expiry_of run.tls);
  domain_expiry = when (domain_due run a) (expiry_of run.domain);
}

-- The mail, and the expiries that it has alerted if it went out.
unfoldable pub send_alert : DomainRun → DomainAlert → List Mail → DomainAlert × List Mail
send_alert run a mails =
    let tls = tls_due run a in
    let domain = domain_due run a in
    if tls || domain
    then (
      (if run.mail_works
          then record a {
            tls_alerted_expiry = if tls then expiry_of run.tls else a.tls_alerted_expiry;
            domain_alerted_expiry =
                if domain then expiry_of run.domain else a.domain_alerted_expiry;
          }
          else a),
      mails ++ mail_of run a ∷ [],
    )
    else (a, mails)

-- The lookups and what follows them, for an entitled alert.
unfoldable pub look_up : DomainRun → DomainAlert → List Mail → DomainAlert × List Mail
unfolding record_lookups send_alert
look_up run a mails = send_alert run (record_lookups run (plan_check run a)) mails

abbrev pub deactivate_from : List DomainAlert → List DomainAlert × List AuditRow
deactivate_from [] = ([], [])
deactivate_from (a ∷ xs) =
    let (xs', log) = deactivate_from xs in
    if a.active
    then (record a { active = false } ∷ xs', ("domain_alert.paused_entitlement", a.id) ∷ log)
    else (a ∷ xs', log)

-- Below a day pass the first active alert stays, and the others are paused.
unfoldable pub keep_first : List DomainAlert → List DomainAlert × List AuditRow
keep_first [] = ([], [])
keep_first (a ∷ xs) =
    let rest = keep_first xs in
    let (xs', log) = if a.active then deactivate_from xs else rest in (a ∷ xs', log)

abbrev pub apply_plan : Level → DomainRows → DomainRows
apply_plan level r =
    let (xs, log) = keep_first r.alerts in
    if below level Level.day_pass
    then record r { alerts = xs; audit_log = r.audit_log ++ log }
    else r

abbrev pub find_alert : ℕ → DomainRows → Option DomainAlert
find_alert i r = find_by (λ a. a.id == i) r.alerts

abbrev pub look_up_in : DomainRun → DomainAlert → DomainRows → DomainRows
look_up_in run a r =
    let (a', mails) = look_up run a r.mails in
    record r { alerts = update_by (λ x. x.id == a'.id) (λ x. a') r.alerts; mails = mails }

abbrev pub check_active : DomainRun → Option DomainAlert → DomainRows → DomainRows
check_active run none r = r
check_active run (some a) r = if a.active then look_up_in run a r else r

abbrev pub check_found : DomainRun → ℕ → Option DomainAlert → DomainRows → DomainRows
check_found run i none r = r
check_found run i (some a) r =
    let planned = apply_plan run.level r in
    if a.active then check_active run (find_alert i planned) planned else r

-- `check_domain_expiry_alert`, for a user that is there.
unfoldable pub check_domain_expiry_alert : DomainRun → (id : ℕ) → DomainRows → DomainRows
unfolding look_up keep_first
check_domain_expiry_alert run i r = check_found run i (find_alert i r) r

abbrev pub is_due : (now : ℕ) → DomainAlert → Bool
is_due now a = a.active && leb a.next_check_at now

-- `check_due_domain_expiry_alerts` on the alerts of one user, with the ids to check.
unfoldable pub check_due_domain_expiry_alerts :
    (now : ℕ) → List DomainAlert → List DomainAlert × List ℕ
check_due_domain_expiry_alerts now [] = ([], [])
check_due_domain_expiry_alerts now (a ∷ xs) =
    let (xs', ids) = check_due_domain_expiry_alerts now xs in
    if is_due now a
    then (record a { next_check_at = now + a.interval_seconds } ∷ xs', a.id ∷ ids)
    else (a ∷ xs', ids)
