-- ===== src/Billing/Webhook.antt =====
-- `_upsert_subscription`, `_process_invoice_paid`, `_process_event` and `stripe_webhook` of
-- backend/src/rendercart/billing/router.py. The signature is checked by Stripe's library, so an
-- event here is one that was signed; sending the magic link changes no row.
use text.Mathlib.Text.{◌==◌ as str_eq}
use render_cart.Prelude.{
  ℕ, String, Bool, true, false, Option, none, some, List, [], ◌∷◌, ◌++◌, if◌then◌else◌, ◌==◌,
  find_by, update_by, any_of,
}
use render_cart.Credits.Grant.{Grant, grant_credits}
use render_cart.Jobs.{Job, failed}
use render_cart.Billing.{
  Purchase, PurchaseStatus, pending, User, StripeSubscription, Shop, Handled, done, error, Call,
  Session, References, find_purchase, put_purchase, find_user, set_wallet,
}
use render_cart.Billing.Checkout.{process_checkout, is_waiting}
use render_cart.Billing.Refunding.{process_refund}

-- The fields of a subscription object; `user` is the id in its metadata.
pub record SubscriptionObject : Type 0 where
  pub id : Option String
  pub customer : Option String
  pub user : Option ℕ
  pub status : String
  pub period_start : Option ℕ
  pub period_end : Option ℕ
  pub cancel_at_period_end : Bool
  pub price : Option String
  pub has_items : Bool

-- The fields of an invoice; `is_pro` is the test of its billing reason.
pub record Invoice : Type 0 where
  pub id : Option String
  pub is_pro : Bool
  pub customer : Option String
  pub line_end : Option ℕ
  pub subscription : Option String

pub data Event : Type 0 where
  checkout_completed : Session → Event
  checkout_failed : (purchase_id : Option ℕ) → Event
  subscription_changed : SubscriptionObject → Event
  invoice_paid : Invoice → Event
  invoice_failed : (customer : Option String) → Event
  charge_refunded dispute_created : (payment_intent : Option String) → Event
  other_event : Event

abbrev pub is_customer : String → User → Bool
is_customer c u = elim u.stripe_customer_id [ none ↦ false | some d ↦ str_eq d c ]

abbrev pub customer_user : Option String → List User → Option User
customer_user none users = none
customer_user (some c) users = find_by (is_customer c) users

-- A new row has no period and no price yet.
abbrev pub new_subscription : String → String → ℕ → SubscriptionObject → StripeSubscription
new_subscription id customer user o = record {
  id = id;
  user_id = user;
  customer_id = customer;
  price_id = none;
  status = o.status;
  period_start = none;
  period_end = none;
  cancel_at_period_end = false;
}

abbrev pub write_subscription :
    String → ℕ → SubscriptionObject → StripeSubscription → StripeSubscription
write_subscription customer user o row = record row {
  user_id = user;
  customer_id = customer;
  status = o.status;
  cancel_at_period_end = o.cancel_at_period_end;
  period_start = o.period_start;
  period_end = o.period_end;
  price_id = if o.has_items then o.price else row.price_id;
}

abbrev pub has_id : String → StripeSubscription → Bool
has_id id row = str_eq row.id id

abbrev pub upsert_row :
    String → String → ℕ → SubscriptionObject → List StripeSubscription → List StripeSubscription
upsert_row id customer user o rows =
    if any_of (has_id id) rows
    then update_by (has_id id) (write_subscription customer user o) rows
    else rows ++ write_subscription customer user o (new_subscription id customer user o) ∷ []

abbrev pub subscriber : SubscriptionObject → String → List User → Option User
subscriber o customer users = elim o.user [
  | none ↦ customer_user (some customer) users
  | some u ↦ find_user u users
]

abbrev pub upsert : Option String → Option String → SubscriptionObject → Shop → Shop
upsert (some id) (some customer) o s = elim (subscriber o customer s.users) [
  | none ↦ s
  | some u ↦ record s { subscriptions = upsert_row id customer u.id o s.subscriptions }
]
upsert _ _ o s = s

unfoldable pub upsert_subscription : SubscriptionObject → Shop → Shop
upsert_subscription o s = upsert o.id o.customer o s

abbrev pub period_end_of : Option String → List StripeSubscription → Option ℕ
period_end_of none rows = none
period_end_of (some id) rows = elim (find_by (has_id id) rows) [
  | none ↦ none
  | some r ↦ r.period_end
]

abbrev pub invoice_expiry : Invoice → List StripeSubscription → Option ℕ
invoice_expiry i rows = elim i.line_end [
  | none ↦ period_end_of i.subscription rows
  | some t ↦ some t
]

-- The monthly credits of the settings, and the reference of an invoice.
pub record MonthlyCredits : Type 0 where
  pub amount : ℕ
  pub reference : String → String

abbrev pub monthly_grant :
    MonthlyCredits → Call → Invoice → String → List StripeSubscription → Grant
monthly_grant m c i id rows = record {
  ledger_id = c.ledger_id;
  lot_id = c.lot_id;
  created_at = c.now;
  amount = m.amount;
  kind = "grant_monthly";
  reference_id = some (m.reference id);
  expires_at = invoice_expiry i rows;
}

abbrev pub grant_monthly :
    MonthlyCredits → Call → Invoice → Option String → Option User → Shop → Shop
grant_monthly m c i (some id) (some u) s =
    set_wallet u.id (grant_credits (monthly_grant m c i id s.subscriptions)) s
grant_monthly m c i _ _ s = s

unfoldable pub process_invoice_paid : MonthlyCredits → Call → Invoice → Shop → Shop
process_invoice_paid m c i s =
    if i.is_pro then grant_monthly m c i i.id (customer_user i.customer s.users) s else s

abbrev pub is_pending : PurchaseStatus → Bool
is_pending pending = true
is_pending _ = false

-- A job that waits for a payment that failed.
abbrev pub fail_waiting : ℕ → Job → Job
fail_waiting now j =
    if is_waiting j.state
    then record j { state = failed; error_code = some "payment_failed"; finished_at = some now }
    else j

abbrev pub fail_job_of : ℕ → Option ℕ → Shop → Shop
fail_job_of now none s = s
fail_job_of now (some i) s = record s {
  jobs = update_by (λ j. j.id == i) (fail_waiting now) s.jobs;
}

abbrev pub failed_purchase : ℕ → Purchase → Shop → Shop
failed_purchase now p s =
    fail_job_of now p.job_id (put_purchase (record p { status = PurchaseStatus.failed }) s)

unfoldable pub fail_payment : ℕ → Option ℕ → Shop → Shop
fail_payment now none s = s
fail_payment now (some i) s = elim (find_purchase i s.purchases) [
  | none ↦ s
  | some p ↦ if is_pending p.status then failed_purchase now p s else s
]

abbrev pub note_failed_invoice : Option User → Shop → Shop
note_failed_invoice none s = s
note_failed_invoice (some u) s = record s {
  audit_log = s.audit_log ++ ("billing.invoice_payment_failed", u.id) ∷ [];
}

-- `_process_event`
unfoldable pub process_event : References → MonthlyCredits → Call → Event → Shop → Handled
unfolding process_checkout process_refund
process_event names m c (checkout_completed ses) s = process_checkout names c ses s
process_event names m c (checkout_failed i) s = done (fail_payment c.now i s) none
process_event names m c (subscription_changed o) s = done (upsert_subscription o s) none
process_event names m c (invoice_paid i) s = done (process_invoice_paid m c i s) none
process_event names m c (invoice_failed k) s =
    done (note_failed_invoice (customer_user k s.users) s) none
process_event names m c (charge_refunded i) s = done (process_refund names c false i s) none
process_event names m c (dispute_created i) s = done (process_refund names c true i s) none
process_event names m c other_event s = done s none

-- The answers of the webhook.
pub data Answer : Type 0 where
  received duplicate not_processed : Answer

-- The rows with the ids of the events that were committed.
pub record Inbox : Type 0 where
  pub shop : Shop
  pub events : List String

abbrev pub answer : String → Inbox → Handled → Answer × Inbox
answer id b (done s link) = (received, record { shop = s; events = b.events ++ id ∷ [] })
answer id b (error e) = (not_processed, b)

-- `stripe_webhook`: an event that was committed is not processed again, and an error rolls
-- everything back, so that Stripe can deliver the event again.
unfoldable pub stripe_webhook :
    References → MonthlyCredits → Call → (id : String) → Event → Inbox → Answer × Inbox
stripe_webhook names m c id event b =
    if any_of (str_eq id) b.events
    then (duplicate, b)
    else answer id b (process_event names m c event b.shop)
