-- ===== src/Billing.antt =====
-- The purchases of backend/src/rendercart/billing/models.py, and the rows that a payment event
-- changes, with `_process_checkout` of billing/router.py. A ValueError makes the webhook roll the
-- transaction back, so the handler returns the new rows or the error.
pub mod Checkout
pub mod Refunding
pub mod Sound
pub mod Once
pub mod Paid
pub mod Webhook
mod Tests
use text.Mathlib.Text.{◌==◌ as str_eq}
use render_cart.Prelude.{
  ℕ, ◌+◌, String, Bool, true, false, not, ◌&&◌, ◌||◌, Option, none, some, List, [], ◌∷◌, ◌++◌,
  if◌then◌else◌, ◌==◌, is_some, any_of, find_by, update_by,
}
use render_cart.Credits.{Wallet}
use render_cart.Credits.Grant.{Grant, grant_credits}
use render_cart.Registry.{JobTier, small, medium, large}
use render_cart.Jobs.{
  Job, JobState, awaiting_payment, queued, running, succeeded, Artifact, no_artifact, AuditRow,
}

pub data PurchaseKind : Type 0 where
  day_pass single_job credit_pack subscription : PurchaseKind

pub data PurchaseStatus : Type 0 where
  pending paid failed refunded disputed expired : PurchaseStatus

pub record Purchase : Type 0 where
  pub id : ℕ
  pub user_id : Option ℕ
  pub guest_id : Option String
  pub email : Option String
  pub kind : PurchaseKind
  pub product_key : String
  pub amount_cents : ℕ
  pub credits_granted : ℕ
  pub checkout_session_id : Option String
  pub payment_intent_id : Option String
  pub job_id : Option ℕ
  pub status : PurchaseStatus
  pub refunded_at : Option ℕ

-- The columns of `User` that billing reads.
pub record User : Type 0 where
  pub id : ℕ
  pub email : String
  pub is_banned : Bool
  pub stripe_customer_id : Option String

-- `DayPass`
pub record Pass : Type 0 where
  pub user_id : Option ℕ
  pub email : Option String
  pub payment_intent_id : Option String
  pub starts_at : ℕ
  pub ends_at : ℕ

-- `Subscription`, the columns that an event writes.
pub record StripeSubscription : Type 0 where
  pub id : String
  pub user_id : ℕ
  pub customer_id : String
  pub price_id : Option String
  pub status : String
  pub period_start : Option ℕ
  pub period_end : Option ℕ
  pub cancel_at_period_end : Bool

-- The rows that billing reads and writes; each user has a wallet.
pub record Shop : Type 0 where
  pub purchases : List Purchase
  pub users : List User
  pub passes : List Pass
  pub subscriptions : List StripeSubscription
  pub jobs : List Job
  pub dispatches : List ℕ
  pub wallets : ℕ → Wallet
  pub tokens : List ℕ
  pub audit_log : List AuditRow

pub data ShopError : Type 0 where
  amount_mismatch no_session_id account_unavailable no_account_email no_payment_intent : ShopError
  no_job_reference missing_job tier_mismatch preview_incomplete no_account_or_intent : ShopError

-- The address of a magic link to send, if the handler made a token for one.
pub data Handled : Type 0 where
  done : Shop → Option String → Handled
  error : ShopError → Handled

-- The time and the fresh ids of a call; addresses are case-folded already.
pub record Call : Type 0 where
  pub now : ℕ
  pub user_id : ℕ
  pub ledger_id : ℕ
  pub lot_id : ℕ

-- The fields of a checkout session that the handler reads; `settled` is its test of
-- `payment_status`.
pub record Session : Type 0 where
  pub purchase_id : Option ℕ
  pub subscribes : Bool
  pub settled : Bool
  pub is_usd : Bool
  pub amount_subtotal : Option ℕ
  pub id : Option String
  pub customer : Option String
  pub payment_intent : Option String

-- The formatted references of ledger rows, of a payment intent.
pub record References : Type 0 where
  pub day_pass : String → String
  pub credit_pack : String → String
  pub refund : String → String

abbrev pub is_final : PurchaseStatus → Bool
is_final paid = true
is_final refunded = true
is_final disputed = true
is_final pending = false
is_final failed = false
is_final expired = false

abbrev pub find_purchase : ℕ → List Purchase → Option Purchase
find_purchase i = find_by (λ p. p.id == i)

abbrev pub put_purchase : Purchase → Shop → Shop
put_purchase p s = record s { purchases = update_by (λ q. q.id == p.id) (λ _. p) s.purchases }

abbrev pub find_user : ℕ → List User → Option User
find_user i = find_by (λ u. u.id == i)

abbrev pub set_customer : ℕ → Option String → Shop → Shop
set_customer i none s = s
set_customer i (some c) s = record s {
  users = update_by (λ u. u.id == i) (λ u. record u { stripe_customer_id = some c }) s.users;
}

abbrev pub set_wallet : ℕ → (Wallet → Wallet) → Shop → Shop
set_wallet i f s = record s { wallets = λ j. if j == i then f (s.wallets j) else s.wallets j }

abbrev pub grant_of : Call → Purchase → (kind reference : String) → (expires_at : ℕ) → Grant
grant_of c p kind reference expires_at = record {
  ledger_id = c.ledger_id;
  lot_id = c.lot_id;
  created_at = c.now;
  amount = p.credits_granted;
  kind = kind;
  reference_id = some reference;
  expires_at = some expires_at;
}

-- `if user and purchase.credits_granted`
abbrev pub grant_if : Bool → ℕ → ℕ → Grant → Shop → Shop
grant_if exists user amount g s =
    if exists && not (amount == 0) then set_wallet user (grant_credits g) s else s
