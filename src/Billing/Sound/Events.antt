-- ===== src/Billing/Sound/Events.antt =====
-- Refunds, invoices and the webhook (backend/src/rendercart/billing/router.py) keep the books.
use render_cart.Prelude.{
  ℕ, ◌≡◌, refl, sym, subst, ◌∙◌, inl, inr, String, Bool, true, false, Option, none, some,
  Bool-cases, if◌then◌else◌, ◌==◌, any_of, find_by,
}
use render_cart.Credits.Grant.{grant_credits, refund_credits}
use text.Mathlib.Text.{◌==◌ as str_eq}
use render_cart.Billing.{
  PurchaseStatus, find_purchase, Purchase, PurchaseKind, single_job, credit_pack, subscription,
  User, Shop, Handled, done, error, Call, References, set_wallet, put_purchase,
}
use render_cart.Billing.Refunding.{
  end_passes, cancel_job, revoke_credits, reverse, process_refund, reversed, source_reference,
  paid_by, is_reversed,
}
use render_cart.Billing.Webhook.{
  subscriber, upsert_row, monthly_grant, is_pending, failed_purchase, Event, checkout_completed,
  checkout_failed, subscription_changed, invoice_paid, invoice_failed, charge_refunded,
  dispute_created, other_event, MonthlyCredits, Invoice, Inbox, stripe_webhook, answer,
  process_event, SubscriptionObject, upsert, upsert_subscription, grant_monthly,
  process_invoice_paid, fail_job_of, fail_payment, note_failed_invoice, customer_user,
}
use render_cart.Billing.Sound.{
  Sound, FreshLots, SoundAfter, either_Sound, option_Sound, set_wallet-Sound, refund_credits-Books,
  grant_credits-Books,
}
use render_cart.Billing.Sound.Checkouts.{process_checkout-Sound}

module _ (names : References) (c : Call) (s : Shop) (h : Sound s.wallets)
    (fresh : FreshLots c s.wallets) where
  end_passes-wallets :
      (payment : String) (kind : PurchaseKind) (t : Shop)
      → (end_passes c.now payment kind t).wallets ≡ t.wallets
  end_passes-wallets payment PurchaseKind.day_pass t = refl
  end_passes-wallets payment single_job t = refl
  end_passes-wallets payment credit_pack t = refl
  end_passes-wallets payment subscription t = refl

  cancel_job-wallets :
      (kind : PurchaseKind) (job : Option ℕ) (t : Shop)
      → (cancel_job c.now kind job t).wallets ≡ t.wallets
  cancel_job-wallets PurchaseKind.day_pass job t = refl
  cancel_job-wallets single_job none t = refl
  cancel_job-wallets single_job (some i) t = refl
  cancel_job-wallets credit_pack job t = refl
  cancel_job-wallets subscription job t = refl

  revoke_credits-Sound :
      (p : Purchase) (payment : String) (user : Option ℕ) (t : Shop)
      → Sound t.wallets
      → Sound (revoke_credits names c p payment user t).wallets
  revoke_credits-Sound p payment none t k = k
  revoke_credits-Sound p payment (some u) t k =
      either_Sound (p.credits_granted == 0) t
        (set_wallet u
          (refund_credits (source_reference names p.kind payment) (names.refund payment) c.ledger_id
            c.now)
          t)
        k
        (set_wallet-Sound u
          (refund_credits (source_reference names p.kind payment) (names.refund payment) c.ledger_id
            c.now)
          t k
          λ j.
            refund_credits-Books (source_reference names p.kind payment) (names.refund payment)
              c.ledger_id c.now (t.wallets j) (k j))

  process_refund-Sound :
      (is_dispute : Bool) (payment : Option String)
      → Sound (process_refund names c is_dispute payment s).wallets
  unfolding process_refund
  process_refund-Sound is_dispute none = h
  process_refund-Sound is_dispute (some payment) =
      option_Sound (find_by (paid_by payment) s.purchases) s
        (λ p. if is_reversed p.status then s else reverse names c is_dispute payment p s) h
        λ p. either_Sound (is_reversed p.status) s (reverse names c is_dispute payment p s) h (
          let s1 = put_purchase (reversed is_dispute c.now p) s in
          let s2 = end_passes c.now payment p.kind s1 in
          revoke_credits-Sound p payment p.user_id (cancel_job c.now p.kind p.job_id s2) (
            subst Sound
              (sym (cancel_job-wallets p.kind p.job_id s2 ∙ end_passes-wallets payment p.kind s1))
              h))

  upsert-wallets :
      (id customer : Option String) (o : SubscriptionObject)
      → Sound (upsert id customer o s).wallets
  upsert-wallets none customer o = h
  upsert-wallets (some id) none o = h
  upsert-wallets (some id) (some customer) o =
      option_Sound (subscriber o customer s.users) s
        (λ u. record s { subscriptions = upsert_row id customer u.id o s.subscriptions }) h λ u. h

  grant_monthly-Sound :
      (m : MonthlyCredits) (i : Invoice) (id : Option String) (user : Option User)
      → Sound (grant_monthly m c i id user s).wallets
  grant_monthly-Sound m i none user = h
  grant_monthly-Sound m i (some id) none = h
  grant_monthly-Sound m i (some id) (some u) =
      set_wallet-Sound u.id (grant_credits (monthly_grant m c i id s.subscriptions)) s h λ j.
        grant_credits-Books (monthly_grant m c i id s.subscriptions) (s.wallets j) (h j) (fresh j)

  process_invoice_paid-Sound :
      (m : MonthlyCredits) (i : Invoice) → Sound (process_invoice_paid m c i s).wallets
  unfolding process_invoice_paid
  process_invoice_paid-Sound m i =
      either_Sound i.is_pro (grant_monthly m c i i.id (customer_user i.customer s.users) s) s
        (grant_monthly-Sound m i i.id (customer_user i.customer s.users)) h

  fail_job_of-Sound :
      (job : Option ℕ) (t : Shop) → Sound t.wallets → Sound (fail_job_of c.now job t).wallets
  fail_job_of-Sound none t k = k
  fail_job_of-Sound (some i) t k = k

  fail_payment-Sound : (i : Option ℕ) → Sound (fail_payment c.now i s).wallets
  unfolding fail_payment
  fail_payment-Sound none = h
  fail_payment-Sound (some i) =
      option_Sound (find_purchase i s.purchases) s
        (λ p. if is_pending p.status then failed_purchase c.now p s else s) h
        λ p.
          either_Sound (is_pending p.status) (failed_purchase c.now p s) s
            (fail_job_of-Sound p.job_id
              (put_purchase (record p { status = PurchaseStatus.failed }) s) h)
            h

  note_failed_invoice-Sound : (user : Option User) → Sound (note_failed_invoice user s).wallets
  note_failed_invoice-Sound none = h
  note_failed_invoice-Sound (some u) = h

  process_event-Sound :
      (m : MonthlyCredits) (event : Event) → SoundAfter (process_event names m c event s)
  unfolding process_event upsert_subscription
  process_event-Sound m (checkout_completed ses) = process_checkout-Sound names c s h fresh ses
  process_event-Sound m (checkout_failed i) = fail_payment-Sound i
  process_event-Sound m (subscription_changed o) = upsert-wallets o.id o.customer o
  process_event-Sound m (invoice_paid i) = process_invoice_paid-Sound m i
  process_event-Sound m (invoice_failed k) = note_failed_invoice-Sound (customer_user k s.users)
  process_event-Sound m (charge_refunded i) = process_refund-Sound false i
  process_event-Sound m (dispute_created i) = process_refund-Sound true i
  process_event-Sound m other_event = h

answer-Sound :
    (id : String) (b : Inbox) (r : Handled)
    → Sound b.shop.wallets
    → SoundAfter r
    → Sound (answer id b r).1.shop.wallets
answer-Sound id b (done s link) h k = k
answer-Sound id b (error e) h k = h

-- Whatever event Stripe delivers, the books of every wallet stay sound: if they are sound before
-- and the id of the lot that the call may add is new, they are sound after the webhook.
pub stripe_webhook-Sound :
    (names : References) (m : MonthlyCredits) (c : Call) (id : String) (event : Event) (b : Inbox)
    → Sound b.shop.wallets
    → FreshLots c b.shop.wallets
    → Sound (stripe_webhook names m c id event b).1.shop.wallets
unfolding stripe_webhook
stripe_webhook-Sound names m c id event b h fresh =
    elim (Bool-cases (any_of (str_eq id) b.events)) [
      | inl old ↦ rw old h
      | inr new ↦ rw new (
          answer-Sound id b (process_event names m c event b.shop) h
            (process_event-Sound names c b.shop h fresh m event))
    ]
