-- ===== src/Billing/Tests.antt =====
-- A shop with a user who buys a pack of credits, payment events, and the laws at these inputs.
use render_cart.Prelude.{◌≡◌, ◌⊎◌, refl, true, false, none, some, [], ◌∷◌}
use render_cart.Prelude.Int.{pos, ◌+ℤ◌, ◌-ℤ◌}
use render_cart.Credits.{Wallet}
use render_cart.Credits.Grant.{grant_credits, add_grant, refund_credits, debit_account}
use render_cart.Credits.Books.{Books}
use render_cart.Billing.{
  done, Shop, Session, Purchase, PurchaseKind, PurchaseStatus, User, Call, References,
}
use render_cart.Billing.Checkout.{process_checkout, checkout, pay, fulfill}
use render_cart.Billing.Refunding.{process_refund, reverse}
use render_cart.Billing.Webhook.{
  Event, checkout_completed, charge_refunded, MonthlyCredits, Inbox, stripe_webhook, process_event,
  duplicate, not_processed,
}
use render_cart.Billing.Sound.{Sound}
use render_cart.Billing.Sound.Events.{stripe_webhook-Sound}
use render_cart.Billing.Paid.{process_checkout-once}
use render_cart.Billing.Once.{stripe_webhook-once}

abbrev buyer : User
buyer = record { id = 7; email = "a@b.c"; is_banned = false; stripe_customer_id = none }

abbrev pack : Purchase
pack = record {
  id = 1;
  user_id = some 7;
  guest_id = none;
  email = none;
  kind = PurchaseKind.credit_pack;
  product_key = "credits_50";
  amount_cents = 500;
  credits_granted = 50;
  checkout_session_id = none;
  payment_intent_id = none;
  job_id = none;
  status = PurchaseStatus.pending;
  refunded_at = none;
}

abbrev empty_wallet : Wallet
empty_wallet = record { account = none; lots = []; reservations = []; ledger = [] }

empty_wallet-Books : Books empty_wallet
empty_wallet-Books = record {
  balanced = refl;
  held = refl;
  covered = tt;
  known = tt;
  distinct = tt;
}

abbrev inbox : Inbox
inbox = record {
  shop = record {
    purchases = pack ∷ [];
    users = buyer ∷ [];
    passes = [];
    subscriptions = [];
    jobs = [];
    dispatches = [];
    wallets = λ j. empty_wallet;
    tokens = [];
    audit_log = [];
  };
  events = [];
}

abbrev names : References
names = record {
  day_pass = λ payment. "day-pass:pi_1:credits";
  credit_pack = λ payment. "credit-pack:pi_1:credits";
  refund = λ payment. "stripe-refund:pi_1";
}

abbrev monthly : MonthlyCredits
monthly = record { amount = 300; reference = λ invoice. "invoice:in_1:pro-credits" }

abbrev first_call : Call
first_call = record { now = 1000; user_id = 8; ledger_id = 20; lot_id = 30 }

abbrev second_call : Call
second_call = record { now = 2000; user_id = 9; ledger_id = 21; lot_id = 31 }

abbrev session : Session
session = record {
  purchase_id = some 1;
  subscribes = false;
  settled = true;
  is_usd = true;
  amount_subtotal = some 500;
  id = some "cs_1";
  customer = none;
  payment_intent = some "pi_1";
}

abbrev bought : Event
bought = checkout_completed session

abbrev after_purchase : Shop
after_purchase = (stripe_webhook names monthly first_call "evt_1" bought inbox).1.shop

-- The pack is granted, and its refund takes it back.
bought_and_refunded :
    let after_purchase = (stripe_webhook names monthly first_call "evt_1" bought inbox).1 in
    let after_refund =
      (stripe_webhook names monthly second_call "evt_2"
        (charge_refunded (some "pi_1"))
        after_purchase).1 in
    ((after_purchase.shop.wallets 7).account ≡ some (record { balance = pos 50; held = 0 }))
    × ((after_refund.shop.wallets 7).account ≡ some (record { balance = pos 0; held = 0 }))
unfolding stripe_webhook process_event process_checkout checkout pay fulfill grant_credits add_grant
    process_refund reverse refund_credits debit_account ◌+ℤ◌ ◌-ℤ◌
bought_and_refunded = (refl, refl)

stripe_webhook-Sound_example :
    Sound (stripe_webhook names monthly first_call "evt_1" bought inbox).1.shop.wallets
stripe_webhook-Sound_example =
    stripe_webhook-Sound names monthly first_call "evt_1" bought inbox (λ j. empty_wallet-Books)
      λ j. record { lots = tt; reservations = refl }

stripe_webhook-once_example :
    ((stripe_webhook names monthly first_call "evt_1" bought inbox).0 ≡ not_processed)
      × ((stripe_webhook names monthly first_call "evt_1" bought inbox).1 ≡ inbox)
    ⊎ (stripe_webhook names monthly second_call "evt_1" bought
          (stripe_webhook names monthly first_call "evt_1" bought inbox).1
        ≡ (duplicate, (stripe_webhook names monthly first_call "evt_1" bought inbox).1))
stripe_webhook-once_example =
    stripe_webhook-once names monthly first_call second_call "evt_1" bought bought inbox

process_checkout-once_example :
    process_checkout names second_call session after_purchase ≡ done after_purchase none
unfolding stripe_webhook process_event process_checkout checkout pay fulfill grant_credits add_grant
    ◌+ℤ◌
process_checkout-once_example =
    process_checkout-once names first_call second_call session session 1 pack inbox.shop
      after_purchase none refl refl refl refl refl refl
