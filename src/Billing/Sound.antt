-- ===== src/Billing/Sound.antt =====
-- No payment event breaks the books of a wallet: what the handlers have in common.
pub mod Checkouts
pub mod Events
use render_cart.Prelude.{
  ℕ, ◌≡◌, refl, sym, subst, ◌∙◌, ◌+◌, ◌⊎◌, inl, inr, String, Bool, true, false, not, ◌&&◌, ◌||◌,
  Option, none, some, List, [], ◌∷◌, ◌++◌, arith, Bool-cases, if◌then◌else◌, ◌==◌, is_some, any_of,
  find_by, update_by,
}
use render_cart.Credits.{Wallet}
use render_cart.Credits.Grant.{Grant, grant_credits, refund_credits}
use render_cart.Credits.Books.{Books}
use render_cart.Credits.Books.Granting.{FreshLot, grant_credits-Granted}
use render_cart.Credits.Books.Refund.{refund_credits-Revoked}
use text.Mathlib.Text.{◌==◌ as str_eq}
use render_cart.Jobs.{Job}
use render_cart.Billing.{
  account_unavailable, find_purchase, is_final, Purchase, PurchaseKind, single_job, credit_pack,
  subscription, User, Shop, ShopError, Handled, done, error, Call, Session, References,
  set_customer, set_wallet, grant_if, grant_of, put_purchase, find_user,
}
use render_cart.Billing.Checkout.{
  has_intent, tier_name, is_succeeded, is_waiting, is_served, mark_paid, same_amount, Claim,
  claimed, unavailable, claim_for, new_user, claim_email, claim_account, issue_pass, add_pass,
  fulfill_day_pass, release_job, fulfill_job, fulfill_pack, fulfill, pay, subscribe, link_customer,
  checkout, process_checkout,
}
use render_cart.Billing.Refunding.{
  end_passes, cancel_job, revoke_credits, reverse, process_refund, reversed, source_reference,
  paid_by, is_reversed,
}
use render_cart.Billing.Webhook.{
  Event, checkout_completed, checkout_failed, subscription_changed, invoice_paid, invoice_failed,
  charge_refunded, dispute_created, other_event, MonthlyCredits, Invoice, Inbox, stripe_webhook,
  answer, process_event, SubscriptionObject, upsert, upsert_subscription, grant_monthly,
  process_invoice_paid, fail_job_of, fail_payment, note_failed_invoice, customer_user,
}

-- The wallet of every user has sound books.
abbrev pub Sound : (ℕ → Wallet) → Type 0
Sound wallets = (j : ℕ) → Books (wallets j)

-- No wallet knows the id of the lot that the call may add.
abbrev pub FreshLots : Call → (ℕ → Wallet) → Type 0
FreshLots c wallets = (j : ℕ) → FreshLot c.lot_id (wallets j)

abbrev pub SoundAfter : Handled → Type 0
SoundAfter (done s link) = Sound s.wallets
SoundAfter (error e) = Unit

pub either_SoundAfter :
    (b : Bool) (x y : Handled) → SoundAfter x → SoundAfter y → SoundAfter (if b then x else y)
either_SoundAfter true x y hx hy = hx
either_SoundAfter false x y hx hy = hy

pub either_Sound :
    (b : Bool) (x y : Shop) → Sound x.wallets → Sound y.wallets → Sound (if b then x else y).wallets
either_Sound true x y hx hy = hx
either_Sound false x y hx hy = hy

pub option_SoundAfter :
    {A : Type 0} (o : Option A) (x : Handled) (f : A → Handled)
    → SoundAfter x
    → ((a : A) → SoundAfter (f a))
    → SoundAfter (elim o [ none ↦ x | some a ↦ f a ])
option_SoundAfter none x f hx hf = hx
option_SoundAfter (some a) x f hx hf = hf a

pub option_Sound :
    {A : Type 0} (o : Option A) (x : Shop) (f : A → Shop)
    → Sound x.wallets
    → ((a : A) → Sound (f a).wallets)
    → let r : Shop = elim o [ none ↦ x | some a ↦ f a ] in Sound r.wallets
option_Sound none x f hx hf = hx
option_Sound (some a) x f hx hf = hf a

pub set_wallet-Sound :
    (u : ℕ) (f : Wallet → Wallet) (s : Shop)
    → Sound s.wallets
    → ((j : ℕ) → Books (f (s.wallets j)))
    → Sound (set_wallet u f s).wallets
set_wallet-Sound u f s h k j = ground (arith, h j, k j)

pub grant_credits-Books :
    (g : Grant) (w : Wallet) → Books w → FreshLot g.lot_id w → Books (grant_credits g w)
grant_credits-Books g w b f = elim (grant_credits-Granted g w b f) [
  | inl (old, same) ↦ subst Books (sym same) b
  | inr (new, h) ↦ h.books
]

pub refund_credits-Books :
    (source refund : String) (ledger_id now : ℕ) (w : Wallet)
    → Books w
    → Books (refund_credits source refund ledger_id now w)
refund_credits-Books source refund ledger_id now w b =
    elim (refund_credits-Revoked source refund ledger_id now w b) [
      | inl (l, e, h) ↦ h.books
      | inr (gone, same) ↦ subst Books (sym same) b
    ]

pub set_customer-wallets :
    (i : ℕ) (o : Option String) (t : Shop) → (set_customer i o t).wallets ≡ t.wallets
set_customer-wallets i none t = refl
set_customer-wallets i (some x) t = refl

module _ (c : Call) (s : Shop) (h : Sound s.wallets) (fresh : FreshLots c s.wallets) where
  -- The shop `t` has the wallets of `s`, possibly with a grant of the call.
  pub grant_if-Sound :
      (exists : Bool) (u amount : ℕ) (g : Grant) (t : Shop)
      → t.wallets ≡ s.wallets
      → g.lot_id ≡ c.lot_id
      → Sound (grant_if exists u amount g t).wallets
  grant_if-Sound exists u amount g t same lot =
      let granted : Sound (set_wallet u (grant_credits g) t).wallets =
        set_wallet-Sound u (grant_credits g) t (subst Sound (sym same) h) (λ j.
          subst (λ w. Books (grant_credits g (w j))) (sym same)
            (grant_credits-Books g (s.wallets j) (h j) (rw lot (fresh j)))) in
      elim (Bool-cases (exists && not (amount == 0))) [
        | inl yes_grant ↦ rw yes_grant granted
        | inr skip ↦ rw skip (subst Sound (sym same) h)
      ]
