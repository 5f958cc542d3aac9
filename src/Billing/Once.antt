-- ===== src/Billing/Once.antt =====
-- The webhook of backend/src/rendercart/billing/router.py takes an event once.
use text.Mathlib.Text.{◌==◌ as str_eq}
use text.Mathlib.TextPositions.{eq_refl}
use render_cart.Prelude.{
  ◌≡◌, refl, ◌⊎◌, inl, inr, String, true, List, [], ◌∷◌, ◌++◌, arith, Bool-cases, any_of,
}
use render_cart.Billing.{Handled, done, error, Call, References}
use render_cart.Billing.Webhook.{
  Event, MonthlyCredits, Inbox, stripe_webhook, answer, process_event, duplicate, not_processed,
}

known_id : (id : String) (events : List String) → any_of (str_eq id) (events ++ id ∷ []) ≡ true
known_id id [] = ground (arith, eq_refl id)
known_id id (e ∷ events) = ground (arith, known_id id events)

answer_once :
    (names : References) (m : MonthlyCredits) (c : Call) (id : String) (event : Event) (b : Inbox)
    (r : Handled)
    → ((answer id b r).0 ≡ not_processed) × ((answer id b r).1 ≡ b)
      ⊎ (stripe_webhook names m c id event (answer id b r).1 ≡ (duplicate, (answer id b r).1))
unfolding stripe_webhook
answer_once names m c id event b (done s link) = inr (rw (known_id id b.events) refl)
answer_once names m c id event b (error e) = inl (refl, refl)

-- An event takes effect once: after a delivery either nothing has changed and the answer says that
-- it was not processed, or a delivery of the same id, with any content, is a duplicate that
-- changes nothing.
pub stripe_webhook-once :
    (names : References) (m : MonthlyCredits) (c c' : Call) (id : String) (event event' : Event)
    (b : Inbox)
    → let r = stripe_webhook names m c id event b in
      (r.0 ≡ not_processed) × (r.1 ≡ b)
      ⊎ (stripe_webhook names m c' id event' r.1 ≡ (duplicate, r.1))
unfolding stripe_webhook
stripe_webhook-once names m c c' id event event' b =
    elim (Bool-cases (any_of (str_eq id) b.events)) [
      | inl old ↦ rw old (inr (rw old refl))
      | inr new ↦ rw new (answer_once names m c' id event' b (process_event names m c event b.shop))
    ]
