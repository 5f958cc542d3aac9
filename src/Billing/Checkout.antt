-- ===== src/Billing/Checkout.antt =====
-- `_process_checkout` of backend/src/rendercart/billing/router.py: what a completed checkout session
-- does for a purchase of each kind. Identifiers that Stripe gives are not empty strings.
use text.Mathlib.Text.{◌==◌ as str_eq}
use render_cart.Prelude.{
  ℕ, ◌+◌, String, Bool, true, false, not, ◌&&◌, Option, none, some, [], ◌∷◌, ◌++◌, if◌then◌else◌,
  ◌==◌, is_some, any_of, find_by, update_by,
}
use render_cart.Registry.{JobTier, small, medium, large}
use render_cart.Jobs.{Job, JobState, awaiting_payment, queued, running, succeeded, no_artifact}
use render_cart.Billing.{
  Purchase, PurchaseKind, single_job, credit_pack, subscription, paid, pending, User, Pass, Shop,
  Handled, done, error, Call, Session, is_final, find_purchase, put_purchase, find_user,
  set_customer, grant_of, grant_if, References, amount_mismatch, no_session_id, account_unavailable,
  no_account_email, no_payment_intent, no_job_reference, missing_job, tier_mismatch,
  preview_incomplete, no_account_or_intent,
}

-- A purchase with the account that it is for.
pub data Claim : Type 0 where
  claimed : Purchase → Shop → Option String → Claim
  unavailable : Claim

abbrev pub claim_for : Session → Purchase → User → Shop → Claim
claim_for ses p u s =
    let p' = record p { user_id = some u.id; guest_id = none } in
    let s' = set_customer u.id ses.customer (put_purchase p' s) in
    if u.is_banned
    then unavailable
    else claimed p' (record s' { tokens = s'.tokens ++ u.id ∷ [] }) (some u.email)

abbrev pub new_user : Call → String → User
new_user c email = record {
  id = c.user_id;
  email = email;
  is_banned = false;
  stripe_customer_id = none;
}

abbrev pub claim_email : Call → Session → Purchase → Option String → Shop → Claim
claim_email c ses p none s = claimed p s none
claim_email c ses p (some email) s = elim (find_by (λ u. str_eq u.email email) s.users) [
  | none ↦
      claim_for ses p (new_user c email) (record s { users = s.users ++ new_user c email ∷ [] })
  | some u ↦ claim_for ses p u s
]

-- A day pass of a guest goes to the account of its email, which is made if there is none.
unfoldable pub claim_account : Call → Session → Purchase → Shop → Claim
claim_account c ses p s = elim p.user_id [
  | none ↦ claim_email c ses p p.email s
  | some u ↦ claimed p s none
]

abbrev pub has_intent : String → Pass → Bool
has_intent payment pass = elim pass.payment_intent_id [ none ↦ false | some q ↦ str_eq q payment ]

abbrev pub add_pass : Call → Purchase → ℕ → String → Shop → Shop
add_pass c p u payment s = record s {
  passes =
      s.passes
      ++ record {
        user_id = some u;
        email = p.email;
        payment_intent_id = some payment;
        starts_at = c.now;
        ends_at = c.now + 86400;
      }
        ∷ [];
}

abbrev pub issue_pass :
    References → Call → Purchase → Option ℕ → Option String → Shop → Option String → Handled
issue_pass names c p none payment s link = error no_account_email
issue_pass names c p (some u) none s link = error no_payment_intent
issue_pass names c p (some u) (some payment) s link =
    if any_of (has_intent payment) s.passes
    then done s link
    else done
        (grant_if (is_some (find_user u s.users)) u p.credits_granted
          (grant_of c p "grant_daypass" (names.day_pass payment) (c.now + 86400))
          (add_pass c p u payment s))
        link

unfoldable pub fulfill_day_pass : References → Call → Session → Purchase → Shop → Handled
unfolding claim_account
fulfill_day_pass names c ses p s = elim (claim_account c ses p s) [
  | unavailable ↦ error account_unavailable
  | claimed p' s' link ↦ issue_pass names c p' p'.user_id p'.payment_intent_id s' link
]

abbrev pub tier_name : Option JobTier → String
tier_name none = ""
tier_name (some small) = "S"
tier_name (some medium) = "M"
tier_name (some large) = "L"

abbrev pub put_job : Job → Shop → Shop
put_job j s = record s { jobs = update_by (λ k. k.id == j.id) (λ _. j) s.jobs }

abbrev pub is_waiting : JobState → Bool
is_waiting awaiting_payment = true
is_waiting _ = false

abbrev pub is_succeeded : JobState → Bool
is_succeeded succeeded = true
is_succeeded _ = false

-- `job.state in {QUEUED, RUNNING, SUCCEEDED}`
abbrev pub is_served : JobState → Bool
is_served queued = true
is_served running = true
is_served succeeded = true
is_served _ = false

abbrev pub unlock : Call → Job → Job
unlock c j = record j {
  output = j.locked_output;
  locked_output = no_artifact;
  expires_at = c.now + 86400;
}

abbrev pub enqueue : Call → Job → Job
enqueue c j = record j { state = queued; expires_at = c.now + 86400 }

-- A paid job: its locked result is opened, or it is queued with a dispatch, or the loss is noted.
unfoldable pub release_job : Call → Job → Shop → Handled
release_job c j s =
    if is_succeeded j.state && is_some j.locked_output.key
    then (if is_some j.locked_output.filename && is_some j.locked_output.content_type
        then done
            (put_job (unlock c j)
              (record s { audit_log = s.audit_log ++ ("billing.preview_unlocked", j.id) ∷ [] }))
            none
        else error preview_incomplete)
    else if is_waiting j.state
    then done (put_job (enqueue c j) (record s { dispatches = s.dispatches ++ j.id ∷ [] })) none
    else if is_served j.state
    then done s none
    else done
        (record s {
          audit_log = s.audit_log ++ ("billing.paid_job_expired_before_fulfillment", j.id) ∷ [];
        })
        none

unfoldable pub fulfill_job : Call → Purchase → Shop → Handled
unfolding release_job
fulfill_job c p s = elim p.job_id [
  | none ↦ error no_job_reference
  | some i ↦ elim (find_by (λ j. j.id == i) s.jobs) [
    | none ↦ error missing_job
    | some j ↦
        if str_eq (tier_name j.payment_tier) p.product_key
        then release_job c j s
        else error tier_mismatch
  ]
]

abbrev pub fulfill_pack : References → Call → Purchase → Option ℕ → Option String → Shop → Handled
fulfill_pack names c p (some u) (some payment) s =
    done
      (grant_if (is_some (find_user u s.users)) u p.credits_granted
        (grant_of c p "purchase" (names.credit_pack payment) (c.now + 31536000)) s)
      none
fulfill_pack names c p _ _ s = error no_account_or_intent

unfoldable pub fulfill : References → Call → Session → Purchase → PurchaseKind → Shop → Handled
unfolding fulfill_day_pass fulfill_job
fulfill names c ses p PurchaseKind.day_pass s = fulfill_day_pass names c ses p s
fulfill names c ses p single_job s = fulfill_job c p s
fulfill names c ses p credit_pack s = fulfill_pack names c p p.user_id p.payment_intent_id s
fulfill names c ses p subscription s = done s none

abbrev pub same_amount : Option ℕ → ℕ → Bool
same_amount none n = false
same_amount (some m) n = m == n

-- The purchase as the paid session leaves it.
abbrev pub mark_paid : String → Session → Purchase → Purchase
mark_paid id ses p = record p {
  checkout_session_id = some id;
  payment_intent_id = ses.payment_intent;
  status = paid;
}

unfoldable pub pay : References → Call → Session → Purchase → Option String → Shop → Handled
unfolding fulfill
pay names c ses p none s = error no_session_id
pay names c ses p (some id) s =
    fulfill names c ses (mark_paid id ses p) p.kind (put_purchase (mark_paid id ses p) s)

-- The account of the purchaser gets the customer's id, if the account is there.
abbrev pub link_customer : Session → Option ℕ → Shop → Shop
link_customer ses none s = s
link_customer ses (some u) s = set_customer u ses.customer s

abbrev pub subscribe : Session → Purchase → Shop → Handled
subscribe ses p s =
    done
      (put_purchase (record p { status = if ses.settled then paid else pending })
        (link_customer ses p.user_id s))
      none

-- `_process_checkout`, on a purchase that is there.
unfoldable pub checkout : References → Call → Session → Purchase → Shop → Handled
unfolding pay
checkout names c ses p s =
    if is_final p.status
    then done s none
    else if ses.subscribes
    then subscribe ses p s
    else if not ses.settled
    then done s none
    else if ses.is_usd && same_amount ses.amount_subtotal p.amount_cents
    then pay names c ses p ses.id s
    else error amount_mismatch

unfoldable pub process_checkout : References → Call → Session → Shop → Handled
unfolding checkout
process_checkout names c ses s = elim ses.purchase_id [
  | none ↦ done s none
  | some i ↦ elim (find_purchase i s.purchases) [
    | none ↦ done s none
    | some p ↦ checkout names c ses p s
  ]
]
