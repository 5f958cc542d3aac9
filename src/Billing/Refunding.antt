-- ===== src/Billing/Refunding.antt =====
-- `_process_refund` of backend/src/rendercart/billing/router.py, for a refund or a dispute.
use text.Mathlib.Text.{◌==◌ as str_eq}
use render_cart.Prelude.{
  ℕ, min, String, Bool, true, false, Option, none, some, [], ◌∷◌, ◌++◌, if◌then◌else◌, ◌==◌,
  find_by, update_by, map,
}
use render_cart.Credits.Grant.{refund_credits}
use render_cart.Jobs.{Job, JobState}
use render_cart.Billing.{
  Purchase, PurchaseKind, single_job, PurchaseStatus, refunded, disputed, Pass, Shop, Call,
  put_purchase, set_wallet, References,
}
use render_cart.Billing.Checkout.{has_intent}

abbrev pub paid_by : String → Purchase → Bool
paid_by payment p = elim p.payment_intent_id [ none ↦ false | some q ↦ str_eq q payment ]

abbrev pub is_reversed : PurchaseStatus → Bool
is_reversed refunded = true
is_reversed disputed = true
is_reversed _ = false

abbrev pub reversed : (is_dispute : Bool) → ℕ → Purchase → Purchase
reversed is_dispute now p = record p {
  status = if is_dispute then disputed else refunded;
  refunded_at = some now;
}

abbrev pub end_pass : ℕ → String → Pass → Pass
end_pass now payment pass =
    if has_intent payment pass then record pass { ends_at = min pass.ends_at now } else pass

abbrev pub end_passes : ℕ → String → PurchaseKind → Shop → Shop
end_passes now payment PurchaseKind.day_pass s = record s {
  passes = map (end_pass now payment) s.passes;
}
end_passes now payment _ s = s

abbrev pub cancel : ℕ → Job → Job
cancel now j = record j {
  state = JobState.cancelled;
  error_code = some "payment_refunded";
  finished_at = some now;
}

abbrev pub cancel_job : ℕ → PurchaseKind → Option ℕ → Shop → Shop
cancel_job now single_job (some i) s = record s {
  jobs = update_by (λ j. j.id == i) (cancel now) s.jobs;
}
cancel_job now _ _ s = s

abbrev pub source_reference : References → PurchaseKind → String → String
source_reference names PurchaseKind.day_pass payment = names.day_pass payment
source_reference names _ payment = names.credit_pack payment

abbrev pub revoke_credits : References → Call → Purchase → String → Option ℕ → Shop → Shop
revoke_credits names c p payment none s = s
revoke_credits names c p payment (some u) s =
    if p.credits_granted == 0
    then s
    else set_wallet u
        (refund_credits (source_reference names p.kind payment) (names.refund payment) c.ledger_id
          c.now)
        s

-- The refund of a purchase that was not reversed before.
unfoldable pub reverse : References → Call → Bool → String → Purchase → Shop → Shop
reverse names c is_dispute payment p s =
    let s' = revoke_credits names c p payment p.user_id (
      cancel_job c.now p.kind p.job_id
        (end_passes c.now payment p.kind (put_purchase (reversed is_dispute c.now p) s))) in
    record s' {
      audit_log =
          s'.audit_log
          ++ (if is_dispute then "billing.payment_disputed" else "billing.payment_refunded", p.id)
            ∷ [];
    }

unfoldable pub process_refund : References → Call → Bool → Option String → Shop → Shop
unfolding reverse
process_refund names c is_dispute none s = s
process_refund names c is_dispute (some payment) s = elim (find_by (paid_by payment) s.purchases) [
  | none ↦ s
  | some p ↦ if is_reversed p.status then s else reverse names c is_dispute payment p s
]
