-- ===== src/Billing/Paid.antt =====
-- `_process_checkout` of backend/src/rendercart/billing/router.py fulfills a purchase once.
use text.Mathlib.Text.{◌==◌ as str_eq}
use render_cart.Prelude.{
  ℕ, ◌+◌, ◌≡◌, refl, sym, subst, ◌∙◌, inl, inr, String, Bool, true, false, ◌&&◌, Option, none, some,
  List, [], ◌∷◌, ◌++◌, arith, Bool-cases, if◌then◌else◌, ◌==◌, is_some, any_of, find_by, update_by,
}
use render_cart.Jobs.{Job}
use render_cart.Credits.Grant.{Grant}
use render_cart.Billing.{
  Purchase, PurchaseKind, single_job, credit_pack, subscription, User, Shop, Handled, done, error,
  Call, Session, References, is_final, find_purchase, put_purchase, find_user, set_customer,
  grant_of, grant_if, account_unavailable,
}
use render_cart.Billing.Checkout.{
  Claim, claimed, unavailable, claim_for, new_user, claim_email, has_intent, issue_pass, add_pass,
  fulfill_day_pass, tier_name, is_succeeded, is_waiting, is_served, release_job, fulfill_job,
  fulfill_pack, fulfill, same_amount, mark_paid, pay, checkout, process_checkout,
}

-- A purchase that is there is found again after it is written.
find_purchase-put :
    (p q : Purchase) (ps : List Purchase)
    → find_purchase p.id ps ≡ some q
    → find_purchase p.id (update_by (λ x. x.id == p.id) (λ _. p) ps) ≡ some p
find_purchase-put p q [] e = cc
find_purchase-put p q (x ∷ ps) e = ground (arith, find_purchase-put p q ps)

find_purchase-id :
    (i : ℕ) (p : Purchase) (ps : List Purchase) → find_purchase i ps ≡ some p → p.id ≡ i
find_purchase-id i p [] e = cc
find_purchase-id i p (x ∷ ps) e = ground (arith, find_purchase-id i p ps)

-- The purchase stands in the rows as paid, or as reversed.
abbrev pub PaidIn : ℕ → List Purchase → Type 0
PaidIn i ps =
    (p : Purchase) × (find_purchase i ps ≡ some p) × (p.id ≡ i) × (is_final p.status ≡ true)

abbrev PaidAfter : ℕ → Handled → Type 0
PaidAfter i (done s link) = PaidIn i s.purchases
PaidAfter i (error e) = Unit

either_PaidAfter :
    (i : ℕ) (b : Bool) (x y : Handled)
    → PaidAfter i x
    → PaidAfter i y
    → PaidAfter i (if b then x else y)
either_PaidAfter i true x y hx hy = hx
either_PaidAfter i false x y hx hy = hy

option_PaidAfter :
    {A : Type 0} (i : ℕ) (o : Option A) (x : Handled) (f : A → Handled)
    → PaidAfter i x
    → ((a : A) → PaidAfter i (f a))
    → PaidAfter i (elim o [ none ↦ x | some a ↦ f a ])
option_PaidAfter i none x f hx hf = hx
option_PaidAfter i (some a) x f hx hf = hf a

module _ (names : References) (c : Call) (ses : Session) (i : ℕ) where
  grant_if-purchases :
      (exists : Bool) (u amount : ℕ) (g : Grant) (s : Shop)
      → (grant_if exists u amount g s).purchases ≡ s.purchases
  grant_if-purchases exists u amount g s = ground arith

  set_customer-purchases :
      (u : ℕ) (o : Option String) (s : Shop) → (set_customer u o s).purchases ≡ s.purchases
  set_customer-purchases u none s = refl
  set_customer-purchases u (some x) s = refl

  issue_pass-Paid :
      (p : Purchase) (u : Option ℕ) (payment : Option String) (s : Shop) (link : Option String)
      → PaidIn i s.purchases
      → PaidAfter i (issue_pass names c p u payment s link)
  issue_pass-Paid p none payment s link h = tt
  issue_pass-Paid p (some u) none s link h = tt
  issue_pass-Paid p (some u) (some payment) s link h =
      either_PaidAfter i (any_of (has_intent payment) s.passes) (done s link) _ h (
        subst (PaidIn i)
          (sym (
            grant_if-purchases (is_some (find_user u s.users)) u p.credits_granted
              (grant_of c p "grant_daypass" (names.day_pass payment) (c.now + 86400))
              (add_pass c p u payment s)))
          h)

  abbrev PaidClaim : Claim → Type 0
  PaidClaim (claimed p s link) = PaidIn i s.purchases
  PaidClaim unavailable = Unit

  claim_for-Paid :
      (p : Purchase) (u : User) (s : Shop)
      → p.id ≡ i
      → is_final p.status ≡ true
      → PaidIn i s.purchases
      → PaidClaim (claim_for ses p u s)
  claim_for-Paid p u s same status h =
      let p' = record p { user_id = some u.id; guest_id = none } in
      let written : find_purchase i (put_purchase p' s).purchases ≡ some p' =
        subst (λ j. find_purchase j (put_purchase p' s).purchases ≡ some p') same
          (find_purchase-put p' h.0 s.purchases (rw same h.1)) in
      elim (Bool-cases u.is_banned) [
        | inl banned ↦ rw banned tt
        | inr fine ↦ rw fine (
            subst (PaidIn i) (sym (set_customer-purchases u.id ses.customer (put_purchase p' s)))
              (p', written, same, status))
      ]

  claim_email-Paid :
      (p : Purchase) (o : Option String) (s : Shop)
      → p.id ≡ i
      → is_final p.status ≡ true
      → PaidIn i s.purchases
      → PaidClaim (claim_email c ses p o s)
  claim_email-Paid p none s same status h = h
  claim_email-Paid p (some email) s same status h =
      elim (find_by (λ u. str_eq u.email email) s.users)
        as (λ r. PaidClaim (elim r [
          | none ↦
              claim_for ses p (new_user c email)
                (record s { users = s.users ++ new_user c email ∷ [] })
          | some u ↦ claim_for ses p u s
        ])) [
          | none ↦
              claim_for-Paid p (new_user c email)
                (record s { users = s.users ++ new_user c email ∷ [] }) same status h
          | some u ↦ claim_for-Paid p u s same status h
        ]

  claim_account-Paid :
      (p : Purchase) (o : Option ℕ) (s : Shop)
      → p.id ≡ i
      → is_final p.status ≡ true
      → PaidIn i s.purchases
      → PaidClaim (elim o [ none ↦ claim_email c ses p p.email s | some u ↦ claimed p s none ])
  claim_account-Paid p none s same status h = claim_email-Paid p p.email s same status h
  claim_account-Paid p (some u) s same status h = h

  pass_of_claim-Paid :
      (r : Claim)
      → PaidClaim r
      → PaidAfter i (elim r [
        | unavailable ↦ error account_unavailable
        | claimed p' s' link ↦ issue_pass names c p' p'.user_id p'.payment_intent_id s' link
      ])
  pass_of_claim-Paid (claimed p s link) h = issue_pass-Paid p p.user_id p.payment_intent_id s link h
  pass_of_claim-Paid unavailable h = tt

  release_job-Paid : (j : Job) (s : Shop) → PaidIn i s.purchases → PaidAfter i (release_job c j s)
  unfolding release_job
  release_job-Paid j s h =
      either_PaidAfter i (is_succeeded j.state && is_some j.locked_output.key) _ _
        (either_PaidAfter i
          (is_some j.locked_output.filename && is_some j.locked_output.content_type) _ _ h tt)
        (either_PaidAfter i (is_waiting j.state) _ _ h
          (either_PaidAfter i (is_served j.state) _ _ h h))

  fulfill_job-Paid :
      (p : Purchase) (s : Shop) → PaidIn i s.purchases → PaidAfter i (fulfill_job c p s)
  unfolding fulfill_job
  fulfill_job-Paid p s h = option_PaidAfter i p.job_id _ _ tt λ k.
      option_PaidAfter i (find_by (λ j. j.id == k) s.jobs) _ _ tt λ j.
        either_PaidAfter i (str_eq (tier_name j.payment_tier) p.product_key) _ _
          (release_job-Paid j s h) tt

  fulfill_pack-Paid :
      (p : Purchase) (u : Option ℕ) (payment : Option String) (s : Shop)
      → PaidIn i s.purchases
      → PaidAfter i (fulfill_pack names c p u payment s)
  fulfill_pack-Paid p none payment s h = tt
  fulfill_pack-Paid p (some u) none s h = tt
  fulfill_pack-Paid p (some u) (some payment) s h =
      subst (PaidIn i)
        (sym (
          grant_if-purchases (is_some (find_user u s.users)) u p.credits_granted
            (grant_of c p "purchase" (names.credit_pack payment) (c.now + 31536000)) s))
        h

  fulfill-Paid :
      (p : Purchase) (kind : PurchaseKind) (s : Shop)
      → p.id ≡ i
      → is_final p.status ≡ true
      → PaidIn i s.purchases
      → PaidAfter i (fulfill names c ses p kind s)
  unfolding fulfill fulfill_day_pass
  fulfill-Paid p PurchaseKind.day_pass s same status h =
      pass_of_claim-Paid _ (claim_account-Paid p p.user_id s same status h)
  fulfill-Paid p single_job s same status h = fulfill_job-Paid p s h
  fulfill-Paid p credit_pack s same status h = fulfill_pack-Paid p p.user_id p.payment_intent_id s h
  fulfill-Paid p subscription s same status h = h

  pay-Paid :
      (p : Purchase) (id : Option String) (s : Shop)
      → find_purchase i s.purchases ≡ some p
      → PaidAfter i (pay names c ses p id s)
  unfolding pay
  pay-Paid p none s e = tt
  pay-Paid p (some id) s e =
      let p' = mark_paid id ses p in
      let same : p.id ≡ i = find_purchase-id i p s.purchases e in
      let written : find_purchase i (put_purchase p' s).purchases ≡ some p' =
        subst (λ j. find_purchase j (put_purchase p' s).purchases ≡ some p') same
          (find_purchase-put p' p s.purchases
            (subst (λ j. find_purchase j s.purchases ≡ some p) (sym same) e)) in
      fulfill-Paid p' p.kind (put_purchase p' s) same refl (p', written, same, refl)

  process_checkout-Paid :
      (p : Purchase) (s : Shop)
      → ses.purchase_id ≡ some i
      → find_purchase i s.purchases ≡ some p
      → ses.subscribes ≡ false
      → ses.settled ≡ true
      → PaidAfter i (checkout names c ses p s)
  unfolding checkout
  process_checkout-Paid p s named e no_subscription settled =
      elim (Bool-cases (is_final p.status)) [
        | inl final ↦ rw final (p, e, find_purchase-id i p s.purchases e, final)
        | inr unpaid ↦
            rw (unpaid, no_subscription, settled)
              (either_PaidAfter i (ses.is_usd && same_amount ses.amount_subtotal p.amount_cents) _ _
                (pay-Paid p ses.id s e) tt)
      ]

process_checkout-named :
    (names : References) (c : Call) (ses : Session) (i : ℕ) (p : Purchase) (s : Shop)
    → ses.purchase_id ≡ some i
    → find_purchase i s.purchases ≡ some p
    → process_checkout names c ses s ≡ checkout names c ses p s
unfolding process_checkout
process_checkout-named names c ses i p s named e = simp (named, e, process_checkout)

checkout-final :
    (names : References) (c : Call) (ses : Session) (p : Purchase) (s : Shop)
    → is_final p.status ≡ true
    → checkout names c ses p s ≡ done s none
unfolding checkout
checkout-final names c ses p s final = rw final refl

-- Once a settled session for a purchase was processed without an error, no further session for
-- it, of any event, changes anything: the purchase is fulfilled at most once.
pub process_checkout-once :
    (names : References) (c c' : Call) (ses ses' : Session) (i : ℕ) (p : Purchase) (s s' : Shop)
    (link : Option String)
    → ses.purchase_id ≡ some i
    → find_purchase i s.purchases ≡ some p
    → ses.subscribes ≡ false
    → ses.settled ≡ true
    → process_checkout names c ses s ≡ done s' link
    → ses'.purchase_id ≡ some i
    → process_checkout names c' ses' s' ≡ done s' none
process_checkout-once names c c' ses ses' i p s s' link named e no_sub settled r named' =
    let direct : checkout names c ses p s ≡ done s' link =
      sym (process_checkout-named names c ses i p s named e) ∙ r in
    let paid_now : PaidIn i s'.purchases =
      subst (PaidAfter i) direct (process_checkout-Paid names c ses i p s named e no_sub settled) in
    process_checkout-named names c' ses' i paid_now.0 s' named' paid_now.1
    ∙ checkout-final names c' ses' paid_now.0 s' paid_now.3
