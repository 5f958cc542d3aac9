-- ===== src/Billing/Sound/Checkouts.antt =====
-- `_process_checkout` (backend/src/rendercart/billing/router.py) keeps the books of the wallets.
use render_cart.Prelude.{
  ℕ, ◌≡◌, refl, sym, subst, ◌∙◌, ◌+◌, inl, inr, String, not, ◌&&◌, Option, none, some, [], ◌∷◌,
  ◌++◌, Bool-cases, ◌==◌, is_some, any_of, find_by,
}
use text.Mathlib.Text.{◌==◌ as str_eq}
use render_cart.Jobs.{Job}
use render_cart.Billing.{
  account_unavailable, find_purchase, is_final, Purchase, PurchaseKind, single_job, credit_pack,
  subscription, User, Shop, done, error, Call, Session, References, grant_of, put_purchase,
  find_user,
}
use render_cart.Billing.Checkout.{
  has_intent, tier_name, is_succeeded, is_waiting, is_served, mark_paid, same_amount, Claim,
  claimed, unavailable, claim_for, new_user, claim_email, issue_pass, add_pass, fulfill_day_pass,
  release_job, fulfill_job, fulfill_pack, fulfill, pay, link_customer, checkout, process_checkout,
}
use render_cart.Billing.Sound.{
  Sound, FreshLots, SoundAfter, either_SoundAfter, option_SoundAfter, grant_if-Sound,
  set_customer-wallets,
}

module _ (names : References) (c : Call) (s : Shop) (h : Sound s.wallets)
    (fresh : FreshLots c s.wallets) where
  issue_pass-Sound :
      (p : Purchase) (u : Option ℕ) (payment : Option String) (t : Shop) (link : Option String)
      → t.wallets ≡ s.wallets
      → SoundAfter (issue_pass names c p u payment t link)
  issue_pass-Sound p none payment t link same = tt
  issue_pass-Sound p (some u) none t link same = tt
  issue_pass-Sound p (some u) (some payment) t link same =
      either_SoundAfter (any_of (has_intent payment) t.passes) (done t link) _
        (subst Sound (sym same) h)
        (grant_if-Sound c s h fresh (is_some (find_user u t.users)) u p.credits_granted
          (grant_of c p "grant_daypass" (names.day_pass payment) (c.now + 86400))
          (add_pass c p u payment t) same refl)

  -- The wallets of a claim are those of the shop.
  abbrev SameWallets : Claim → Type 0
  SameWallets (claimed p t link) = t.wallets ≡ s.wallets
  SameWallets unavailable = Unit

  claim_for-SameWallets :
      (ses : Session) (p : Purchase) (u : User) (t : Shop)
      → t.wallets ≡ s.wallets
      → SameWallets (claim_for ses p u t)
  claim_for-SameWallets ses p u t same =
      let p' = record p { user_id = some u.id; guest_id = none } in
      elim (Bool-cases u.is_banned) [
        | inl banned ↦ rw banned tt
        | inr fine ↦ rw fine (set_customer-wallets u.id ses.customer (put_purchase p' t) ∙ same)
      ]

  claim_email-SameWallets :
      (ses : Session) (p : Purchase) (o : Option String) (t : Shop)
      → t.wallets ≡ s.wallets
      → SameWallets (claim_email c ses p o t)
  claim_email-SameWallets ses p none t same = same
  claim_email-SameWallets ses p (some email) t same =
      elim (find_by (λ u. str_eq u.email email) t.users)
        as (λ r. SameWallets (elim r [
          | none ↦
              claim_for ses p (new_user c email)
                (record t { users = t.users ++ new_user c email ∷ [] })
          | some u ↦ claim_for ses p u t
        ])) [
          | none ↦
              claim_for-SameWallets ses p (new_user c email)
                (record t { users = t.users ++ new_user c email ∷ [] }) same
          | some u ↦ claim_for-SameWallets ses p u t same
        ]

  claim_account-SameWallets :
      (ses : Session) (p : Purchase) (o : Option ℕ) (t : Shop)
      → t.wallets ≡ s.wallets
      → SameWallets (elim o [ none ↦ claim_email c ses p p.email t | some u ↦ claimed p t none ])
  claim_account-SameWallets ses p none t same = claim_email-SameWallets ses p p.email t same
  claim_account-SameWallets ses p (some u) t same = same

  pass_of_claim-Sound :
      (r : Claim)
      → SameWallets r
      → SoundAfter (elim r [
        | unavailable ↦ error account_unavailable
        | claimed p' s' link ↦ issue_pass names c p' p'.user_id p'.payment_intent_id s' link
      ])
  pass_of_claim-Sound (claimed p t link) same =
      issue_pass-Sound p p.user_id p.payment_intent_id t link same
  pass_of_claim-Sound unavailable same = tt

  fulfill_day_pass-Sound :
      (ses : Session) (p : Purchase) (t : Shop)
      → t.wallets ≡ s.wallets
      → SoundAfter (fulfill_day_pass names c ses p t)
  unfolding fulfill_day_pass
  fulfill_day_pass-Sound ses p t same =
      pass_of_claim-Sound _ (claim_account-SameWallets ses p p.user_id t same)

  release_job-Sound : (j : Job) (t : Shop) → Sound t.wallets → SoundAfter (release_job c j t)
  unfolding release_job
  release_job-Sound j t k =
      either_SoundAfter (is_succeeded j.state && is_some j.locked_output.key) _ _
        (either_SoundAfter
          (is_some j.locked_output.filename && is_some j.locked_output.content_type) _ _ k tt)
        (either_SoundAfter (is_waiting j.state) _ _ k
          (either_SoundAfter (is_served j.state) _ _ k k))

  fulfill_job-Sound : (p : Purchase) (t : Shop) → Sound t.wallets → SoundAfter (fulfill_job c p t)
  unfolding fulfill_job
  fulfill_job-Sound p t k = option_SoundAfter p.job_id _ _ tt λ i.
      option_SoundAfter (find_by (λ j. j.id == i) t.jobs) _ _ tt λ j.
        either_SoundAfter (str_eq (tier_name j.payment_tier) p.product_key) _ _
          (release_job-Sound j t k) tt

  fulfill_pack-Sound :
      (p : Purchase) (u : Option ℕ) (payment : Option String) (t : Shop)
      → t.wallets ≡ s.wallets
      → SoundAfter (fulfill_pack names c p u payment t)
  fulfill_pack-Sound p none payment t same = tt
  fulfill_pack-Sound p (some u) none t same = tt
  fulfill_pack-Sound p (some u) (some payment) t same =
      grant_if-Sound c s h fresh (is_some (find_user u t.users)) u p.credits_granted
        (grant_of c p "purchase" (names.credit_pack payment) (c.now + 31536000)) t same refl

  fulfill-Sound :
      (ses : Session) (p : Purchase) (kind : PurchaseKind) (t : Shop)
      → t.wallets ≡ s.wallets
      → SoundAfter (fulfill names c ses p kind t)
  unfolding fulfill
  fulfill-Sound ses p PurchaseKind.day_pass t same = fulfill_day_pass-Sound ses p t same
  fulfill-Sound ses p single_job t same = fulfill_job-Sound p t (subst Sound (sym same) h)
  fulfill-Sound ses p credit_pack t same = fulfill_pack-Sound p p.user_id p.payment_intent_id t same
  fulfill-Sound ses p subscription t same = subst Sound (sym same) h

  pay-Sound :
      (ses : Session) (p : Purchase) (id : Option String) → SoundAfter (pay names c ses p id s)
  unfolding pay
  pay-Sound ses p none = tt
  pay-Sound ses p (some id) =
      fulfill-Sound ses (mark_paid id ses p) p.kind (put_purchase (mark_paid id ses p) s) refl

  subscribe-Sound :
      (ses : Session) (p : Purchase) (user : Option ℕ) → Sound (link_customer ses user s).wallets
  subscribe-Sound ses p none = h
  subscribe-Sound ses p (some u) = subst Sound (sym (set_customer-wallets u ses.customer s)) h

  checkout-Sound : (ses : Session) (p : Purchase) → SoundAfter (checkout names c ses p s)
  unfolding checkout
  checkout-Sound ses p = either_SoundAfter (is_final p.status) _ _ h (
      either_SoundAfter ses.subscribes _ _ (subscribe-Sound ses p p.user_id) (
        either_SoundAfter (not ses.settled) _ _ h (
          either_SoundAfter (ses.is_usd && same_amount ses.amount_subtotal p.amount_cents) _ _
            (pay-Sound ses p ses.id) tt)))

  pub process_checkout-Sound : (ses : Session) → SoundAfter (process_checkout names c ses s)
  unfolding process_checkout
  process_checkout-Sound ses =
      option_SoundAfter ses.purchase_id _ _ h
        λ i. option_SoundAfter (find_purchase i s.purchases) _ _ h λ p. checkout-Sound ses p
