-- ===== src/Credits/Ledger/Debits.antt =====
-- What the end of a hold, grants, expiry and refunds (jobs/tasks.py and billing/router.py in
-- backend/src/rendercart) write to the ledger.
use render_cart.Prelude.{
  ℕ, zero, suc, ◌-◌, ◌≡◌, refl, ◌∙◌, inl, inr, String, true, false, Option, none, some, List, [],
  ◌∷◌, ltb, arith, Bool-cases, Option-cases,
}
use render_cart.Prelude.Int.{ℤ, pos, ◌+ℤ◌, ◌-ℤ◌, int_laws}
use render_cart.Credits.{Account, Lot, Entry, Wallet, update_lot, balance_of}
use render_cart.Credits.Settle.{
  settle_credit_reservations, spend_account, release_account, job_entry, finish_credits,
  release_credits,
}
use render_cart.Credits.Grant.{
  Grant, granted_entry, drop_unheld, expire_debit, debit_entry, revoke, ExpiryNames, grant_credits,
  refund_credits, add_grant, expire_lot, expire_lots, debit_account, has_reference,
  lot_of_reference,
}
use render_cart.Credits.Ledger.{ledger_sum, Explained, entry_added, unchanged, is_balance}

debited : (z : ℤ) (n : ℕ) → z -ℤ pos n ≡ z +ℤ (pos 0 -ℤ pos n)
debited z n = grind int_laws

undebited : (z : ℤ) → z -ℤ pos 0 ≡ z
undebited z = grind int_laws

spend_account-Explained :
    (ledger_id job cost : ℕ) (o : Option Account) (w : Wallet)
    → w.account ≡ o
    → Explained w
    → Explained (spend_account ledger_id job cost o w)
spend_account-Explained ledger_id job cost none w e x = x
spend_account-Explained ledger_id job cost (some a) w e x =
    entry_added a.balance (a.balance -ℤ pos cost) w.ledger
      (job_entry ledger_id job (pos 0 -ℤ pos cost) "spend") (is_balance w a e x)
      (debited a.balance cost)

release_account-Explained :
    (ledger_id job cost : ℕ) (o : Option Account) (w : Wallet)
    → w.account ≡ o
    → Explained w
    → Explained (release_account ledger_id job cost o w)
release_account-Explained ledger_id job cost none w e x = x
release_account-Explained ledger_id job cost (some a) w e x =
    entry_added a.balance a.balance w.ledger (job_entry ledger_id job (pos 0) "release")
      (is_balance w a e x) (unchanged a.balance)

pub finish_credits-Explained :
    (ledger_id job cost : ℕ) (w : Wallet)
    → Explained w
    → Explained (finish_credits ledger_id job cost w)
unfolding finish_credits settle_credit_reservations
finish_credits-Explained ledger_id job zero w x = x
finish_credits-Explained ledger_id job (suc n) w x =
    spend_account-Explained ledger_id job (suc n) w.account (settle_credit_reservations true job w)
      refl x

pub release_credits-Explained :
    (ledger_id job cost : ℕ) (w : Wallet)
    → Explained w
    → Explained (release_credits ledger_id job cost w)
unfolding release_credits settle_credit_reservations
release_credits-Explained ledger_id job zero w x = x
release_credits-Explained ledger_id job (suc n) w x =
    release_account-Explained ledger_id job (suc n) w.account
      (settle_credit_reservations false job w) refl x

pub add_grant-Explained : (g : Grant) (w : Wallet) → Explained w → Explained (add_grant g w)
unfolding add_grant
add_grant-Explained g w x =
    entry_added (balance_of w.account) (balance_of w.account +ℤ pos g.amount) w.ledger
      (granted_entry g) x refl

pub grant_credits-Explained : (g : Grant) (w : Wallet) → Explained w → Explained (grant_credits g w)
unfolding grant_credits
grant_credits-Explained g w x = elim (Bool-cases (has_reference g.reference_id w.ledger)) [
  | inl known ↦ rw known x
  | inr new ↦ rw new (add_grant-Explained g w x)
]

debit_account-Explained :
    (a : Account) (debit : ℕ) (entry : Entry) (w : Wallet)
    → entry.amount ≡ pos 0 -ℤ pos debit
    → a.balance ≡ ledger_sum w.ledger
    → Explained (debit_account a debit entry w)
unfolding debit_account
debit_account-Explained a zero entry w e is = undebited a.balance ∙ is
debit_account-Explained a (suc n) entry w e is =
    let more : ltb 0 (suc n) ≡ true = ground arith in
    rw more (
      entry_added a.balance (a.balance -ℤ pos (suc n)) w.ledger entry is
        (rw e (debited a.balance (suc n))))

same_wallet : (v w : Wallet) → v ≡ w → Explained w → Explained v
same_wallet v w e x = rw e x

expire_lot-Explained :
    (names : ExpiryNames) (l : Lot) (w : Wallet) → Explained w → Explained (expire_lot names l w)
unfolding expire_lot
expire_lot-Explained names l w x =
    let w' : Wallet = record w { lots = update_lot l.id drop_unheld w.lots } in
    elim (Option-cases w.account) [
      | inl e ↦ same_wallet (expire_lot names l w) w' (rw e refl) x
      | inr (a, e) ↦
          let debit = expire_debit (l.remaining - l.held) a in
          let entry =
            debit_entry (names.ledger_id l.id) debit "expire"
              (some (names.reference l.id l.remaining)) in
          same_wallet (expire_lot names l w) (debit_account a debit entry w') (rw e refl)
            (debit_account-Explained a debit entry w' refl (is_balance w a e x))
    ]

pub expire_lots-Explained :
    (names : ExpiryNames) (ls : List Lot) (w : Wallet)
    → Explained w
    → Explained (expire_lots names ls w)
unfolding expire_lots
expire_lots-Explained names [] w x = x
expire_lots-Explained names (l ∷ ls) w x =
    expire_lots-Explained names ls (expire_lot names l w) (expire_lot-Explained names l w x)

pub refund_credits-Explained :
    (source reference : String) (ledger_id now : ℕ) (w : Wallet)
    → Explained w
    → Explained (refund_credits source reference ledger_id now w)
unfolding refund_credits
refund_credits-Explained source reference ledger_id now w x =
    let v = refund_credits source reference ledger_id now w in
    elim (Option-cases (lot_of_reference source w.ledger w.lots)) [
      | inl missing ↦ same_wallet v w (simp (missing, refund_credits)) x
      | inr (l, found) ↦ elim (Option-cases w.account) [
        | inl e ↦ same_wallet v w (simp (found, e, refund_credits)) x
        | inr (a, e) ↦
            let debit = expire_debit (l.remaining - l.held) a in
            let entry = debit_entry ledger_id debit "refund" (some reference) in
            let w' : Wallet = record w { lots = update_lot l.id (revoke now) w.lots } in
            same_wallet v (debit_account a debit entry w') (simp (found, e, refund_credits))
              (debit_account-Explained a debit entry w' refl (is_balance w a e x))
      ]
    ]
