-- ===== src/Credits/Books/Refund.antt =====
-- A refund, `_process_refund` (billing/router.py), keeps the books.
use render_cart.Prelude.{
  ℕ, ◌-◌, ◌≡◌, ◌≢◌, ◌⊎◌, refl, sym, subst, inl, inr, String, none, some, List, [], ◌∷◌, arith,
  Bool-cases, Option-cases,
}
use render_cart.Prelude.Int.{int_laws}
use render_cart.Credits.{Account, Lot, Entry, Wallet, free, find_lot, update_lot}
use render_cart.Credits.Sums.{DistinctIds}
use render_cart.Credits.Grant.{
  expire_debit, debit_account, debit_entry, refund_credits, lot_of_reference, revoke,
  same_reference, reference_of,
}
use render_cart.Credits.Books.{Books, All-find_lot}
use render_cart.Credits.Books.Granting.{Revoked, drop_unheld-Revoked}
use render_cart.Credits.Books.Expiry.{no_account_no_lots}

lot_of_reference-Found :
    (r : String) (ledger : List Entry) (l : Lot) (lots : List Lot)
    → DistinctIds lots
    → lot_of_reference r ledger lots ≡ some l
    → find_lot l.id lots ≡ some l
lot_of_reference-Found r ledger l [] d e = cc
lot_of_reference-Found r ledger l (x ∷ ls) d e =
    elim (Bool-cases (same_reference (some r) (reference_of x.source_ledger_id ledger))) [
      | inl hit ↦ ground (arith, hit)
      | inr miss ↦
          let found = lot_of_reference-Found r ledger l ls d.1 (ground (arith, miss)) in
          let ne = All-find_lot (λ y. y.id ≢ x.id) l.id l ls d.0 found in ground (arith, ne, found)
    ]

nothing-Revoked : (n : ℕ) (w : Wallet) → Books w → n ≡ 0 → Revoked n w w
nothing-Revoked n w b z = rw z (record { books = b; balance = omega int_laws; held = refl })

refund_unpaid :
    (source refund : String) (ledger_id now : ℕ) (l : Lot) (w : Wallet)
    → Books w
    → lot_of_reference source w.ledger w.lots ≡ some l
    → w.account ≡ none
    → find_lot l.id w.lots ≡ some l
    → Revoked (free l) w (refund_credits source refund ledger_id now w)
unfolding refund_credits
refund_unpaid source refund ledger_id now l w b e missing found =
    let same : refund_credits source refund ledger_id now w ≡ w =
      simp (e, missing, refund_credits) in
    subst (λ v. Revoked (free l) w v) (sym same)
      (nothing-Revoked (free l) w b (omega (arith, no_account_no_lots l w b missing found)))

refund_credits-none :
    (source refund : String) (ledger_id now : ℕ) (w : Wallet)
    → lot_of_reference source w.ledger w.lots ≡ none
    → refund_credits source refund ledger_id now w ≡ w
unfolding refund_credits
refund_credits-none source refund ledger_id now w gone = rw (gone, refund_credits)

refund_credits-some :
    (source refund : String) (ledger_id now : ℕ) (l : Lot) (a : Account) (w : Wallet)
    → lot_of_reference source w.ledger w.lots ≡ some l
    → w.account ≡ some a
    → refund_credits source refund ledger_id now w
      ≡ debit_account a
          (expire_debit (l.remaining - l.held) a)
          (debit_entry ledger_id (expire_debit (l.remaining - l.held) a) "refund" (some refund))
          (record w { lots = update_lot l.id (revoke now) w.lots })
unfolding refund_credits
refund_credits-some source refund ledger_id now l a w found e = rw (found, e, refund_credits)

-- A refund takes back what the lot that was paid for has free, and no more, even if the holder
-- has spent or holds the rest; the credits that jobs hold stay held. Without such a lot nothing
-- changes.
pub refund_credits-Revoked :
    (source refund : String) (ledger_id now : ℕ) (w : Wallet)
    → Books w
    → ((l : Lot) × (lot_of_reference source w.ledger w.lots ≡ some l)
        × Revoked (free l) w (refund_credits source refund ledger_id now w))
      ⊎ ((lot_of_reference source w.ledger w.lots ≡ none)
          × (refund_credits source refund ledger_id now w ≡ w))
unfolding debit_account
refund_credits-Revoked source refund ledger_id now w b =
    elim (Option-cases (lot_of_reference source w.ledger w.lots)) [
      | inl gone ↦ inr (gone, refund_credits-none source refund ledger_id now w gone)
      | inr (l, e) ↦
          let found = lot_of_reference-Found source w.ledger l w.lots b.distinct e in
          inl (
            l,
            e,
            elim (Option-cases w.account) [
              | inl missing ↦ refund_unpaid source refund ledger_id now l w b e missing found
              | inr (a, some_a) ↦
                  rw (refund_credits-some source refund ledger_id now l a w e some_a) (
                    drop_unheld-Revoked (revoke now) (λ l. refl) (λ l. refl) (λ l. refl) l w a
                      (λ debit. debit_entry ledger_id debit "refund" (some refund)) b some_a found)
            ],
          )
    ]
