-- ===== src/Credits/Books/Expiry.antt =====
-- The expiry of lots, `expire_credits` (jobs/tasks.py), keeps the books.
use render_cart.Prelude.{
  ℕ, ◌+◌, ◌-◌, ◌<◌, ◌≡◌, refl, sym, ap, subst, ◌∙◌, inl, inr, true, false, none, some, List, [],
  ◌∷◌, arith, All, Option-cases, if◌then◌else◌, sum_by, filter_by,
}
use render_cart.Prelude.Int.{ℤ, pos, ◌-ℤ◌, int_laws}
use render_cart.Credits.{Account, Lot, Wallet, free, balance_of, find_lot, update_lot, order_lots}
use render_cart.Credits.Sums.{Apart, DistinctIds, sum_by-update_lot, sum_by-order_lots}
use render_cart.Credits.Grant.{
  ExpiryNames, expirable, lapsed, drop_unheld, expire_lot, expire_lots, expire_credits,
  expire_debit, debit_account, debit_entry,
}
use render_cart.Credits.Books.{Books}
use render_cart.Credits.Books.Rows.{
  Found, DistinctIds-Found, find_lot-update_ne, All-filter_by, filter_by-passes, All-order_lots,
  DistinctIds-filter_by, DistinctIds-order_lots,
}
use render_cart.Credits.Books.Granting.{Revoked, drop_unheld-Revoked}

sub_sub : (z : ℤ) (m n : ℕ) → (z -ℤ pos m) -ℤ pos n ≡ z -ℤ pos (m + n)
sub_sub z m n = omega int_laws

pub no_account_no_lots :
    (l : Lot) (w : Wallet)
    → Books w
    → w.account ≡ none
    → find_lot l.id w.lots ≡ some l
    → l.remaining ≡ 0
no_account_no_lots l w b e found =
    let sums =
      sum_by-update_lot (λ l. l.remaining) (λ l. record l { remaining = 0 }) l.id l w.lots found in
    ground (arith, b.balanced, sums)

abbrev lapsed_free : ℕ → Lot → ℕ
lapsed_free now l = if lapsed l.expires_at now then free l else 0

lapsed_free-drop_unheld : (now : ℕ) (l : Lot) → lapsed_free now (drop_unheld l) ≡ 0
lapsed_free-drop_unheld now l = ground arith

Found-update_lot :
    (l : Lot) (lots ms : List Lot)
    → Apart l ms
    → All (Found lots) ms
    → All (Found (update_lot l.id drop_unheld lots)) ms
Found-update_lot l lots [] d h = h
Found-update_lot l lots (m ∷ ms) d h = (
  find_lot-update_ne drop_unheld l.id m.id lots (λ l. refl) d.0 ∙ h.0,
  Found-update_lot l lots ms d.1 h.1,
)

lapsed_free-filter_by :
    (now : ℕ) (ls : List Lot)
    → sum_by (lapsed_free now) (filter_by (expirable now) ls) ≡ sum_by (lapsed_free now) ls
lapsed_free-filter_by now [] = refl
lapsed_free-filter_by now (l ∷ ls) = ground (arith, lapsed_free-filter_by now ls)

none_expirable :
    (now : ℕ) (ls : List Lot)
    → sum_by (lapsed_free now) ls ≡ 0
    → All (λ l. expirable now l ≡ false) ls
none_expirable now [] e = tt
none_expirable now (l ∷ ls) e = (ground (arith, e), none_expirable now ls (omega (arith, e)))

module _ (names : ExpiryNames) where
  expire_lot-some :
      (l : Lot) (w : Wallet) (a : Account)
      → w.account ≡ some a
      → expire_lot names l w
        ≡ debit_account a
            (expire_debit (l.remaining - l.held) a)
            (debit_entry
              (names.ledger_id l.id)
              (expire_debit (l.remaining - l.held) a)
              "expire"
              (some (names.reference l.id l.remaining)))
            (record w { lots = update_lot l.id drop_unheld w.lots })
  unfolding expire_lot
  expire_lot-some l w a e = rw (e, expire_lot)

  -- One round takes what the lot has free.
  expire_lot-Revoked :
      (l : Lot) (w : Wallet)
      → Books w
      → find_lot l.id w.lots ≡ some l
      → 0 < free l
      → Revoked (free l) w (expire_lot names l w)
        × ((expire_lot names l w).lots ≡ update_lot l.id drop_unheld w.lots)
  unfolding debit_account
  expire_lot-Revoked l w b found positive = elim (Option-cases w.account) [
    | inl e ↦ absurd (omega (arith, no_account_no_lots l w b e found))
    | inr (a, e) ↦ rw (expire_lot-some l w a e) (
      drop_unheld-Revoked drop_unheld (λ l. refl) (λ l. refl) (λ l. refl) l w a
          (λ debit.
            debit_entry (names.ledger_id l.id) debit "expire"
              (some (names.reference l.id l.remaining)))
          b e found,
      refl,
    )
  ]

  expire_lots-Revoked :
      (now : ℕ) (ls : List Lot) (w : Wallet)
      → Books w
      → DistinctIds ls
      → All (Found w.lots) ls
      → All (λ l. expirable now l ≡ true) ls
      → let total = sum_by (lapsed_free now) in
        Revoked (total ls) w (expire_lots names ls w)
        × (total (expire_lots names ls w).lots + total ls ≡ total w.lots)
  unfolding expire_lots
  expire_lots-Revoked now [] w b d f x =
      (record { books = b; balance = omega int_laws; held = refl }, omega arith)
  expire_lots-Revoked now (l ∷ ls) w b d f x =
      let step = expire_lot-Revoked l w b f.0 (ground (arith, x.0)) in
      let found =
        subst (λ xs. All (Found xs) ls) (sym step.1) (Found-update_lot l w.lots ls d.0 f.1) in
      let rest = expire_lots-Revoked now ls (expire_lot names l w) step.0.books d.1 found x.1 in
      let here : lapsed_free now l ≡ free l = ground (arith, x.0) in
      let sums = sum_by-update_lot (lapsed_free now) drop_unheld l.id l w.lots f.0 in
      (
        record {
          books = rest.0.books;
          balance =
              rest.0.balance
              ∙ ap (λ z. z -ℤ pos (sum_by (lapsed_free now) ls)) step.0.balance
              ∙ rw here (sub_sub (balance_of w.account) (free l) (sum_by (lapsed_free now) ls));
          held = rest.0.held ∙ step.0.held;
        },
        omega (
          arith,
          rest.1,
          ap (sum_by (lapsed_free now)) step.1,
          sums,
          lapsed_free-drop_unheld now l,
        ),
      )

  -- Expiry takes from the wallet exactly what its lapsed lots have free, keeps what jobs hold and
  -- the soundness of the books, and leaves no lot that could expire again at that time.
  pub expire_credits-Revoked :
      (now : ℕ) (w : Wallet)
      → Books w
      → let after = (expire_credits names now w).0 in
        Revoked (sum_by (λ l. if lapsed l.expires_at now then free l else 0) w.lots) w after
        × All (λ l. expirable now l ≡ false) after.lots
  unfolding expire_credits
  expire_credits-Revoked now w b =
      let chosen = filter_by (expirable now) w.lots in
      let ls = order_lots chosen in
      let total : sum_by (lapsed_free now) ls ≡ sum_by (lapsed_free now) w.lots =
        sum_by-order_lots (lapsed_free now) chosen ∙ lapsed_free-filter_by now w.lots in
      let r =
        expire_lots-Revoked now ls w b
          (DistinctIds-order_lots chosen (DistinctIds-filter_by (expirable now) w.lots b.distinct))
          (All-order_lots (Found w.lots) chosen (
            All-filter_by (Found w.lots) (expirable now) w.lots
              (DistinctIds-Found w.lots b.distinct)))
          (All-order_lots (λ l. expirable now l ≡ true) chosen
            (filter_by-passes (expirable now) w.lots)) in
      (
        subst (λ n. Revoked n w (expire_lots names ls w)) total r.0,
        none_expirable now (expire_lots names ls w).lots (omega (arith, r.1, total)),
      )
