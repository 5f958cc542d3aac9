-- ===== src/Credits/Books/Granting.antt =====
-- Grants, expiry and refunds keep the books.
use render_cart.Prelude.{
  ℕ, ◌-◌, ◌≤◌, ◌≡◌, ◌≢◌, ◌⊎◌, refl, ap, inl, inr, true, false, some, List, [], ◌∷◌, ◌++◌, arith,
  All, is_some, Bool-cases, sum_by-append, All-append,
}
use render_cart.Prelude.Int.{pos, ◌-ℤ◌, ◌+ℤ◌, pos-sub, pos-add}
use render_cart.Credits.{
  Account, Lot, Reservation, Wallet, held_sum, remaining_sum, balance_of, held_of, Entry, find_lot,
  update_lot,
}
use render_cart.Credits.Sums.{
  reserved_on, DistinctIds, sum_by-update_lot, find_lot-update_lot, DistinctIds-update_lot,
}
use render_cart.Credits.Grant.{
  Grant, add_grant, grant_credits, debit_account, granted_lot, expire_debit, has_reference,
}
use render_cart.Credits.Books.{Covered, Known, Books, All-find_lot, held_sum-le-remaining_sum}

-- The new lot's id is a fresh UUID, which no lot and no reservation names.
pub record FreshLot (i : ℕ) (w : Wallet) : Type 0 where
  pub lots : All (λ l. i ≢ l.id) w.lots
  pub reservations : reserved_on i w.reservations ≡ 0

DistinctIds-append :
    (a : Lot) (lots : List Lot)
    → All (λ l. a.id ≢ l.id) lots
    → DistinctIds lots
    → DistinctIds (lots ++ a ∷ [])
DistinctIds-append a [] f d = (tt, tt)
DistinctIds-append a (l ∷ lots) f d =
    (All-append (λ x. x.id ≢ l.id) lots (a ∷ []) d.0 (f.0, tt), DistinctIds-append a lots f.1 d.1)

find_lot-append :
    (i : ℕ) (a : Lot) (lots : List Lot)
    → is_some (find_lot i lots) ≡ true
    → is_some (find_lot i (lots ++ a ∷ [])) ≡ true
find_lot-append i a [] h = cc
find_lot-append i a (l ∷ lots) h = ground (arith, find_lot-append i a lots)

Known-append :
    (a : Lot) (lots : List Lot) (rs : List Reservation)
    → All (Known lots) rs
    → All (Known (lots ++ a ∷ [])) rs
Known-append a lots [] h = h
Known-append a lots (r ∷ rs) h =
    (find_lot-append r.credit_lot_id a lots h.0, Known-append a lots rs h.1)

-- What a change of the balance by `amount` must do to a wallet.
pub record Granted (amount : ℕ) (before after : Wallet) : Type 0 where
  pub books : Books after
  pub balance : balance_of after.account ≡ balance_of before.account +ℤ pos amount
  pub held : held_of after.account ≡ held_of before.account

add_grant-Granted :
    (g : Grant) (w : Wallet) → Books w → FreshLot g.lot_id w → Granted g.amount w (add_grant g w)
unfolding add_grant
add_grant-Granted g w b f =
    let added = granted_lot g ∷ [] in
    record {
      books = record {
        balanced =
            rw (b.balanced, pos-add (remaining_sum w.lots) g.amount)
              (ap pos (omega (arith, sum_by-append (λ l. l.remaining) w.lots added)));
        held = omega (arith, b.held, sum_by-append (λ l. l.held) w.lots added);
        covered =
            All-append (Covered w.reservations) w.lots added b.covered
              ((omega (arith, f.reservations), omega arith), tt);
        known = Known-append (granted_lot g) w.lots w.reservations b.known;
        distinct = DistinctIds-append (granted_lot g) w.lots f.lots b.distinct;
      };
      balance = refl;
      held = refl;
    }

-- A grant adds its amount to the balance and to the lots, once: a reference that the ledger has
-- already changes nothing.
pub grant_credits-Granted :
    (g : Grant) (w : Wallet)
    → Books w
    → FreshLot g.lot_id w
    → (has_reference g.reference_id w.ledger ≡ true) × (grant_credits g w ≡ w)
      ⊎ (has_reference g.reference_id w.ledger ≡ false) × Granted g.amount w (grant_credits g w)
unfolding grant_credits
grant_credits-Granted g w b f = elim (Bool-cases (has_reference g.reference_id w.ledger)) [
  | inl old ↦ inl (old, rw old)
  | inr new ↦ inr (new, rw new (add_grant-Granted g w b f))
]

-- What the loss of `amount` credits that no job holds must do to a wallet.
pub record Revoked (amount : ℕ) (before after : Wallet) : Type 0 where
  pub books : Books after
  pub balance : balance_of after.account ≡ balance_of before.account -ℤ pos amount
  pub held : held_of after.account ≡ held_of before.account

-- A lot that loses what is not held, and the account that is debited by as much.
module _ (g : Lot → Lot) (drops : (l : Lot) → (g l).remaining ≡ l.held)
    (holds : (l : Lot) → (g l).held ≡ l.held) (same : (l : Lot) → (g l).id ≡ l.id) where
  Covered-drop_unheld :
      (i : ℕ) (rs : List Reservation) (lots : List Lot)
      → All (Covered rs) lots
      → All (Covered rs) (update_lot i g lots)
  Covered-drop_unheld i rs [] h = h
  Covered-drop_unheld i rs (l ∷ lots) h =
      ground (arith, drops l, holds l, same l, Covered-drop_unheld i rs lots h.1)

  Known-drop_unheld :
      (i : ℕ) (lots : List Lot) (rs : List Reservation)
      → All (Known lots) rs
      → All (Known (update_lot i g lots)) rs
  Known-drop_unheld i lots [] h = h
  Known-drop_unheld i lots (r ∷ rs) h =
      (rw (find_lot-update_lot g i r.credit_lot_id lots same) h.0, Known-drop_unheld i lots rs h.1)

  -- The account can pay the whole unheld rest of the lot.
  expire_debit-all :
      (l : Lot) (w : Wallet) (a : Account)
      → Books w
      → w.account ≡ some a
      → find_lot l.id w.lots ≡ some l
      → expire_debit (l.remaining - l.held) a ≡ l.remaining - l.held
  expire_debit-all l w a b account found =
      let balanced : a.balance ≡ pos (remaining_sum w.lots) = rw account at b.balanced in
      let held : a.held ≡ held_sum w.lots = rw account at b.held in
      let before = held_sum-le-remaining_sum w.reservations w.lots b.covered in
      let le =
        held_sum-le-remaining_sum w.reservations (update_lot l.id g w.lots)
          (Covered-drop_unheld l.id w.reservations w.lots b.covered) in
      let sums = sum_by-update_lot (λ l. l.remaining) g l.id l w.lots found in
      let held_sums = sum_by-update_lot (λ l. l.held) g l.id l w.lots found in
      let rest : l.remaining - l.held ≤ remaining_sum w.lots - a.held =
        omega (arith, drops l, holds l) in
      rw (balanced, pos-sub (remaining_sum w.lots) a.held (omega arith)) (omega arith)

  -- What dropping the unheld rest of one lot must do to a wallet.
  pub drop_unheld-Revoked :
      (l : Lot) (w : Wallet) (a : Account) (e : ℕ → Entry)
      → Books w
      → w.account ≡ some a
      → find_lot l.id w.lots ≡ some l
      → let debit = expire_debit (l.remaining - l.held) a in
        Revoked
          (l.remaining - l.held)
          w
          (debit_account a debit (e debit) (record w { lots = update_lot l.id g w.lots }))
  unfolding debit_account
  drop_unheld-Revoked l w a e b account found =
      let balanced : a.balance ≡ pos (remaining_sum w.lots) = rw account at b.balanced in
      let held : a.held ≡ held_sum w.lots = rw account at b.held in
      let cover = All-find_lot (Covered w.reservations) l.id l w.lots b.covered found in
      let sums = sum_by-update_lot (λ l. l.remaining) g l.id l w.lots found in
      let held_sums = sum_by-update_lot (λ l. l.held) g l.id l w.lots found in
      rw (expire_debit-all l w a b account found) (record {
        books = record {
          balanced =
              rw
                (
                  balanced,
                  pos-sub (remaining_sum w.lots) (l.remaining - l.held) (omega (arith, drops l)),
                )
                (ap pos (omega (arith, drops l)));
          held = omega (arith, holds l);
          covered = Covered-drop_unheld l.id w.reservations w.lots b.covered;
          known = Known-drop_unheld l.id w.lots w.reservations b.known;
          distinct = DistinctIds-update_lot g l.id w.lots same b.distinct;
        };
        balance = rw account;
        held = rw account;
      })
