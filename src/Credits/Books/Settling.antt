-- ===== src/Credits/Books/Settling.antt =====
-- Settling a job's reservations keeps the books.
use render_cart.Prelude.{
  ℕ, zero, suc, ◌+◌, ◌≡◌, refl, sym, inl, inr, Bool, true, false, Option, none, some, List, [], ◌∷◌,
  ◌++◌, arith, if◌then◌else◌, All, filter_by, Option-cases,
}
use render_cart.Prelude.Int.{pos, ◌-ℤ◌, pos-sub, int_laws}
use render_cart.Credits.{
  Account, Lot, Reservation, Wallet, balance_of, held_of, remaining_sum, held_sum, find_lot,
  update_lot,
}
use render_cart.Credits.Sums.{
  amount_sum, DistinctIds, sum_by-update_lot, find_lot-update_lot, find_lot-id,
  DistinctIds-update_lot,
}
use render_cart.Credits.Settle.{
  of_job, not_of_job, settle_lot, settle_each, settle_credit_reservations, spend_account,
  release_account, finish_credits, release_credits,
}
use render_cart.Credits.Books.{Covered, Known, Books, All-find_lot, reserved_on-split, Covered-same}

settle_lot-id : (spend : Bool) (n : ℕ) (l : Lot) → (settle_lot spend n l).id ≡ l.id
settle_lot-id spend n l = refl

Covered-drop :
    (r : Reservation) (rs : List Reservation) (lots : List Lot)
    → All (Covered (r ∷ rs)) lots
    → All (Covered rs) lots
Covered-drop r rs [] h = h
Covered-drop r rs (l ∷ lots) h = ((omega arith, omega arith), Covered-drop r rs lots h.1)

-- One settled reservation is no longer in the way.
Covered-settle_lot :
    (spend : Bool) (r : Reservation) (rs : List Reservation) (lots : List Lot)
    → All (Covered (r ∷ rs)) lots
    → All (Covered rs) (update_lot r.credit_lot_id (settle_lot spend r.amount) lots)
Covered-settle_lot spend r rs [] h = h
Covered-settle_lot spend r rs (l ∷ lots) h =
    ground (arith, Covered-drop r rs lots h.1, Covered-settle_lot spend r rs lots h.1)

Known-settle_lot :
    (spend : Bool) (n i : ℕ) (lots : List Lot) (rs : List Reservation)
    → All (Known lots) rs
    → All (Known (update_lot i (settle_lot spend n) lots)) rs
Known-settle_lot spend n i lots [] h = h
Known-settle_lot spend n i lots (r ∷ rs) h = (
  rw (find_lot-update_lot (settle_lot spend n) i r.credit_lot_id lots (settle_lot-id spend n)) h.0,
  Known-settle_lot spend n i lots rs h.1,
)

abbrev pub spent : Bool → ℕ → ℕ
spent spend n = if spend then n else 0

-- What settling a list of reservations takes from the lots.
pub record Settled (spend : Bool) (rs others : List Reservation) (lots after : List Lot)
    : Type 0 where
  pub held : held_sum after + amount_sum rs ≡ held_sum lots
  pub remaining : remaining_sum after + spent spend (amount_sum rs) ≡ remaining_sum lots
  pub covered : All (Covered others) after
  pub known : All (Known after) others
  pub distinct : DistinctIds after

settle_step_sums :
    (spend : Bool) (r : Reservation) (rs : List Reservation) (lots : List Lot)
    → All (Covered (r ∷ rs)) lots
    → Known lots r
    → let after = update_lot r.credit_lot_id (settle_lot spend r.amount) lots in
      (held_sum after + r.amount ≡ held_sum lots)
      × (remaining_sum after + spent spend r.amount ≡ remaining_sum lots)
settle_step_sums spend r rs lots h k = elim (Option-cases (find_lot r.credit_lot_id lots)) [
  | inl gone ↦ ground arith
  | inr (l, found) ↦
      let c = All-find_lot (Covered (r ∷ rs)) r.credit_lot_id l lots h found in
      let same = find_lot-id r.credit_lot_id l lots found in
      ground (
        arith,
        c,
        same,
        sum_by-update_lot (λ l. l.held) (settle_lot spend r.amount) r.credit_lot_id l lots found,
        sum_by-update_lot (λ l. l.remaining) (settle_lot spend r.amount) r.credit_lot_id l lots
            found,
      )
]

settle_each-Settled :
    (spend : Bool) (rs others : List Reservation) (lots : List Lot)
    → All (Covered (rs ++ others)) lots
    → All (Known lots) rs
    → All (Known lots) others
    → DistinctIds lots
    → Settled spend rs others lots (settle_each spend rs lots)
settle_each-Settled spend [] others lots c k o d = record {
  held = omega arith;
  remaining = ground arith;
  covered = c;
  known = o;
  distinct = d;
}
settle_each-Settled spend (r ∷ rs) others lots c k o d =
    let step = settle_step_sums spend r (rs ++ others) lots c k.0 in
    let i = r.credit_lot_id in
    let rest =
      settle_each-Settled spend rs others (update_lot i (settle_lot spend r.amount) lots)
        (Covered-settle_lot spend r (rs ++ others) lots c)
        (Known-settle_lot spend r.amount i lots rs k.1)
        (Known-settle_lot spend r.amount i lots others o)
        (DistinctIds-update_lot (settle_lot spend r.amount) i lots (settle_lot-id spend r.amount)
          d) in
    record {
      held = omega (arith, step.0, rest.held);
      remaining = ground (arith, step.1, rest.remaining);
      covered = rest.covered;
      known = rest.known;
      distinct = rest.distinct;
    }

Known-filter :
    (p : Reservation → Bool) (lots : List Lot) (rs : List Reservation)
    → All (Known lots) rs
    → All (Known lots) (filter_by p rs)
Known-filter p lots [] h = h
Known-filter p lots (r ∷ rs) h = ground (arith, Known-filter p lots rs h.1)

-- The credits that a job holds.
abbrev pub held_by_job : ℕ → Wallet → ℕ
held_by_job job w = amount_sum (filter_by (of_job job) w.reservations)

abbrev pub settled_lots : Bool → ℕ → Wallet → List Lot
settled_lots spend job w = settle_each spend (filter_by (of_job job) w.reservations) w.lots

pub settle_job-Settled :
    (spend : Bool) (job : ℕ) (w : Wallet)
    → Books w
    → Settled spend
        (filter_by (of_job job) w.reservations)
        (filter_by (not_of_job job) w.reservations)
        w.lots
        (settled_lots spend job w)
settle_job-Settled spend job w b =
    let mine = filter_by (of_job job) w.reservations in
    let others = filter_by (not_of_job job) w.reservations in
    settle_each-Settled spend mine others w.lots
      (Covered-same w.reservations (mine ++ others) w.lots
        (λ i. sym (reserved_on-split i (of_job job) w.reservations)) b.covered)
      (Known-filter (of_job job) w.lots w.reservations b.known)
      (Known-filter (not_of_job job) w.lots w.reservations b.known) b.distinct

no_reservation_left :
    (job : ℕ) (rs : List Reservation)
    → amount_sum (filter_by (of_job job) (filter_by (not_of_job job) rs)) ≡ 0
no_reservation_left job [] = refl
no_reservation_left job (r ∷ rs) = ground (arith, no_reservation_left job rs)

-- What the end of a job must do to a wallet from which it has charged `cost`.
pub record SettlesJob (job cost debit : ℕ) (before after : Wallet) : Type 0 where
  pub books : Books after
  pub balance : balance_of after.account ≡ balance_of before.account -ℤ pos debit
  pub unheld : held_of after.account + cost ≡ held_of before.account
  pub released : held_by_job job after ≡ 0

-- The account's part of a settlement, on the lots that are settled already.
spend_account-SettlesJob :
    (ledger_id job n : ℕ) (o : Option Account) (w v : Wallet)
    → w.account ≡ o
    → Books w
    → held_by_job job v ≡ 0
    → remaining_sum v.lots + suc n ≡ remaining_sum w.lots
    → held_sum v.lots + suc n ≡ held_sum w.lots
    → All (Covered v.reservations) v.lots × All (Known v.lots) v.reservations × DistinctIds v.lots
    → SettlesJob job (suc n) (suc n) w (spend_account ledger_id job (suc n) o v)
spend_account-SettlesJob ledger_id job n none w v e b none_left er eh rest =
    absurd (ground (arith, b.held))
spend_account-SettlesJob ledger_id job n (some a) w v e b none_left er eh rest =
    let balanced : a.balance ≡ pos (remaining_sum w.lots) = rw e at b.balanced in
    let held : a.held ≡ held_sum w.lots = rw e at b.held in
    record {
      books = record {
        balanced =
            rw (balanced, pos-sub (remaining_sum w.lots) (suc n) (omega arith)) (ground arith);
        held = omega arith;
        covered = rest.0;
        known = rest.1;
        distinct = rest.2;
      };
      balance = rw e;
      unheld = rw e (omega arith);
      released = none_left;
    }

release_account-SettlesJob :
    (ledger_id job n : ℕ) (o : Option Account) (w v : Wallet)
    → w.account ≡ o
    → Books w
    → held_by_job job v ≡ 0
    → remaining_sum v.lots ≡ remaining_sum w.lots
    → held_sum v.lots + suc n ≡ held_sum w.lots
    → All (Covered v.reservations) v.lots × All (Known v.lots) v.reservations × DistinctIds v.lots
    → SettlesJob job (suc n) 0 w (release_account ledger_id job (suc n) o v)
release_account-SettlesJob ledger_id job n none w v e b none_left er eh rest =
    absurd (ground (arith, b.held))
release_account-SettlesJob ledger_id job n (some a) w v e b none_left er eh rest =
    let balanced : a.balance ≡ pos (remaining_sum w.lots) = rw e at b.balanced in
    let held : a.held ≡ held_sum w.lots = rw e at b.held in
    record {
      books = record {
        balanced = rw (balanced, er) refl;
        held = omega arith;
        covered = rest.0;
        known = rest.1;
        distinct = rest.2;
      };
      balance = rw e (omega int_laws);
      unheld = rw e (omega arith);
      released = none_left;
    }

-- A job that succeeds spends what it holds: the balance and the lots fall by the charge, the
-- hold is gone, and the account still agrees with the lots.
pub finish_credits-SettlesJob :
    (ledger_id job cost : ℕ) (w : Wallet)
    → Books w
    → held_by_job job w ≡ cost
    → SettlesJob job cost cost w (finish_credits ledger_id job cost w)
unfolding finish_credits
finish_credits-SettlesJob ledger_id job zero w b e = record {
  books = b;
  balance = omega int_laws;
  unheld = omega arith;
  released = e;
}
finish_credits-SettlesJob ledger_id job (suc n) w b e =
    let s = settle_job-Settled true job w b in
    spend_account-SettlesJob ledger_id job n w.account w (settle_credit_reservations true job w)
      refl b (no_reservation_left job w.reservations) (omega (arith, s.remaining, e))
      (omega (arith, s.held, e)) (s.covered, s.known, s.distinct)

-- A job that fails gives back what it holds: the balance and the lots keep their credits, the
-- hold is gone, and the account still agrees with the lots.
pub release_credits-SettlesJob :
    (ledger_id job cost : ℕ) (w : Wallet)
    → Books w
    → held_by_job job w ≡ cost
    → SettlesJob job cost 0 w (release_credits ledger_id job cost w)
unfolding release_credits
release_credits-SettlesJob ledger_id job zero w b e = record {
  books = b;
  balance = omega int_laws;
  unheld = omega arith;
  released = e;
}
release_credits-SettlesJob ledger_id job (suc n) w b e =
    let s = settle_job-Settled false job w b in
    release_account-SettlesJob ledger_id job n w.account w (settle_credit_reservations false job w)
      refl b (no_reservation_left job w.reservations) (omega (arith, s.remaining))
      (omega (arith, s.held, e)) (s.covered, s.known, s.distinct)
