-- ===== src/Credits/Books/Holding.antt =====
-- Taking a hold keeps the books, and succeeds exactly when the usable lots have the cost free.
use render_cart.Prelude.{
  ℕ, ◌+◌, ◌≤◌, ◌≡◌, refl, sym, ap, ◌∙◌, false, some, List, [], ◌∷◌, ◌++◌, arith, ltb, All,
  filter_by, All-append, All-append_left, All-append_right, any_of,
}
use render_cart.Prelude.Int.{pos, pos-sub}
use render_cart.Credits.{
  Account, Lot, Reservation, Wallet, free_sum, remaining_sum, held_sum, usable_lots, balance_of,
  held_of,
}
use render_cart.Credits.Sums.{amount_sum}
use render_cart.Credits.Reserve.{
  Share, allocate, reservation_rows, with_hold, short_of, clashes, same_key,
}
use render_cart.Credits.Settle.{of_job}
use render_cart.Credits.Allocation.{share_sum, allocate_sums}
use render_cart.Credits.Books.{Covered, Known, Books, reserved_on-append, Covered-same}
use render_cart.Credits.Books.Shares.{Holdable, hold_shares-Held}
use render_cart.Credits.Books.Usable.{allocate-Holdable}
use render_cart.Credits.Books.Settling.{held_by_job}

-- What a granted hold of `cost` for a job must do to a wallet.
pub record HoldsJob (job cost : ℕ) (before after : Wallet) : Type 0 where
  pub books : Books after
  pub balance : balance_of after.account ≡ balance_of before.account
  pub held : held_of after.account ≡ held_of before.account + cost
  pub reserved : held_by_job job after ≡ held_by_job job before + cost

held_by_job-append :
    (job : ℕ) (rs : List Reservation) (shares : List Share)
    → amount_sum (filter_by (of_job job) (rs ++ reservation_rows job shares))
      ≡ amount_sum (filter_by (of_job job) rs) + share_sum shares
held_by_job-append job [] [] = refl
held_by_job-append job [] ((i, n) ∷ shares) = ground (arith, held_by_job-append job [] shares)
held_by_job-append job (r ∷ rs) shares = ground (arith, held_by_job-append job rs shares)

Covered-append_comm :
    (xs ys : List Reservation) (lots : List Lot)
    → All (Covered (xs ++ ys)) lots
    → All (Covered (ys ++ xs)) lots
Covered-append_comm xs ys lots =
    Covered-same (xs ++ ys) (ys ++ xs) lots
      λ i. omega (arith, reserved_on-append i xs ys, reserved_on-append i ys xs)

All-append_comm :
    (lots : List Lot) (xs ys : List Reservation)
    → All (Known lots) (xs ++ ys)
    → All (Known lots) (ys ++ xs)
All-append_comm lots xs ys h =
    All-append (Known lots) ys xs (All-append_right (Known lots) xs ys h)
      (All-append_left (Known lots) xs ys h)

with_hold-HoldsJob :
    (job ledger_id cost : ℕ) (shares : List Share) (a : Account) (w : Wallet)
    → Books w
    → w.account ≡ some a
    → Holdable shares w.lots
    → share_sum shares ≡ cost
    → HoldsJob job cost w (with_hold job ledger_id cost shares a w)
with_hold-HoldsJob job ledger_id cost shares a w b e h s =
    let rows = reservation_rows job shares in
    let held = hold_shares-Held job shares w.reservations w.lots h b.covered b.known b.distinct in
    let balanced : a.balance ≡ pos (remaining_sum w.lots) = rw e at b.balanced in
    let held_before : a.held ≡ held_sum w.lots = rw e at b.held in
    record {
      books = record {
        balanced = balanced ∙ ap pos (sym held.remaining);
        held = omega (arith, held.held);
        covered = Covered-append_comm rows w.reservations _ held.covered;
        known = All-append_comm _ rows w.reservations held.known;
        distinct = held.distinct;
      };
      balance = rw e;
      held = rw e;
      reserved = omega (arith, held_by_job-append job w.reservations shares);
    }

abbrev pub shares_of : (now cost : ℕ) → Wallet → List Share
shares_of now cost w = (allocate cost (usable_lots now w.lots)).0

pub allocated-HoldsJob :
    (job ledger_id now cost : ℕ) (a : Account) (w : Wallet)
    → Books w
    → w.account ≡ some a
    → cost ≤ free_sum (usable_lots now w.lots)
    → HoldsJob job cost w (with_hold job ledger_id cost (shares_of now cost w) a w)
allocated-HoldsJob job ledger_id now cost a w b e enough =
    with_hold-HoldsJob job ledger_id cost (shares_of now cost w) a w b e
      (allocate-Holdable now cost w.lots b.distinct)
      (omega (arith, allocate_sums cost (usable_lots now w.lots)))

pub free_sum-add-held_sum :
    (rs : List Reservation) (lots : List Lot)
    → All (Covered rs) lots
    → free_sum lots + held_sum lots ≡ remaining_sum lots
free_sum-add-held_sum rs [] h = omega arith
free_sum-add-held_sum rs (l ∷ lots) h = omega (arith, free_sum-add-held_sum rs lots h.1)

-- In a wallet with sound books the test of the balance is a test of the free credits.
pub short_of-free_sum :
    (cost : ℕ) (a : Account) (w : Wallet)
    → Books w
    → w.account ≡ some a
    → short_of cost a ≡ ltb (free_sum w.lots) cost
short_of-free_sum cost a w b e =
    let balanced : a.balance ≡ pos (remaining_sum w.lots) = rw e at b.balanced in
    let held : a.held ≡ held_sum w.lots = rw e at b.held in
    let sums = free_sum-add-held_sum w.reservations w.lots b.covered in
    rw (balanced, pos-sub (remaining_sum w.lots) a.held (omega arith)) (ground arith)

-- The job has no reservation yet: its id is a fresh UUID.
abbrev pub FreshJob : ℕ → Wallet → Type 0
FreshJob job w = All (λ r. of_job job r ≡ false) w.reservations

fresh_row :
    (job : ℕ) (r : Reservation) (old : List Reservation)
    → r.job_id ≡ job
    → All (λ r. of_job job r ≡ false) old
    → any_of (same_key r) old ≡ false
fresh_row job r [] e h = refl
fresh_row job r (o ∷ old) e h = ground (arith, fresh_row job r old e h.1)

pub fresh_rows :
    (job : ℕ) (shares : List Share) (old : List Reservation)
    → All (λ r. of_job job r ≡ false) old
    → clashes (reservation_rows job shares) old ≡ false
fresh_rows job [] old h = refl
fresh_rows job ((i, n) ∷ shares) old h = ground (
  arith,
  fresh_row job (record { job_id = job; credit_lot_id = i; amount = n }) old refl h,
  fresh_rows job shares old h,
)
