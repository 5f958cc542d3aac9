-- ===== src/Credits/Tests.antt =====
-- A wallet with three lots, runs of the operations on it, and the laws at these inputs.
use render_cart.Prelude.{List, map, ◌≡◌, refl, true, false, none, some, [], ◌∷◌, arith, All}
use render_cart.Prelude.Int.{negsuc, ◌+ℤ◌, pos, ◌-ℤ◌}
use render_cart.Credits.{insert_lot, Lot, Wallet, ok, usable_lots, order_lots}
use render_cart.Credits.Reserve.{
  commit_hold, hold_credits, hold_loop, reserve_dynamic_credits, allocate, with_hold,
}
use render_cart.Credits.Settle.{settle_credit_reservations, finish_credits, release_credits}
use render_cart.Credits.Grant.{
  grant_credits, refund_credits, add_grant, debit_account, Grant, ExpiryNames, expire_credits,
  expirable,
}
use render_cart.Credits.Allocation.{hold_loop-eq-allocate}
use render_cart.Credits.Books.{Books}
use render_cart.Credits.Books.Outcome.{HoldOutcome, hold_credits-HoldOutcome}
use render_cart.Credits.Books.Dynamic.{
  DynamicOutcome, reserve_dynamic_credits-DynamicOutcome, OffBy, finish_after_two_holds,
}
use render_cart.Credits.Books.Granting.{Revoked}
use render_cart.Credits.Books.Expiry.{expire_credits-Revoked}
use render_cart.Credits.Ledger.{Explained}
use render_cart.Credits.Ledger.Histories.{
  Operation, grant, hold, finish, refund, operate_all, operate_all-Explained,
}
use render_cart.Credits.Lifecycle.{Ended, hold_then_settle}

abbrev monthly : Lot
monthly = record {
  id = 1;
  source_ledger_id = 11;
  total = 10;
  remaining = 6;
  held = 2;
  expires_at = some 900;
  created_at = 100;
}

abbrev pack : Lot
pack = record {
  id = 2;
  source_ledger_id = 12;
  total = 50;
  remaining = 50;
  held = 0;
  expires_at = none;
  created_at = 50;
}

abbrev stale : Lot
stale = record {
  id = 3;
  source_ledger_id = 13;
  total = 5;
  remaining = 5;
  held = 0;
  expires_at = some 200;
  created_at = 10;
}

-- Job 7 holds two credits of the monthly lot.
abbrev wallet : Wallet
wallet = record {
  account = some (record { balance = pos 61; held = 2 });
  lots = pack ∷ monthly ∷ stale ∷ [];
  reservations = record { job_id = 7; credit_lot_id = 1; amount = 2 } ∷ [];
  ledger = [];
}

wallet-Books : Books wallet
wallet-Books = record {
  balanced = refl;
  held = refl;
  covered = omega arith;
  known = (refl, tt);
  distinct = omega arith;
}

-- The lot that expires first gives first, and the stale one nothing.
allocate-order : allocate 20 (usable_lots 500 wallet.lots) ≡ ((1, 4) ∷ (2, 16) ∷ [], 0)
unfolding allocate usable_lots order_lots
allocate-order = refl

hold_credits_example : HoldOutcome 8 500 20 wallet (hold_credits true 8 100 500 20 wallet)
hold_credits_example = hold_credits-HoldOutcome 8 100 500 19 wallet wallet-Books (refl, tt)

reserve_dynamic_credits_example :
    DynamicOutcome 8 500 20 0 wallet (reserve_dynamic_credits true 8 100 500 20 0 wallet)
reserve_dynamic_credits_example =
    reserve_dynamic_credits-DynamicOutcome 8 100 500 19 0 wallet wallet-Books (refl, tt)

hold_then_settle_example :
    (v : Wallet) × (hold_credits true 8 100 500 20 wallet ≡ ok v)
    × Ended 20 wallet (finish_credits 101 8 20 v)
    × Ended 0 wallet (release_credits 101 8 20 v)
unfolding usable_lots order_lots
hold_then_settle_example =
    hold_then_settle 8 100 101 500 19 wallet wallet-Books (refl, tt) (omega arith)

-- A wallet whose monthly lot is all held by job 7, so that the second hold takes another lot.
abbrev full : Lot
full = record monthly { held = 6 }

abbrev summarizing : Wallet
summarizing = record {
  account = some (record { balance = pos 56; held = 6 });
  lots = full ∷ pack ∷ [];
  reservations = record { job_id = 7; credit_lot_id = 1; amount = 6 } ∷ [];
  ledger = [];
}

summarizing-Books : Books summarizing
summarizing-Books = record {
  balanced = refl;
  held = refl;
  covered = omega arith;
  known = (refl, tt);
  distinct = omega arith;
}

abbrev summarizing_twice : Wallet
summarizing_twice =
    with_hold 7 100 3 ((2, 3) ∷ []) (record { balance = pos 56; held = 6 }) summarizing

finish_after_two_holds_example : OffBy 6 (finish_credits 101 7 3 summarizing_twice)
unfolding reserve_dynamic_credits allocate usable_lots order_lots ◌-ℤ◌
finish_after_two_holds_example =
    finish_after_two_holds 7 100 101 500 2 6 3 summarizing summarizing_twice summarizing-Books refl
      refl

abbrev bought : Grant
bought = record {
  ledger_id = 20;
  lot_id = 4;
  created_at = 500;
  amount = 25;
  kind = "purchase";
  reference_id = some "credit-pack:pi_1:credits";
  expires_at = none;
}

hold_loop_example : hold_loop 20 (monthly ∷ pack ∷ []) ≡ allocate 20 (monthly ∷ pack ∷ [])
hold_loop_example = hold_loop-eq-allocate 20 (monthly ∷ pack ∷ [])

abbrev expiry_names : ExpiryNames
expiry_names = record { reference = λ lot left. "expire:3:5"; ledger_id = λ lot. 40 }

-- At 950 the monthly lot loses what job 7 does not hold of it, and the stale one everything.
expire_credits_example :
    Revoked 9 wallet (expire_credits expiry_names 950 wallet).0
    × All (λ l. expirable 950 l ≡ false) (expire_credits expiry_names 950 wallet).0.lots
expire_credits_example = expire_credits-Revoked expiry_names 950 wallet wallet-Books

-- A user without an account buys a pack, runs a job, is refused a second one, and is refunded.
abbrev history : List Operation
history =
    grant bought
    ∷ hold true 7 30 600 5
    ∷ hold true 8 31 600 90
    ∷ finish 32 7 5
    ∷ refund "credit-pack:pi_1:credits" "stripe-refund:pi_1" 33 700
    ∷ []

abbrev no_rows : Wallet
no_rows = record { account = none; lots = []; reservations = []; ledger = [] }

operate_all-Explained_example : Explained (operate_all history no_rows)
operate_all-Explained_example = operate_all-Explained history no_rows refl

history-amounts :
    map (λ e. e.amount) (operate_all history no_rows).ledger
    ≡ pos 25 ∷ pos 0 ∷ negsuc 4 ∷ negsuc 19 ∷ []
unfolding hold_credits finish_credits settle_credit_reservations refund_credits grant_credits
    add_grant hold_loop usable_lots order_lots insert_lot commit_hold debit_account ◌-ℤ◌ ◌+ℤ◌
history-amounts = refl
