-- ===== src/Credits/Settle.antt =====
-- The end of a hold: `_settle_credit_reservations`, and the credit blocks of `_finish_job` and
-- `_fail_job` (jobs/tasks.py), and of `create_job` where the queue refuses the job.
use render_cart.Prelude.{
  ℕ, zero, suc, ◌-◌, String, Bool, true, false, not, Option, none, some, List, [], ◌∷◌, ◌++◌, ◌==◌,
  if◌then◌else◌, filter_by,
}
use render_cart.Prelude.Int.{ℤ, pos, ◌-ℤ◌}
use render_cart.Credits.{Account, Lot, Reservation, Entry, Wallet, update_lot}

abbrev pub of_job : ℕ → Reservation → Bool
of_job job r = r.job_id == job

abbrev pub not_of_job : ℕ → Reservation → Bool
not_of_job job r = not (of_job job r)

-- `max(0, lot.held - amount)`, and the same of `remaining` if the credits are spent: both
-- subtractions stop at 0.
abbrev pub settle_lot : Bool → ℕ → Lot → Lot
settle_lot spend amount l = record l {
  remaining = if spend then l.remaining - amount else l.remaining;
  held = l.held - amount;
}

-- A reservation whose lot is gone changes nothing.
abbrev pub settle_each : Bool → List Reservation → List Lot → List Lot
settle_each spend [] lots = lots
settle_each spend (r ∷ rs) lots =
    settle_each spend rs (update_lot r.credit_lot_id (settle_lot spend r.amount) lots)

-- Of the reservations of the job, every one is settled and deleted.
unfoldable pub settle_credit_reservations : (spend : Bool) → (job : ℕ) → Wallet → Wallet
settle_credit_reservations spend job w = record w {
  lots = settle_each spend (filter_by (of_job job) w.reservations) w.lots;
  reservations = filter_by (not_of_job job) w.reservations;
}

abbrev pub job_entry : (id job : ℕ) → ℤ → String → Entry
job_entry id job amount kind = record {
  id = id;
  job_id = some job;
  amount = amount;
  kind = kind;
  reference_id = none;
  expires_at = none;
}

abbrev pub spend_account : (ledger_id job cost : ℕ) → Option Account → Wallet → Wallet
spend_account ledger_id job cost none w = w
spend_account ledger_id job cost (some a) w = record w {
  account = some (record { balance = a.balance -ℤ pos cost; held = a.held - cost });
  ledger = w.ledger ++ job_entry ledger_id job (pos 0 -ℤ pos cost) "spend" ∷ [];
}

abbrev pub release_account : (ledger_id job cost : ℕ) → Option Account → Wallet → Wallet
release_account ledger_id job cost none w = w
release_account ledger_id job cost (some a) w = record w {
  account = some (record a { held = a.held - cost });
  ledger = w.ledger ++ job_entry ledger_id job (pos 0) "release" ∷ [];
}

-- `_finish_job`, on the wallet of the job's user: `if job.user_id and cost`.
unfoldable pub finish_credits : (ledger_id job cost : ℕ) → Wallet → Wallet
unfolding settle_credit_reservations
finish_credits ledger_id job zero w = w
finish_credits ledger_id job (suc n) w =
    spend_account ledger_id job (suc n) w.account (settle_credit_reservations true job w)

-- `_fail_job`, and the handler of `create_job` for a queue that is down.
unfoldable pub release_credits : (ledger_id job cost : ℕ) → Wallet → Wallet
unfolding settle_credit_reservations
release_credits ledger_id job zero w = w
release_credits ledger_id job (suc n) w =
    release_account ledger_id job (suc n) w.account (settle_credit_reservations false job w)
