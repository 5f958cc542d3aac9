-- ===== src/Credits/Reserve.antt =====
-- Holding credits for a job: the block of `create_job` (jobs/router.py), the reservation for a
-- cost that is known only when the inputs are read (`_reserve_dynamic_credits`, jobs/tasks.py),
-- and the single credit of a document question (`create_chat_question`). A raised exception rolls
-- the transaction back, so rows are written only on the path that succeeds.
use render_cart.Prelude.{
  ℕ, zero, ◌-◌, ◌+◌, Bool, true, false, ◌&&◌, Option, none, some, List, [], ◌∷◌, ◌++◌, min, ltb,
  leb, ◌==◌, if◌then◌else◌, any_of,
}
use render_cart.Prelude.Int.{pos, ◌-ℤ◌, ltb_ℤ}
use render_cart.Credits.{
  Account, Lot, Reservation, Entry, Wallet, Result, ok, err, sign_in, not_enough_credits,
  not_enough_unexpired_credits, credits_require_account, insufficient_credits, integrity_error,
  free, update_lot, usable_lots,
}

-- Credits of one lot: its id and the amount.
abbrev pub Share : Type 0
Share = ℕ × ℕ

abbrev pub cons_share : Share → List Share × ℕ → List Share × ℕ
cons_share s (shares, left) = (s ∷ shares, left)

-- The loop of `create_job`: `continue` on a lot that gives nothing, `break` when nothing is left.
unfoldable pub hold_loop : (remaining_cost : ℕ) → List Lot → List Share × ℕ
hold_loop cost [] = ([], cost)
hold_loop cost (l ∷ ls) =
    let allocated = min cost (free l) in
    elim (leb allocated 0) [
      | true ↦ hold_loop cost ls
      | false ↦ elim (cost - allocated == 0) [
        | true ↦ ((l.id, allocated) ∷ [], cost - allocated)
        | false ↦ cons_share (l.id, allocated) (hold_loop (cost - allocated) ls)
      ]
    ]

-- The loop of `_reserve_dynamic_credits`: the test for `break` follows on every round.
unfoldable pub allocate : (remaining : ℕ) → List Lot → List Share × ℕ
allocate cost [] = ([], cost)
allocate cost (l ∷ ls) =
    let amount = min cost (free l) in
    elim (ltb 0 amount) [
      | true ↦ elim (cost - amount == 0) [
        | true ↦ ((l.id, amount) ∷ [], cost - amount)
        | false ↦ cons_share (l.id, amount) (allocate (cost - amount) ls)
      ]
      | false ↦ elim (cost == 0) [ true ↦ ([], cost) | false ↦ allocate cost ls ]
    ]

abbrev pub add_held : ℕ → Lot → Lot
add_held amount l = record l { held = l.held + amount }

-- `lot.held += amount` for each share.
abbrev pub hold_shares : List Share → List Lot → List Lot
hold_shares [] lots = lots
hold_shares ((i, amount) ∷ shares) lots = hold_shares shares (update_lot i (add_held amount) lots)

abbrev pub reservation_rows : ℕ → List Share → List Reservation
reservation_rows job [] = []
reservation_rows job ((i, amount) ∷ shares) =
    record { job_id = job; credit_lot_id = i; amount = amount } ∷ reservation_rows job shares

abbrev pub same_key : Reservation → Reservation → Bool
same_key a b = a.job_id == b.job_id && a.credit_lot_id == b.credit_lot_id

-- A new row has the primary key of an old one.
abbrev pub clashes : List Reservation → List Reservation → Bool
clashes rows old = any_of (λ r. any_of (same_key r) old) rows

abbrev pub hold_entry : ℕ → ℕ → Entry
hold_entry id job = record {
  id = id;
  job_id = some job;
  amount = pos 0;
  kind = "hold";
  reference_id = none;
  expires_at = none;
}

-- The rows that a hold writes.
abbrev pub with_hold : (job ledger_id cost : ℕ) → List Share → Account → Wallet → Wallet
with_hold job ledger_id cost shares a w = record w {
  account = some (record a { held = a.held + cost });
  lots = hold_shares shares w.lots;
  reservations = w.reservations ++ reservation_rows job shares;
  ledger = w.ledger ++ hold_entry ledger_id job ∷ [];
}

-- The commit of a hold: here the primary key of the reservations is checked. The new rows are of
-- distinct lots, so they can clash with old rows only.
unfoldable pub commit_hold :
    (job ledger_id cost : ℕ) → List Share → Account → Wallet → Result Wallet
commit_hold job ledger_id cost shares a w =
    if clashes (reservation_rows job shares) w.reservations
    then err integrity_error
    else ok (with_hold job ledger_id cost shares a w)

-- `account.balance - account.held < cost`
abbrev pub short_of : ℕ → Account → Bool
short_of cost a = ltb_ℤ (a.balance -ℤ pos a.held) (pos cost)

-- The credit block of `create_job`, for a caller who is signed in or not.
unfoldable pub hold_credits :
    (signed_in : Bool) → (job ledger_id now cost : ℕ) → Wallet → Result Wallet
unfolding commit_hold
hold_credits signed_in job ledger_id now zero w = ok w
hold_credits false job ledger_id now cost w = err sign_in
hold_credits true job ledger_id now cost w = elim w.account [
  | none ↦ err not_enough_credits
  | some a ↦
      let (shares, left) = hold_loop cost (usable_lots now w.lots) in
      if short_of cost a
      then err not_enough_credits
      else if left == 0
      then commit_hold job ledger_id cost shares a w
      else err not_enough_unexpired_credits
]

-- `job.charged_credits = cost`, kept only if the transaction is.
abbrev pub charge : (cost charged : ℕ) → Result Wallet → Result Wallet × ℕ
charge cost charged (ok v) = (ok v, cost)
charge cost charged (err e) = (err e, charged)

-- `_reserve_dynamic_credits`; the new `job.charged_credits` comes beside the wallet.
unfoldable pub reserve_dynamic_credits :
    (has_user : Bool) → (job ledger_id now cost charged : ℕ) → Wallet → Result Wallet × ℕ
unfolding commit_hold
reserve_dynamic_credits has_user job ledger_id now zero charged w = (ok w, charged)
reserve_dynamic_credits false job ledger_id now cost charged w =
    (err credits_require_account, charged)
reserve_dynamic_credits true job ledger_id now cost charged w = elim w.account [
  | none ↦ (err insufficient_credits, charged)
  | some a ↦
      let (shares, left) = allocate cost (usable_lots now w.lots) in
      if short_of cost a
      then (err insufficient_credits, charged)
      else if left == 0
      then charge cost charged (commit_hold job ledger_id cost shares a w)
      else (err insufficient_credits, charged)
]

-- The lot that the question of a document chat is charged to.
unfoldable pub first_free : List Lot → Option Lot
first_free [] = none
first_free (l ∷ ls) = if ltb 0 (l.remaining - l.held) then some l else first_free ls

-- The credit block of `create_chat_question`, for a paid caller: one credit.
unfoldable pub hold_question_credit : (job ledger_id now : ℕ) → Wallet → Result Wallet
unfolding commit_hold
hold_question_credit job ledger_id now w = elim w.account [
  | none ↦ err not_enough_credits
  | some a ↦
      if short_of 1 a then err not_enough_credits else elim (first_free (usable_lots now w.lots)) [
        | none ↦ err not_enough_unexpired_credits
        | some l ↦ commit_hold job ledger_id 1 ((l.id, 1) ∷ []) a w
      ]
]
