-- ===== src/Credits/Books/Outcome.antt =====
-- Every outcome of taking a hold, by what the lots have free.
use render_cart.Prelude.{
  ℕ, suc, ◌≤◌, ◌<◌, ◌≡◌, ◌⊎◌, inl, inr, true, none, some, arith, ◌==◌, leb, if◌then◌else◌,
  Option-cases, Bool-cases,
}
use render_cart.Credits.{
  Account, Wallet, Result, ok, err, not_enough_credits, not_enough_unexpired_credits,
  insufficient_credits, free_sum, usable_lots,
}
use render_cart.Credits.Reserve.{
  allocate, commit_hold, with_hold, short_of, hold_credits, reserve_dynamic_credits, charge,
}
use render_cart.Credits.Allocation.{allocate_sums, hold_loop-eq-allocate}
use render_cart.Credits.Books.{Books}
use render_cart.Credits.Books.Usable.{free_sum-usable_lots}
use render_cart.Credits.Books.Holding.{
  HoldsJob, shares_of, allocated-HoldsJob, free_sum-add-held_sum, short_of-free_sum, FreshJob,
  fresh_rows,
}

pub commit_fresh :
    (job ledger_id now cost : ℕ) (a : Account) (w : Wallet)
    → FreshJob job w
    → commit_hold job ledger_id cost (shares_of now cost w) a w
      ≡ ok (with_hold job ledger_id cost (shares_of now cost w) a w)
unfolding commit_hold
commit_fresh job ledger_id now cost a w f =
    rw (fresh_rows job (shares_of now cost w) w.reservations f)

pub no_account_no_credits : (w : Wallet) → Books w → w.account ≡ none → free_sum w.lots ≡ 0
no_account_no_credits w b e =
    ground (arith, b.balanced, free_sum-add-held_sum w.reservations w.lots b.covered)

module _ (job ledger_id now n : ℕ) (w : Wallet) where
  hold_credits-some :
      (a : Account)
      → w.account ≡ some a
      → hold_credits true job ledger_id now (suc n) w ≡ (
          if short_of (suc n) a
          then err not_enough_credits
          else if (allocate (suc n) (usable_lots now w.lots)).1 == 0
          then commit_hold job ledger_id (suc n) (shares_of now (suc n) w) a w
          else err not_enough_unexpired_credits)
  unfolding hold_credits
  hold_credits-some a e = rw (e, hold_credits, hold_loop-eq-allocate)

  hold_credits-none :
      w.account ≡ none → hold_credits true job ledger_id now (suc n) w ≡ err not_enough_credits
  unfolding hold_credits
  hold_credits-none e = rw (e, hold_credits)

  pub reserve_dynamic-some :
      (a : Account) (charged : ℕ)
      → w.account ≡ some a
      → reserve_dynamic_credits true job ledger_id now (suc n) charged w ≡ (
          if short_of (suc n) a
          then (err insufficient_credits, charged)
          else if (allocate (suc n) (usable_lots now w.lots)).1 == 0
          then charge
              (suc n)
              charged
              (commit_hold job ledger_id (suc n) (shares_of now (suc n) w) a w)
          else (err insufficient_credits, charged))
  unfolding reserve_dynamic_credits
  reserve_dynamic-some a charged e = rw (e, reserve_dynamic_credits)

  pub reserve_dynamic-none :
      (charged : ℕ)
      → w.account ≡ none
      → reserve_dynamic_credits true job ledger_id now (suc n) charged w
        ≡ (err insufficient_credits, charged)
  unfolding reserve_dynamic_credits
  reserve_dynamic-none charged e = rw (e, reserve_dynamic_credits)

-- How `create_job` answers a cost: by the credits that are free, and those that are free in lots
-- that have not expired.
abbrev pub HoldOutcome : (job now cost : ℕ) → Wallet → Result Wallet → Type 0
HoldOutcome job now cost w r =
    ((v : Wallet) × (cost ≤ free_sum (usable_lots now w.lots)) × (r ≡ ok v) × HoldsJob job cost w v)
    ⊎ ((free_sum (usable_lots now w.lots) < cost)
        × (cost ≤ free_sum w.lots)
        × (r ≡ err not_enough_unexpired_credits))
    ⊎ ((free_sum w.lots < cost) × (r ≡ err not_enough_credits))

hold_some :
    (job ledger_id now n : ℕ) (a : Account) (w : Wallet)
    → Books w
    → FreshJob job w
    → w.account ≡ some a
    → HoldOutcome job now (suc n) w (hold_credits true job ledger_id now (suc n) w)
hold_some job ledger_id now n a w b f e =
    let sums = allocate_sums (suc n) (usable_lots now w.lots) in
    let usable_le = free_sum-usable_lots now w.lots in
    rw
      (
        hold_credits-some job ledger_id now n w a e,
        short_of-free_sum (suc n) a w b e,
        commit_fresh job ledger_id now (suc n) a w f,
      )
      (elim (Bool-cases (leb (suc n) (free_sum (usable_lots now w.lots)))) [
        | inl enough ↦
            let le : suc n ≤ free_sum (usable_lots now w.lots) = ground arith in
            inl (
              with_hold job ledger_id (suc n) (shares_of now (suc n) w) a w,
              le,
              ground arith,
              allocated-HoldsJob job ledger_id now (suc n) a w b e le,
            )
        | inr short ↦ inr (ground arith)
      ])

-- With sound books a hold is granted exactly when the unexpired lots have the cost free; then the
-- cost is held for the job and nothing is spent. Else the error says whether it was the total or
-- the expiry that fell short, and nothing changes.
pub hold_credits-HoldOutcome :
    (job ledger_id now n : ℕ) (w : Wallet)
    → Books w
    → FreshJob job w
    → HoldOutcome job now (suc n) w (hold_credits true job ledger_id now (suc n) w)
hold_credits-HoldOutcome job ledger_id now n w b f = elim (Option-cases w.account) [
  | inl e ↦
      let empty = no_account_no_credits w b e in
      inr (inr (omega arith, hold_credits-none job ledger_id now n w e))
  | inr (a, e) ↦ hold_some job ledger_id now n a w b f e
]
