-- ===== src/Credits/Lifecycle.antt =====
-- A job's credits from the hold to the end of the job.
use render_cart.Prelude.{
  ℕ, suc, ◌≤◌, ◌≡◌, refl, ap, inl, inr, ◌∙◌, true, false, List, [], ◌∷◌, arith, filter_by, All,
}
use render_cart.Prelude.Int.{pos, ◌-ℤ◌}
use render_cart.Credits.{Wallet, Reservation, balance_of, held_of, free_sum, usable_lots}
use render_cart.Credits.Reserve.{hold_credits}
use render_cart.Credits.Settle.{of_job, finish_credits, release_credits}
use render_cart.Credits.Sums.{amount_sum}
use render_cart.Credits.Books.{Books}
use render_cart.Credits.Books.Settling.{
  held_by_job, finish_credits-SettlesJob, release_credits-SettlesJob,
}
use render_cart.Credits.Books.Usable.{free_sum-usable_lots}
use render_cart.Credits.Books.Holding.{FreshJob}
use render_cart.Credits.Books.Outcome.{hold_credits-HoldOutcome}
use render_cart.Credits.{ok}

pub fresh_job_amount :
    (job : ℕ) (rs : List Reservation)
    → All (λ r. of_job job r ≡ false) rs
    → amount_sum (filter_by (of_job job) rs) ≡ 0
fresh_job_amount job [] h = refl
fresh_job_amount job (r ∷ rs) h = ground (arith, fresh_job_amount job rs h.1)

-- A wallet after a job that held `cost`: what it was, less the debit.
pub record Ended (debit : ℕ) (before after : Wallet) : Type 0 where
  pub books : Books after
  pub balance : balance_of after.account ≡ balance_of before.account -ℤ pos debit
  pub held : held_of after.account ≡ held_of before.account

-- If the usable lots have the cost free, a new job can hold it; and however the job ends, the
-- held credits return to what they were: a success costs exactly the charge, a failure nothing.
pub hold_then_settle :
    (job hold_id end_id now n : ℕ) (w : Wallet)
    → Books w
    → FreshJob job w
    → suc n ≤ free_sum (usable_lots now w.lots)
    → (v : Wallet) × (hold_credits true job hold_id now (suc n) w ≡ ok v)
      × Ended (suc n) w (finish_credits end_id job (suc n) v)
      × Ended 0 w (release_credits end_id job (suc n) v)
hold_then_settle job hold_id end_id now n w b f enough =
    elim (hold_credits-HoldOutcome job hold_id now n w b f) [
      | inl (v, le, granted, h) ↦
          let reserved : held_by_job job v ≡ suc n =
            omega (arith, h.reserved, fresh_job_amount job w.reservations f) in
          let done = finish_credits-SettlesJob end_id job (suc n) v h.books reserved in
          let failed = release_credits-SettlesJob end_id job (suc n) v h.books reserved in
          (
            v,
            granted,
            record {
              books = done.books;
              balance = done.balance ∙ ap (λ x. x -ℤ pos (suc n)) h.balance;
              held = omega (arith, done.unheld, h.held);
            },
            record {
              books = failed.books;
              balance = failed.balance ∙ ap (λ x. x -ℤ pos 0) h.balance;
              held = omega (arith, failed.unheld, h.held);
            },
          )
      | inr refused ↦ absurd (omega (arith, free_sum-usable_lots now w.lots))
    ]
