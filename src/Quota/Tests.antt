-- ===== src/Quota/Tests.antt =====
-- Runs of the quota functions on the in-memory Redis, and the laws at these inputs.
use text.Mathlib.Text.{◌==◌ as str_eq}
use text.Mathlib.TextEquality.{eq_iff}
use render_cart.Prelude.{ℕ, ◌≡◌, ◌≢◌, refl, String, true, none, some, [], ◌∷◌, arith}
use render_cart.Prelude.Int.{pos, ◌+ℤ◌}
use render_cart.Quota.{value, reserve_counter, reserve_amount, release_amount}
use render_cart.Quota.Windows.{
  take, give_back, run_requests, InWindow, run_requests-InWindow, release_amount-reserve_amount,
}
use render_cart.Quota.Memory.{Keys, memory}

abbrev daily : String
daily = "quota:daily:2026-07-01:u:1:merge-pdf"

abbrev used : ℕ → Keys
used n j = some (pos n)

abbrev no_keys : Keys
no_keys j = none

reserve_counter-third : (reserve_counter memory daily 3 172800 (used 2)).0 ≡ true
unfolding reserve_counter ◌+ℤ◌
reserve_counter-third = refl

abbrev another : String
another = "quota:chat-questions:2026-07-01:u:1"

other_key : daily ≢ another
other_key e = let h : str_eq daily another ≡ true = (eq_iff daily another).1 e in cc

run_requests_example :
    InWindow memory daily 2 60
      (run_requests memory daily 2 60 (take ∷ take ∷ take ∷ give_back ∷ []) (0, no_keys))
run_requests_example =
    run_requests-InWindow memory daily 2 60 (take ∷ take ∷ take ∷ give_back ∷ []) (0, no_keys)
      (record { bounded = omega arith; counted = refl })

release_after_reserve_example :
    value memory daily
      (release_amount memory daily 900 (reserve_amount memory daily 900 1800 60 (used 600)).1)
    ≡ pos 600
unfolding reserve_amount ◌+ℤ◌
release_after_reserve_example =
    release_amount-reserve_amount memory daily 600 900 1800 60 (used 600) refl refl
