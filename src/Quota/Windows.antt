-- ===== src/Quota/Windows.antt =====
-- A quota key over its life: jobs reserve slots on it and failed jobs give theirs back, in any
-- order. The expiry of the key itself is left out: a run is a stretch in which the key lives.
use render_cart.Prelude.{
  ℕ, zero, suc, ◌+◌, ◌≤◌, ◌≡◌, String, Bool, true, List, [], ◌∷◌, if◌then◌else◌, arith,
}
use render_cart.Prelude.Int.{pos}
use render_cart.Quota.{Redis, value, reserve_counter, release_key, reserve_amount, release_amount}
use render_cart.Quota.Laws.{
  reserve_counter_lem, release_key_lem, reserve_amount_lem, release_amount_lem,
}

-- What the jobs of one subject ask of a counter; a job gives back only what it was granted, so
-- a `give_back` with nothing outstanding does not occur and is skipped.
pub data Request : Type 0 where
  take give_back : Request

module _ (redis : Redis) (k : String) (maximum ttl : ℕ) where
  open redis use {Store}

  abbrev granted : Bool → ℕ → ℕ
  granted b n = if b then n + 1 else n

  -- The outstanding grants and the store after a request.
  pub request_step : Request → ℕ × Store → ℕ × Store
  request_step take (n, s) =
      let (ok, s') = reserve_counter redis k maximum ttl s in (granted ok n, s')
  request_step give_back (zero, s) = (zero, s)
  request_step give_back (suc n, s) = (n, release_key redis k s)

  pub run_requests : List Request → ℕ × Store → ℕ × Store
  run_requests [] st = st
  run_requests (r ∷ rs) st = run_requests rs (request_step r st)

  -- The counter is the number of outstanding grants, which keeps to the limit.
  pub record InWindow (st : ℕ × Store) : Type 0 where
    pub bounded : st.0 ≤ maximum
    pub counted : value redis k st.1 ≡ pos st.0

  request_step-InWindow :
      (r : Request) (st : ℕ × Store) → InWindow st → InWindow (request_step r st)
  unfolding request_step
  request_step-InWindow take (n, s) h =
      ground (arith, reserve_counter_lem redis k n maximum ttl s h.counted)
  request_step-InWindow give_back (zero, s) h = h
  request_step-InWindow give_back (suc n, s) h = record {
    bounded = omega arith;
    counted = release_key_lem redis k n s h.counted;
  }

  -- However jobs interleave, the counter is the number of outstanding grants, and never more of
  -- them stand than the limit allows.
  pub run_requests-InWindow :
      (rs : List Request) (st : ℕ × Store) → InWindow st → InWindow (run_requests rs st)
  unfolding run_requests
  run_requests-InWindow [] st h = h
  run_requests-InWindow (r ∷ rs) st h =
      run_requests-InWindow rs (request_step r st) (request_step-InWindow r st h)

-- An amount that was granted and then given back leaves the counter where it was.
pub release_amount-reserve_amount :
    (redis : Redis) (k : String) (n amount maximum ttl : ℕ) (s : redis.Store)
    → value redis k s ≡ pos n
    → (reserve_amount redis k amount maximum ttl s).0 ≡ true
    → value redis k (release_amount redis k amount (reserve_amount redis k amount maximum ttl s).1)
      ≡ pos n
release_amount-reserve_amount redis k n amount maximum ttl s h granted = ground (
  arith,
  reserve_amount_lem redis k n amount maximum ttl s h,
  release_amount_lem redis k (n + amount) amount (reserve_amount redis k amount maximum ttl s).1,
)
