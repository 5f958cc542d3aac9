-- ===== src/Upkeep/Cleaned.antt =====
-- What `cleanup_expired` (backend/src/rendercart/jobs/tasks.py) leaves.
use render_cart.Prelude.{◌≡◌, refl, inl, inr, false, String, List, [], ◌∷◌, All, Bool-cases}
use render_cart.Quota.{Redis}
use render_cart.Jobs.{Job, JobState}
use render_cart.Jobs.States.{fail_job-Failed}
use render_cart.Upkeep.{Rows, Upkeep, desk_of, fail_row}
use render_cart.Upkeep.Cleaning.{
  fail_turn, is_stale, is_abandoned, is_expired, cancel, cancel_abandoned, fail_stale,
  delete_expired, delete_job, delete_documents, cleanup_expired, expire_purchases,
}

module _ (run : Upkeep) where
  -- Nothing is left to do for a job: it is not awaiting a payment beyond its time, not active beyond
  -- its time limit, and not kept beyond its retention.
  pub record Clean (j : Job) : Type 0 where
    pub paid_in_time : is_abandoned run.now j ≡ false
    pub in_time : is_stale run j ≡ false
    pub retained : is_expired run.now j ≡ false

  abbrev Waits : Job → Type 0
  Waits j = is_abandoned run.now j ≡ false

  abbrev Works : Job → Type 0
  Works j = (is_abandoned run.now j ≡ false) × (is_stale run j ≡ false)

  cancel-Waits : (j : Job) → Waits (cancel run.now j)
  unfolding is_abandoned
  cancel-Waits j = refl

  failed-Works : (j : Job) → j.state ≡ JobState.failed → Works j
  unfolding is_abandoned is_stale
  failed-Works j e = (rw e refl, rw e refl)

module _ (redis : Redis) (run : Upkeep) where
  cancel_abandoned-Waits :
      (js : List Job) (r : Rows redis) → All (Waits run) (cancel_abandoned redis run js r).0
  unfolding cancel_abandoned
  cancel_abandoned-Waits [] r = tt
  cancel_abandoned-Waits (j ∷ js) r = elim (Bool-cases (is_abandoned run.now j)) [
    | inl gone ↦ rw gone (
      cancel-Waits run j,
      cancel_abandoned-Waits js (record r { purchases = expire_purchases j.id r.purchases }),
    )
    | inr kept ↦ rw kept (kept, cancel_abandoned-Waits js r)
  ]

  fail_row-Works :
      (code : String) (j : Job) (r : Rows redis) → Works run (fail_row redis run code j r).0
  unfolding fail_row
  fail_row-Works code j r =
      failed-Works run _ (fail_job-Failed (run.ending j) code (desk_of redis j r))

  fail_stale-Works :
      (js : List Job) (r : Rows redis)
      → All (Waits run) js
      → All (Works run) (fail_stale redis run js r).0
  unfolding fail_stale
  fail_stale-Works [] r h = tt
  fail_stale-Works (j ∷ js) r h = elim (Bool-cases (is_stale run j)) [
    | inl old ↦
        let failing = fail_row redis run "worker_timeout" j (fail_turn redis run j r) in
        rw old (
          fail_row-Works "worker_timeout" j (fail_turn redis run j r),
          fail_stale-Works js failing.1 h.1,
        )
    | inr young ↦ rw young ((h.0, young), fail_stale-Works js r h.1)
  ]

  delete_expired-Clean :
      (js : List Job) (r : Rows redis)
      → All (Works run) js
      → All (Clean run) (delete_expired redis run js r).0
  unfolding delete_expired
  delete_expired-Clean [] r h = tt
  delete_expired-Clean (j ∷ js) r h = elim (Bool-cases (is_expired run.now j)) [
    | inl old ↦ rw old (delete_expired-Clean js (delete_job redis j r) h.1)
    | inr kept ↦ rw kept (
      record { paid_in_time = h.0.0; in_time = h.0.1; retained = kept },
      delete_expired-Clean js r h.1,
    )
  ]

  -- Every job ends: after a run of the cleanup no job is left that awaits its payment after its
  -- expiry, is queued or running a minute beyond the time its tool may take (or without a tool), or
  -- is over and beyond its retention, by the clock of the run.
  pub cleanup_expired-Clean :
      (js : List Job) (r : Rows redis) → All (Clean run) (cleanup_expired redis run js r).0
  unfolding cleanup_expired
  cleanup_expired-Clean js r =
      let first = cancel_abandoned redis run js (delete_documents redis run r) in
      let second = fail_stale redis run first.0 first.1 in
      delete_expired-Clean second.0 second.1 (
        fail_stale-Works first.0 first.1 (cancel_abandoned-Waits js (delete_documents redis run r)))
