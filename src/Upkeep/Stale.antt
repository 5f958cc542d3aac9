-- ===== src/Upkeep/Stale.antt =====
-- How `cleanup_expired` (backend/src/rendercart/jobs/tasks.py) treats a job that waited for its
-- payment (`_fulfill_purchase` of billing/router.py).
use render_cart.Prelude.{ℕ, ◌+◌, ◌≤◌, ◌≡◌, refl, true, some, [], ◌∷◌, length, arith}
use render_cart.Quota.{Redis}
use render_cart.Registry.{ToolManifest}
use render_cart.Batch.{execution_timeout}
use render_cart.Billing.{Call}
use render_cart.Billing.Checkout.{enqueue}
use render_cart.Jobs.{Job, JobState}
use render_cart.Jobs.States.{fail_job-Failed}
use render_cart.Upkeep.{Rows, Upkeep, desk_of, fail_row}
use render_cart.Upkeep.Cleaning.{fail_turn, is_stale, fail_stale}

module _ (run : Upkeep) (c : Call) (j : Job) (tool : ToolManifest)
    (known : run.registry j.tool_slug ≡ some tool) where
  abbrev pub timeout : ℕ
  timeout = execution_timeout tool (length j.input_upload_ids) j.options.batch_mode

  enqueue-stale : j.created_at + (timeout + 60) ≤ run.now → is_stale run (enqueue c j) ≡ true
  unfolding is_stale
  enqueue-stale late = rw known (ground (arith, late))

  -- A job that is paid later than its tool's time limit and a minute after its creation fails at the
  -- next cleanup, if that comes before the worker: its time counts from the creation, not from the
  -- payment that queues it.
  pub fail_stale-paid :
      (redis : Redis) (r : Rows redis)
      → j.created_at + (timeout + 60) ≤ run.now
      → (x : Job) × ((fail_stale redis run (enqueue c j ∷ []) r).0 ≡ x ∷ [])
        × (x.state ≡ JobState.failed)
  unfolding fail_stale fail_row
  fail_stale-paid redis r late = (
    (fail_row redis run "worker_timeout" (enqueue c j) (fail_turn redis run (enqueue c j) r)).0,
    rw (enqueue-stale late) refl,
    fail_job-Failed (run.ending (enqueue c j)) "worker_timeout"
        (desk_of redis (enqueue c j) (fail_turn redis run (enqueue c j) r)),
  )
