-- ===== src/Upkeep/Sending.antt =====
-- `dispatch_paid_jobs` of backend/src/rendercart/jobs/tasks.py: the outbox of the jobs that a payment
-- or a schedule has queued.
use render_cart.Prelude.{
  ℕ, zero, suc, ◌+◌, Bool, true, false, Option, none, some, List, [], ◌∷◌, ◌++◌, if◌then◌else◌,
  ◌==◌, find_by, update_by,
}
use render_cart.Quota.{Redis}
use render_cart.Registry.{ToolManifest}
use render_cart.Jobs.{Job}
use render_cart.Jobs.Execute.Running.{is_queued}
use render_cart.Upkeep.{Dispatch, Rows, Upkeep, fail_row}

abbrev pub is_pending : Dispatch → Bool
is_pending d = elim d.dispatched_at [ none ↦ true | some _ ↦ false ]

abbrev pub can_run : Option ToolManifest → Bool
can_run none = false
can_run (some tool) = tool.has_runner

-- The jobs, the other rows, and what becomes of the row of the outbox: kept with a time, kept as
-- it is, or deleted.
pub record Sent (redis : Redis) : Type 0 where
  pub jobs : List Job
  pub rows : Rows redis
  pub dispatch : Option Dispatch
  pub count : ℕ

module _ (redis : Redis) where
  abbrev pub put_job : Job → List Job → List Job
  put_job j = update_by (λ x. x.id == j.id) (λ x. j)

  -- A queued job: fail it without a tool, send it, or leave it if the broker does not answer.
  abbrev pub send_job :
      Upkeep → (accepted : Bool) → Dispatch → Job → List Job → Rows redis → Sent redis
  send_job run accepted d j js r =
      if can_run (run.registry j.tool_slug)
      then (if accepted
          then record {
            jobs = js;
            rows = record r { sent = r.sent ++ j.id ∷ [] };
            dispatch = some (record d { dispatched_at = some run.now });
            count = 1;
          }
          else record { jobs = js; rows = r; dispatch = some d; count = 0 })
      else (let (j', r') = fail_row redis run "tool_unavailable" j r in
          record { jobs = put_job j' js; rows = r'; dispatch = none; count = 0 })

  abbrev pub dispatch_found :
      Upkeep → (accepted : Bool) → Dispatch → Option Job → List Job → Rows redis → Sent redis
  dispatch_found run accepted d none js r = record {
    jobs = js;
    rows = r;
    dispatch = none;
    count = 0;
  }
  dispatch_found run accepted d (some j) js r =
      if is_queued j.state
      then send_job run accepted d j js r
      else record { jobs = js; rows = r; dispatch = none; count = 0 }

  -- One round of the task; `broker` tells which jobs it accepts.
  unfoldable pub dispatch_one :
      Upkeep → (broker : ℕ → Bool) → Dispatch → List Job → Rows redis → Sent redis
  unfolding fail_row
  dispatch_one run broker d js r =
      dispatch_found run (broker d.job_id) d (find_by (λ j. j.id == d.job_id) js) js r

  abbrev pub keep : Option Dispatch → List Dispatch → List Dispatch
  keep none ds = ds
  keep (some d) ds = d ∷ ds

  -- The rounds over the rows of the outbox, the rows that were sent before being passed over;
  -- `budget` is what is left of the limit of the query.
  unfoldable pub dispatch_each :
      Upkeep
      → (broker : ℕ → Bool) → (budget : ℕ) → List Dispatch
      → List Job
      → Rows redis
      → List Dispatch × List Job × Rows redis × ℕ
  unfolding dispatch_one
  dispatch_each run broker zero ds js r = (ds, js, r, 0)
  dispatch_each run broker (suc n) [] js r = ([], js, r, 0)
  dispatch_each run broker (suc n) (d ∷ ds) js r =
      if is_pending d
      then (let s = dispatch_one run broker d js r in
          let (ds', js', r', count) = dispatch_each run broker n ds s.jobs s.rows in
          (keep s.dispatch ds', js', r', s.count + count))
      else (let (ds', js', r', count) = dispatch_each run broker (suc n) ds js r in
          (d ∷ ds', js', r', count))

  -- `dispatch_paid_jobs`
  unfoldable pub dispatch_paid_jobs :
      Upkeep → (broker : ℕ → Bool) → List Job → Rows redis → List Job × Rows redis × ℕ
  unfolding dispatch_each
  dispatch_paid_jobs run broker js r =
      let (ds, js', r', count) = dispatch_each run broker 100 r.dispatches js r in
      (js', record r' { dispatches = ds }, count)
