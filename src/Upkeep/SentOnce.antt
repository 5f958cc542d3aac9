-- ===== src/Upkeep/SentOnce.antt =====
-- A job is handed to the broker exactly when its row of the outbox is marked
-- (`dispatch_paid_jobs` of backend/src/rendercart/jobs/tasks.py).
use render_cart.Prelude.{
  ℕ, zero, suc, ◌+◌, ◌≡◌, refl, sym, ap, ◌∙◌, inl, inr, Bool, true, false, not, ◌&&◌, Option, none,
  some, List, [], ◌∷◌, ◌==◌, find_by, sum_by, sum_by-append, Bool-cases, arith, ==_iff,
}
use render_cart.Quota.{Redis}
use render_cart.Jobs.{Job}
use render_cart.Jobs.Execute.Running.{is_queued}
use render_cart.Upkeep.{Dispatch, Rows, Upkeep, fail_row}
use render_cart.Upkeep.Sending.{
  Sent, is_pending, can_run, send_job, dispatch_found, dispatch_one, dispatch_each, keep,
  dispatch_paid_jobs,
}

abbrev one_if : Bool → ℕ
one_if true = 1
one_if false = 0

-- How often a job was handed to the broker, and how many marked rows the outbox has of it.
abbrev pub sent_count : (job : ℕ) → List ℕ → ℕ
sent_count job = sum_by (λ i. one_if (i == job))

abbrev marks : (job : ℕ) → Dispatch → ℕ
marks job d = one_if (d.job_id == job && not (is_pending d))

abbrev pub marked_count : (job : ℕ) → List Dispatch → ℕ
marked_count job = sum_by (marks job)

abbrev mark_of : (job : ℕ) → Option Dispatch → ℕ
mark_of job none = 0
mark_of job (some d) = marks job d

pub found_id : (i : ℕ) (js : List Job) (j : Job) → find_by (λ x. x.id == i) js ≡ some j → j.id ≡ i
found_id i [] j e = cc
found_id i (x ∷ js) j e = elim (Bool-cases (x.id == i)) [
  | inl hit ↦
      let same : x ≡ j = ground (arith, e, hit) in ap (λ y. y.id) (sym same) ∙ (==_iff x.id i).0 hit
  | inr miss ↦ found_id i js j (ground (arith, e, miss))
]

module _ (redis : Redis) (run : Upkeep) (broker : ℕ → Bool) (job : ℕ) where
  -- What a round adds to the messages of a job, and to the marks of its rows.
  Matches : Dispatch → List ℕ → Sent redis → Type 0
  Matches d sent s =
      (marks job d ≡ 0) → sent_count job s.rows.sent ≡ sent_count job sent + mark_of job s.dispatch

  send_job-Matches :
      (accepted : Bool) (d : Dispatch) (j : Job) (js : List Job) (r : Rows redis)
      → j.id ≡ d.job_id
      → Matches d r.sent (send_job redis run accepted d j js r)
  unfolding Matches fail_row
  send_job-Matches true d j js r e fresh = elim (Bool-cases (can_run (run.registry j.tool_slug))) [
    | inl able ↦
        rw able (ground (arith, sum_by-append (λ i. one_if (i == job)) r.sent (j.id ∷ []), e))
    | inr unable ↦ rw unable (omega arith)
  ]
  send_job-Matches false d j js r e fresh = elim (Bool-cases (can_run (run.registry j.tool_slug))) [
    | inl able ↦ rw able (omega (arith, fresh))
    | inr unable ↦ rw unable (omega arith)
  ]

  dispatch_found-Matches :
      (accepted : Bool) (d : Dispatch) (o : Option Job) (js : List Job) (r : Rows redis)
      → find_by (λ j. j.id == d.job_id) js ≡ o
      → Matches d r.sent (dispatch_found redis run accepted d o js r)
  unfolding Matches
  dispatch_found-Matches accepted d none js r e fresh = omega arith
  dispatch_found-Matches accepted d (some j) js r e fresh = elim (Bool-cases (is_queued j.state)) [
    | inl waits ↦ rw waits (send_job-Matches accepted d j js r (found_id d.job_id js j e) fresh)
    | inr other ↦ rw other (omega arith)
  ]

  dispatch_one-Matches :
      (d : Dispatch) (js : List Job) (r : Rows redis)
      → Matches d r.sent (dispatch_one redis run broker d js r)
  unfolding dispatch_one
  dispatch_one-Matches d js r =
      dispatch_found-Matches (broker d.job_id) d (find_by (λ j. j.id == d.job_id) js) js r refl

  keep-marked :
      (o : Option Dispatch) (ds : List Dispatch)
      → marked_count job (keep redis o ds) ≡ mark_of job o + marked_count job ds
  keep-marked none ds = omega arith
  keep-marked (some d) ds = refl

  dispatch_each-sent :
      (budget : ℕ) (ds : List Dispatch) (js : List Job) (r : Rows redis)
      → let (ds', js', r', count) = dispatch_each redis run broker budget ds js r in
        sent_count job r'.sent + marked_count job ds ≡ sent_count job r.sent + marked_count job ds'
  unfolding dispatch_each Matches
  dispatch_each-sent zero ds js r = refl
  dispatch_each-sent (suc n) [] js r = refl
  dispatch_each-sent (suc n) (d ∷ ds) js r = elim (Bool-cases (is_pending d)) [
    | inl waits ↦
        let one = dispatch_one redis run broker d js r in
        let rest = dispatch_each redis run broker n ds one.jobs one.rows in
        let fresh : marks job d ≡ 0 = ground (arith, waits) in
        let step : sent_count job one.rows.sent ≡ sent_count job r.sent + mark_of job one.dispatch =
          dispatch_one-Matches d js r fresh in
        let unmarked : one_if (d.job_id == job && not true) ≡ 0 = ground arith in
        rw waits (
          omega (
            arith,
            step,
            unmarked,
            keep-marked one.dispatch rest.0,
            dispatch_each-sent n ds one.jobs one.rows,
          ))
    | inr done ↦
        let same : marks job d ≡ one_if (d.job_id == job && not false) = rw done refl in
        rw done (omega (arith, same, dispatch_each-sent (suc n) ds js r))
  ]

  -- Whatever the broker answers, a run hands a job to the broker as often as it marks a row of the
  -- job: if before the run the messages of a job are as many as its marked rows, they are after it.
  pub dispatch_paid_jobs-sent :
      (js : List Job) (r : Rows redis)
      → sent_count job r.sent ≡ marked_count job r.dispatches
      → let (js', r', count) = dispatch_paid_jobs redis run broker js r in
        sent_count job r'.sent ≡ marked_count job r'.dispatches
  unfolding dispatch_paid_jobs
  dispatch_paid_jobs-sent js r h = omega (arith, dispatch_each-sent 100 r.dispatches js r, h)
