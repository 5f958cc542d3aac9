-- ===== src/Upkeep/Pending.antt =====
-- How many rows of the outbox a run of `dispatch_paid_jobs`
-- (backend/src/rendercart/jobs/tasks.py) leaves pending.
use render_cart.Prelude.{
  ℕ, zero, suc, ◌+◌, ◌-◌, ◌≡◌, refl, inl, inr, Bool, true, false, Option, none, some, List, [], ◌∷◌,
  ◌==◌, find_by, length, filter_by, Bool-cases, arith,
}
use render_cart.Quota.{Redis}
use render_cart.Jobs.{Job}
use render_cart.Jobs.Execute.Running.{is_queued}
use render_cart.Upkeep.{Dispatch, Rows, Upkeep}
use render_cart.Upkeep.Sending.{
  is_pending, can_run, send_job, dispatch_found, dispatch_one, dispatch_each, keep,
}

abbrev pub pending_count : List Dispatch → ℕ
pending_count ds = length (filter_by is_pending ds)

abbrev one_if : Bool → ℕ
one_if true = 1
one_if false = 0

pub pending_count-cons :
    (d : Dispatch) (ds : List Dispatch)
    → pending_count (d ∷ ds) ≡ one_if (is_pending d) + pending_count ds
pending_count-cons d ds = ground arith

abbrev after : Option Dispatch → ℕ
after none = 0
after (some d) = one_if (is_pending d)

pub one_if-true : (b : Bool) → b ≡ true → one_if b ≡ 1
one_if-true b e = rw e refl

one_if-false : (b : Bool) → b ≡ false → one_if b ≡ 0
one_if-false b e = rw e refl

keep-count :
    (redis : Redis) (o : Option Dispatch) (ds : List Dispatch)
    → pending_count (keep redis o ds) ≡ after o + pending_count ds
keep-count redis none ds = omega arith
keep-count redis (some d) ds = pending_count-cons d ds

-- A broker that accepts every job.
abbrev pub accepting : ℕ → Bool
accepting i = true

module _ (redis : Redis) (run : Upkeep) where
  -- A row that the broker accepts is not pending any more.
  send_job-done :
      (d : Dispatch) (j : Job) (js : List Job) (r : Rows redis)
      → after (send_job redis run true d j js r).dispatch ≡ 0
  send_job-done d j js r = elim (Bool-cases (can_run (run.registry j.tool_slug))) [
    | inl able ↦ rw able refl
    | inr unable ↦ rw unable refl
  ]

  dispatch_found-done :
      (d : Dispatch) (o : Option Job) (js : List Job) (r : Rows redis)
      → after (dispatch_found redis run true d o js r).dispatch ≡ 0
  dispatch_found-done d none js r = refl
  dispatch_found-done d (some j) js r = elim (Bool-cases (is_queued j.state)) [
    | inl waits ↦ rw waits (send_job-done d j js r)
    | inr other ↦ rw other refl
  ]

  dispatch_one-done :
      (d : Dispatch) (js : List Job) (r : Rows redis)
      → after (dispatch_one redis run accepting d js r).dispatch ≡ 0
  unfolding dispatch_one
  dispatch_one-done d js r = dispatch_found-done d (find_by (λ j. j.id == d.job_id) js) js r

  pub dispatch_each-pending :
      (budget : ℕ) (ds : List Dispatch) (js : List Job) (r : Rows redis)
      → pending_count (dispatch_each redis run accepting budget ds js r).0
        ≡ pending_count ds - budget
  unfolding dispatch_each
  dispatch_each-pending zero ds js r = omega arith
  dispatch_each-pending (suc n) [] js r = omega arith
  dispatch_each-pending (suc n) (d ∷ ds) js r = elim (Bool-cases (is_pending d)) [
    | inl waits ↦
        let one = dispatch_one redis run accepting d js r in
        let rest = dispatch_each redis run accepting n ds one.jobs one.rows in
        rw waits (
          omega (
            arith,
            keep-count redis one.dispatch rest.0,
            dispatch_one-done d js r,
            dispatch_each-pending n ds one.jobs one.rows,
            pending_count-cons d ds,
            one_if-true (is_pending d) waits,
          ))
    | inr done ↦
        let rest = dispatch_each redis run accepting (suc n) ds js r in
        rw done (
          omega (
            arith,
            dispatch_each-pending (suc n) ds js r,
            pending_count-cons d rest.0,
            pending_count-cons d ds,
            one_if-false (is_pending d) done,
          ))
  ]
