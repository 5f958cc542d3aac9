-- ===== src/Upkeep/Rounds.antt =====
-- What the rounds of `dispatch_paid_jobs` (backend/src/rendercart/jobs/tasks.py) do to the rows of
-- the outbox, when the broker accepts.
use mathlib.Core.List.{append_assoc}
use render_cart.Prelude.{
  ◌&&◌, not, ◌++◌, if◌then◌else◌, sym, ap, ◌∙◌, ℕ, zero, suc, ◌≡◌, refl, inl, inr, Bool, true,
  false, Option, none, some, List, [], ◌∷◌, ◌==◌, find_by, Bool-cases, arith,
}
use render_cart.Quota.{Redis}
use render_cart.Registry.{ToolManifest}
use render_cart.Jobs.{Job, JobState}
use render_cart.Jobs.Execute.Running.{is_queued}
use render_cart.Jobs.States.{fail_job-state}
use render_cart.Upkeep.{fail_row, desk_of, Dispatch, Rows, Upkeep}
use render_cart.Upkeep.SentOnce.{found_id}
use render_cart.Upkeep.Sending.{
  Sent, put_job, is_pending, can_run, send_job, dispatch_found, dispatch_one, dispatch_each, keep,
}
use render_cart.Upkeep.Pending.{accepting}

abbrev pub in_queue : JobState → Bool
in_queue JobState.queued = true
in_queue _ = false

abbrev pub runnable : Option ToolManifest → Bool
runnable none = false
runnable (some tool) = tool.has_runner

in_queue-is_queued : (s : JobState) → in_queue s ≡ is_queued s
in_queue-is_queued JobState.awaiting_payment = refl
in_queue-is_queued JobState.queued = refl
in_queue-is_queued JobState.running = refl
in_queue-is_queued JobState.succeeded = refl
in_queue-is_queued JobState.failed = refl
in_queue-is_queued JobState.cancelled = refl

runnable-can_run : (o : Option ToolManifest) → runnable o ≡ can_run o
runnable-can_run none = refl
runnable-can_run (some tool) = refl

module _ (run : Upkeep) where
  -- Whether the job of a row can be handed over: it is queued, and its tool can run.
  abbrev pub ready_job : Option Job → Bool
  ready_job none = false
  ready_job (some j) = in_queue j.state && runnable (run.registry j.tool_slug)

  abbrev pub ready : List Job → ℕ → Bool
  ready js i = ready_job (find_by (λ j. j.id == i) js)

  -- The outbox when it is cleared: a pending row of a ready job is marked with the time, another
  -- pending row is gone, and the other rows stay.
  abbrev pub cleared : (ready : ℕ → Bool) → List Dispatch → List Dispatch
  cleared p [] = []
  cleared p (d ∷ ds) =
      let rest = cleared p ds in
      if not (is_pending d)
      then d ∷ rest
      else if p d.job_id
      then record d { dispatched_at = some run.now } ∷ rest
      else rest

-- The ready jobs of the pending rows, in order.
abbrev pub handed : (ready : ℕ → Bool) → List Dispatch → List ℕ
handed p [] = []
handed p (d ∷ ds) =
    let rest = handed p ds in if is_pending d && p d.job_id then d.job_id ∷ rest else rest

module _ (redis : Redis) (run : Upkeep) where
  -- What is still to be done of the same end.
  pub record Toward (p : ℕ → Bool) (ds : List Dispatch) (sent : List ℕ) (ds' : List Dispatch)
      (js' : List Job) (r' : Rows redis) : Type 0 where
    pub ready_same : (i : ℕ) → ready run js' i ≡ p i
    pub rows_same : cleared run p ds' ≡ cleared run p ds
    pub sent_same : r'.sent ++ handed p ds' ≡ sent ++ handed p ds

  put_job-ready :
      (j : Job) (js : List Job) (i : ℕ)
      → in_queue j.state ≡ false
      → ready run js j.id ≡ false
      → ready run (put_job redis j js) i ≡ ready run js i
  put_job-ready j [] i over gone = refl
  put_job-ready j (x ∷ js) i over gone = elim (Bool-cases (x.id == j.id)) [
    | inl hit ↦ elim (Bool-cases (x.id == i)) [
      | inl here ↦ ground (arith, hit, here, over, gone)
      | inr there ↦ ground (arith, hit, there, over, gone)
    ]
    | inr miss ↦ ground (arith, miss, put_job-ready j js i over, gone)
  ]

  -- What a round does with the row `d`, and leaves for the later rounds.
  record Round (p : ℕ → Bool) (d : Dispatch) (sent : List ℕ) (s : Sent redis) : Type 0 where
    pub ready_same : (i : ℕ) → ready run s.jobs i ≡ p i
    pub rows_same :
        (ds : List Dispatch) → cleared run p (keep redis s.dispatch ds) ≡ cleared run p (d ∷ ds)
    pub kept : (ds : List Dispatch) → handed p (keep redis s.dispatch ds) ≡ handed p ds
    pub sent_same : (ds : List Dispatch) → s.rows.sent ++ handed p ds ≡ sent ++ handed p (d ∷ ds)

  -- A row of a job that is not ready is deleted.
  deleted-Round :
      (p : ℕ → Bool) (d : Dispatch) (js : List Job) (r r' : Rows redis)
      → ((i : ℕ) → ready run js i ≡ p i)
      → is_pending d ≡ true
      → p d.job_id ≡ false
      → r'.sent ≡ r.sent
      → Round p d r.sent (record { jobs = js; rows = r'; dispatch = none; count = 0 })
  deleted-Round p d js r r' same waits unready sent = record {
    ready_same = same;
    rows_same = λ ds. rw (waits, unready) refl;
    kept = λ ds. refl;
    sent_same = λ ds. rw (waits, unready, sent) refl;
  }

  send_job-Round :
      (p : ℕ → Bool) (d : Dispatch) (j : Job) (js : List Job) (r : Rows redis)
      → ((i : ℕ) → ready run js i ≡ p i)
      → is_pending d ≡ true
      → j.id ≡ d.job_id
      → is_queued j.state ≡ true
      → p d.job_id ≡ can_run (run.registry j.tool_slug)
      → Round p d r.sent (send_job redis run true d j js r)
  unfolding fail_row
  send_job-Round p d j js r same waits own queued is =
      elim (Bool-cases (can_run (run.registry j.tool_slug))) [
        | inl able ↦
            let can : p d.job_id ≡ true = is ∙ able in
            rw able record {
              ready_same = same;
              rows_same = λ ds. rw (waits, can) refl;
              kept = λ ds. refl;
              sent_same =
                  λ ds. rw (waits, can, own) (append_assoc r.sent (d.job_id ∷ []) (handed p ds));
            }
        | inr unable ↦
            let over = fail_job-state (run.ending j) "tool_unavailable" (desk_of redis j r) in
            let failed_job = (fail_row redis run "tool_unavailable" j r).0 in
            let idle : in_queue failed_job.state ≡ false = rw over.0 refl in
            let at : p failed_job.id ≡ p d.job_id = ap p (over.2 ∙ own) in
            let gone : ready run js failed_job.id ≡ false = same failed_job.id ∙ at ∙ is ∙ unable in
            rw unable (
              deleted-Round p d (put_job redis failed_job js) r
                (fail_row redis run "tool_unavailable" j r).1
                (λ i. put_job-ready failed_job js i idle gone ∙ same i) waits (is ∙ unable) refl)
      ]

  dispatch_found-Round :
      (p : ℕ → Bool) (d : Dispatch) (o : Option Job) (js : List Job) (r : Rows redis)
      → find_by (λ j. j.id == d.job_id) js ≡ o
      → ((i : ℕ) → ready run js i ≡ p i)
      → is_pending d ≡ true
      → ready_job run o ≡ p d.job_id
      → Round p d r.sent (dispatch_found redis run true d o js r)
  dispatch_found-Round p d none js r found same waits is =
      deleted-Round p d js r r same waits (sym is) refl
  dispatch_found-Round p d (some j) js r found same waits ready_is =
      let is : (is_queued j.state && can_run (run.registry j.tool_slug)) ≡ p d.job_id =
        rw⁻¹ (in_queue-is_queued j.state, runnable-can_run (run.registry j.tool_slug)) ready_is in
      elim (Bool-cases (is_queued j.state)) [
        | inl queued ↦
            let can : can_run (run.registry j.tool_slug) ≡ p d.job_id = rw queued at is in
            rw queued
              (send_job-Round p d j js r same waits (found_id d.job_id js j found) queued (sym can))
        | inr other ↦
            let unready : false ≡ p d.job_id = rw other at is in
            rw other (deleted-Round p d js r r same waits (sym unready) refl)
      ]

  dispatch_one-Round :
      (p : ℕ → Bool) (d : Dispatch) (js : List Job) (r : Rows redis)
      → ((i : ℕ) → ready run js i ≡ p i)
      → is_pending d ≡ true
      → Round p d r.sent (dispatch_one redis run accepting d js r)
  unfolding dispatch_one
  dispatch_one-Round p d js r same waits =
      dispatch_found-Round p d (find_by (λ j. j.id == d.job_id) js) js r refl same waits
        (same d.job_id)

  cleared-cons :
      (p : ℕ → Bool) (d : Dispatch) (xs ys : List Dispatch)
      → cleared run p xs ≡ cleared run p ys
      → cleared run p (d ∷ xs) ≡ cleared run p (d ∷ ys)
  cleared-cons p d xs ys e = rw e refl

  pub dispatch_each-Toward :
      (p : ℕ → Bool) (budget : ℕ) (ds : List Dispatch) (js : List Job) (r : Rows redis)
      → ((i : ℕ) → ready run js i ≡ p i)
      → let (ds', js', r', count) = dispatch_each redis run accepting budget ds js r in
        Toward p ds r.sent ds' js' r'
  unfolding dispatch_each
  dispatch_each-Toward p zero ds js r same = record {
    ready_same = same;
    rows_same = refl;
    sent_same = refl;
  }
  dispatch_each-Toward p (suc n) [] js r same = record {
    ready_same = same;
    rows_same = refl;
    sent_same = refl;
  }
  dispatch_each-Toward p (suc n) (d ∷ ds) js r same = elim (Bool-cases (is_pending d)) [
    | inl waits ↦
        let one = dispatch_one redis run accepting d js r in
        let rest = dispatch_each redis run accepting n ds one.jobs one.rows in
        let round = dispatch_one-Round p d js r same waits in
        let later = dispatch_each-Toward p n ds one.jobs one.rows round.ready_same in
        let t : Toward p (d ∷ ds) r.sent (keep redis one.dispatch rest.0) rest.1 rest.2 = record {
          ready_same = later.ready_same;
          rows_same = round.rows_same rest.0 ∙ cleared-cons p d rest.0 ds later.rows_same;
          sent_same =
              ap (λ is. rest.2.sent ++ is) (round.kept rest.0)
              ∙ later.sent_same
              ∙ round.sent_same ds;
        } in
        rw waits t
    | inr done ↦
        let rest = dispatch_each redis run accepting (suc n) ds js r in
        let later = dispatch_each-Toward p (suc n) ds js r same in
        let skip : (xs : List Dispatch) → handed p (d ∷ xs) ≡ handed p xs = λ xs. rw done refl in
        let t : Toward p (d ∷ ds) r.sent (d ∷ rest.0) rest.1 rest.2 = record {
          ready_same = later.ready_same;
          rows_same = cleared-cons p d rest.0 ds later.rows_same;
          sent_same =
              ap (λ is. rest.2.sent ++ is) (skip rest.0)
              ∙ later.sent_same
              ∙ ap (λ is. r.sent ++ is) (sym (skip ds));
        } in
        rw done t
  ]
